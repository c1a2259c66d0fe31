-- ===== src/Handler.antt =====
-- code/process_buffer.cpp: what a node does with a message of each kind. `none` is `exit`, a fault, or a
-- wait for a mutex that is never unlocked.
pub mod State
pub mod Blocks
pub mod Gossip
pub mod Full
pub mod Stream
pub mod Reach
mod Examples
