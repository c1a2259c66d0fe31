-- ===== src/Blockchain.antt =====
-- code/Blockchain.cpp and code/Blockchain.hpp: the chains of blocks, and the confirmation of blocks.
pub mod HashTree
pub mod Links
pub mod State
pub mod Incomplete
pub mod Receive
pub mod Full
pub mod Commit
pub mod Start
pub mod Reach
pub mod Totals
mod Examples
mod Runs
