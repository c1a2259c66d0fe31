-- ===== src/Verify.antt =====
-- code/verify.cpp: block hashes as text, and the Merkle tree over the chains.
pub mod Hash
pub mod Merkle
mod Examples
