-- ===== src/Transactions.antt =====
-- code/transactions.cpp: the tables of transactions, reception, aging, promises, and the mempool.
pub mod State
pub mod Receive
pub mod Promise
pub mod Create
pub mod Addresses
pub mod Entered
pub mod Created
pub mod Once
pub mod Arriving
pub mod Spent
pub mod Mempool
pub mod Promises
pub mod Aging
mod Examples
