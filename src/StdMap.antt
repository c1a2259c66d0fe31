-- ===== src/StdMap.antt =====
-- `std::map`, which the node's tables are: an association list in the order of its keys, which is
-- the order in which the C++ code walks it. Keys are compared through an instance.
mod Defs
mod Laws
pub use Defs.{KeyOrder}
unfoldable pub use Defs.{nat_order, Entries, lookup, assign, insert, erase}
pub use Laws.*
