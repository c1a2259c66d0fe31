-- ===== src/Blockchain/HashTree.antt =====
-- code/Blockchain.cpp: the binary search tree that the `left` and `right` links of the blocks of
-- one chain make. The links are owned by the tree, so it is an inductive value; a node keeps its
-- hash and the address of its block, by which other structures refer to it.
pub mod Lookup
pub mod Order
pub mod Merge
use ohie.Base.{ℕ, compare, Ordering, Option, none, some}

pub data HashTree : Type 0 where
  leaf : HashTree
  node : HashTree → ℕ → ℕ → HashTree → HashTree

-- A block just allocated, with no links.
abbrev pub single : ℕ → ℕ → HashTree
single hash address = node leaf hash address leaf

-- `none` is the source's `NULL`.
unfoldable pub find_block_by_hash : HashTree → ℕ → Option ℕ
find_block_by_hash leaf hash = none
find_block_by_hash (node l h a r) hash = elim (compare h hash) [
  | Ordering.gt ↦ find_block_by_hash l hash
  | Ordering.lt ↦ find_block_by_hash r hash
  | Ordering.eq ↦ some a
]

-- An equal hash goes to the left. The address is that of the block that the source allocates.
unfoldable pub insert_block_only_by_hash : HashTree → ℕ → ℕ → HashTree
insert_block_only_by_hash leaf hash address = single hash address
insert_block_only_by_hash (node l h a r) hash address = elim (compare h hash) [
  | Ordering.lt ↦ node l h a (insert_block_only_by_hash r hash address)
  | _ ↦ node (insert_block_only_by_hash l hash address) h a r
]

-- The `NULL` tests before the two recursive calls are the clause for the empty tree.
unfoldable pub insert_one_node : HashTree → HashTree → HashTree
insert_one_node leaf subtree = subtree
insert_one_node (node l h a r) leaf = node l h a r
insert_one_node (node l h a r) (node sl sh sa sr) = elim (compare h sh) [
  | Ordering.gt ↦ node (insert_one_node l (node sl sh sa sr)) h a r
  | Ordering.lt ↦ node l h a (insert_one_node r (node sl sh sa sr))
  | Ordering.eq ↦ node l h a r
]

-- The root of the subtree loses its links and goes in first, then the two sides.
unfoldable pub insert_subtree_by_hash : HashTree → HashTree → HashTree
insert_subtree_by_hash r leaf = r
insert_subtree_by_hash r (node left h a right) =
    insert_subtree_by_hash (insert_subtree_by_hash (insert_one_node r (single h a)) left) right
