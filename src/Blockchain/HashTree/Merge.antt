-- ===== src/Blockchain/HashTree/Merge.antt =====
-- code/Blockchain.cpp: lookups after `insert_subtree_by_hash`.
use ohie.Base.{ℕ, ◌≡◌, refl, Option, none, some, arith}
use ohie.Blockchain.HashTree.{
  HashTree, leaf, node, single, find_block_by_hash, insert_one_node, insert_subtree_by_hash,
}
use ohie.Blockchain.HashTree.Lookup.{or_else, or_else_assoc, find-insert_one_node}
use ohie.Blockchain.HashTree.Order.{IsOrdered, find_none_below, find_none_above}

-- A tree answers like its root, then its left side, then its right side.
find-node :
    (l : HashTree) (h a : ℕ) (r : HashTree) (q : ℕ)
    → IsOrdered (node l h a r)
    → find_block_by_hash (node l h a r) q
      ≡ or_else
          (find_block_by_hash (single h a) q)
          (or_else (find_block_by_hash l q) (find_block_by_hash r q))
unfolding find_block_by_hash
find-node l h a r q o = ground (arith, find_none_below l h q o.0, find_none_above r h q o.1)

or_else-none : (x : Option ℕ) → x ≡ or_else x none
or_else-none none = refl
or_else-none (some a) = refl

-- Lookup in the tree that a merge gives: the first tree answers, and where it has no answer the
-- subtree, which is ordered, does.
pub find-insert_subtree :
    (t s : HashTree) (q : ℕ)
    → IsOrdered s
    → find_block_by_hash (insert_subtree_by_hash t s) q
      ≡ or_else (find_block_by_hash t q) (find_block_by_hash s q)
unfolding insert_subtree_by_hash find_block_by_hash
find-insert_subtree t leaf q o = or_else-none (find_block_by_hash t q)
find-insert_subtree t (node l h a r) q o =
    let one = insert_one_node t (single h a) in
    rw
      (
        find-insert_subtree (insert_subtree_by_hash one l) r q o.3,
        find-insert_subtree one l q o.2,
        find-insert_one_node t h a q,
        find-node l h a r q o,
      )
      (simp or_else_assoc)
