-- ===== src/Blockchain/HashTree/Lookup.antt =====
-- `find_block_by_hash` after each insertion.
use ohie.Base.{ℕ, ◌≡◌, refl, compare, Ordering, Option, none, some, arith}
use ohie.Blockchain.HashTree.{
  HashTree, leaf, node, single, find_block_by_hash, insert_block_only_by_hash, insert_one_node,
}

-- The first answer that is not `NULL`.
abbrev pub or_else : Option ℕ → Option ℕ → Option ℕ
or_else (some a) other = some a
or_else none other = other

pub or_else_assoc : (x y z : Option ℕ) → or_else (or_else x y) z ≡ or_else x (or_else y z)
or_else_assoc none y z = refl
or_else_assoc (some a) y z = refl

pub find_block_by_hash-single :
    (h a q : ℕ)
    → find_block_by_hash (single h a) q ≡ (elim (compare h q) [ Ordering.eq ↦ some a | _ ↦ none ])
unfolding find_block_by_hash
find_block_by_hash-single h a q = ground arith

-- A block goes in under its hash, unless that hash is there.
pub find-insert_block_only :
    (t : HashTree) (h a q : ℕ)
    → find_block_by_hash t h ≡ none
    → find_block_by_hash (insert_block_only_by_hash t h a) q
      ≡ or_else (find_block_by_hash t q) (find_block_by_hash (single h a) q)
unfolding find_block_by_hash insert_block_only_by_hash
find-insert_block_only leaf h a q e = refl
find-insert_block_only (node l k b r) h a q e =
    ground (arith, find-insert_block_only l h a q, find-insert_block_only r h a q)

-- What `insert_one_node` answers for: the tree first, then the new node.
pub find-insert_one_node :
    (t : HashTree) (h a q : ℕ)
    → find_block_by_hash (insert_one_node t (single h a)) q
      ≡ or_else (find_block_by_hash t q) (find_block_by_hash (single h a) q)
unfolding find_block_by_hash insert_one_node
find-insert_one_node leaf h a q = refl
find-insert_one_node (node l k b r) h a q =
    ground (arith, find-insert_one_node l h a q, find-insert_one_node r h a q)
