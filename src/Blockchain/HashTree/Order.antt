-- ===== src/Blockchain/HashTree/Order.antt =====
-- code/Blockchain.cpp: the order of the search tree under the insertions.
use ohie.Base.{ℕ, ◌<◌, ◌≡◌, ◌⊎◌, refl, none, arith}
use ohie.Blockchain.HashTree.{
  HashTree, leaf, node, single, find_block_by_hash, insert_block_only_by_hash, insert_one_node,
  insert_subtree_by_hash,
}

-- Every hash of the tree satisfies `P`.
abbrev pub AllHashes {ℓ} : (ℕ → Type ℓ) → HashTree → Type ℓ
AllHashes P leaf = Unit
AllHashes P (node l h a r) = AllHashes P l × P h × AllHashes P r

-- Each hash stands once, smaller ones to its left.
abbrev pub IsOrdered : HashTree → Type 0
IsOrdered leaf = Unit
IsOrdered (node l h a r) =
    AllHashes (λ k. k < h) l × AllHashes (λ k. h < k) r × IsOrdered l × IsOrdered r

All-insert_block_only {ℓ} :
    (P : ℕ → Type ℓ) (t : HashTree) (h a : ℕ)
    → P h
    → AllHashes P t
    → AllHashes P (insert_block_only_by_hash t h a)
unfolding insert_block_only_by_hash
All-insert_block_only P leaf h a p s = (tt, p, tt)
All-insert_block_only P (node l k b r) h a p s =
    ground (arith, All-insert_block_only P l h a, All-insert_block_only P r h a)

All-insert_one_node {ℓ} :
    (P : ℕ → Type ℓ) (t : HashTree) (h a : ℕ)
    → P h
    → AllHashes P t
    → AllHashes P (insert_one_node t (single h a))
unfolding insert_one_node
All-insert_one_node P leaf h a p s = (tt, p, tt)
All-insert_one_node P (node l k b r) h a p s =
    ground (arith, All-insert_one_node P l h a, All-insert_one_node P r h a)

-- A hash that is not there goes in where the order wants it.
pub insert_block_only-IsOrdered :
    (t : HashTree) (h a : ℕ)
    → find_block_by_hash t h ≡ none
    → IsOrdered t
    → IsOrdered (insert_block_only_by_hash t h a)
unfolding find_block_by_hash insert_block_only_by_hash
insert_block_only-IsOrdered leaf h a e s = (tt, tt, tt, tt)
insert_block_only-IsOrdered (node l k b r) h a e s = ground (
  arith,
  insert_block_only-IsOrdered l h a,
  insert_block_only-IsOrdered r h a,
  All-insert_block_only (λ x. x < k) l h a,
  All-insert_block_only (λ x. k < x) r h a,
)

pub insert_one_node-IsOrdered :
    (t : HashTree) (h a : ℕ) → IsOrdered t → IsOrdered (insert_one_node t (single h a))
unfolding insert_one_node
insert_one_node-IsOrdered leaf h a s = (tt, tt, tt, tt)
insert_one_node-IsOrdered (node l k b r) h a s = ground (
  arith,
  insert_one_node-IsOrdered l h a,
  insert_one_node-IsOrdered r h a,
  All-insert_one_node (λ x. x < k) l h a,
  All-insert_one_node (λ x. k < x) r h a,
)

-- Merging any subtree into an ordered tree gives an ordered tree.
pub insert_subtree-IsOrdered :
    (t s : HashTree) → IsOrdered t → IsOrdered (insert_subtree_by_hash t s)
unfolding insert_subtree_by_hash
insert_subtree-IsOrdered t leaf o = o
insert_subtree-IsOrdered t (node l h a r) o =
    let one = insert_one_node t (single h a) in
    insert_subtree-IsOrdered (insert_subtree_by_hash one l) r
      (insert_subtree-IsOrdered one l (insert_one_node-IsOrdered t h a o))

-- A hash on the wrong side of all the hashes of a tree is not found in it.
pub find_none_below :
    (t : HashTree) (b q : ℕ)
    → AllHashes (λ k. k < b) t
    → b < q ⊎ (b ≡ q)
    → find_block_by_hash t q ≡ none
unfolding find_block_by_hash
find_none_below leaf b q s h = refl
find_none_below (node l k a r) b q s h = ground (arith, find_none_below r b q s.2 h)

pub find_none_above :
    (t : HashTree) (b q : ℕ)
    → AllHashes (λ k. b < k) t
    → q < b ⊎ (b ≡ q)
    → find_block_by_hash t q ≡ none
unfolding find_block_by_hash
find_none_above leaf b q s h = refl
find_none_above (node l k a r) b q s h = ground (arith, find_none_above l b q s.0 h)
