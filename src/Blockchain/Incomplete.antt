-- ===== src/Blockchain/Incomplete.antt =====
-- code/Blockchain.cpp: adding a block below its parent, and the list of incomplete chains, those whose root the node has not received.
-- A pointer into the list is a position. `none` is a fault.
use ohie.Base.{
  ℕ, zero, suc, ◌+◌, List, [], ◌∷◌, ◌++◌, Bool, true, false, ◌||◌, Option, none, some, ◌==◌,
  is_some, if◌then◌else◌, ◌>>=◌, get_elem?, set,
}
use ohie.Blockchain.HashTree.{find_block_by_hash, insert_block_only_by_hash, insert_subtree_by_hash}
use ohie.Blockchain.Links.{null, block, add_child, parent_of, find_number_of_nodes}
use ohie.Blockchain.State.{Store, Tree, Incomplete, allocate, bootstrap_chain}

-- The tree and the store afterwards, and whether the parent was there.
unfoldable pub add_block_by_parent_hash : Store → Tree → ℕ → ℕ → Bool × Tree × Store
unfolding allocate
add_block_by_parent_hash s t parent hash = elim (find_block_by_hash t.index parent) [
  | none ↦ (false, t, s)
  | some p ↦ (
    true,
    record t {
      index = insert_block_only_by_hash t.index hash s.next;
      links = add_child t.links p (block s.next null null);
    },
    allocate s (record { hash = hash; nb = s.raw s.next; is_full_block = false }),
  )
]

-- A position past the end of the list makes the source read through `NULL`.
unfoldable pub remove_one_chain : List Incomplete → ℕ → Option (List Incomplete)
remove_one_chain [] to_be_removed = none
remove_one_chain (t ∷ rest) zero = some rest
remove_one_chain (t ∷ rest) (suc i) = do rest' ← remove_one_chain rest i; some (t ∷ rest')

-- The first entry whose root has that hash.
unfoldable pub is_incomplete_hash : Store → List Incomplete → ℕ → Option ℕ
is_incomplete_hash s [] hash = none
is_incomplete_hash s (l ∷ rest) hash =
    if (s.cell l.b.root).hash == hash
    then some 0
    else do i ← is_incomplete_hash s rest hash; some (suc i)

-- The block with the hash `child_hash`, if there is one, hangs below a block with the hash
-- `parent_hash`.
unfoldable pub hangs_below : Store → Tree → ℕ → ℕ → Bool
hangs_below s t parent_hash child_hash = elim (find_block_by_hash t.index child_hash) [
  | none ↦ false
  | some b ↦ elim (parent_of t.links b) [ none ↦ false | some p ↦ (s.cell p).hash == parent_hash ]
]

unfoldable pub is_in_incomplete : Store → List Incomplete → ℕ → ℕ → Bool
unfolding hangs_below
is_in_incomplete s [] parent_hash child_hash = false
is_in_incomplete s (t ∷ rest) parent_hash child_hash =
    hangs_below s t.b parent_hash child_hash || is_in_incomplete s rest parent_hash child_hash

unfoldable pub find_incomplete_block : List Incomplete → ℕ → Option ℕ
find_incomplete_block [] child_hash = none
find_incomplete_block (t ∷ rest) child_hash = elim (find_block_by_hash t.b.index child_hash) [
  | none ↦ find_incomplete_block rest child_hash
  | some b ↦ some b
]

-- The first entry that holds the hash: `ch` and `ph` of the source's scan.
unfoldable pub holder : List Incomplete → ℕ → Option ℕ
holder [] hash = none
holder (t ∷ rest) hash =
    if is_some (find_block_by_hash t.b.index hash)
    then some 0
    else do i ← holder rest hash; some (suc i)

-- A new entry: the parent, not received, with the block below it.
unfoldable pub new_incomplete : Store → ℕ → ℕ → Incomplete × Store
unfolding bootstrap_chain add_block_by_parent_hash
new_incomplete s parent_hash child_hash =
    let (bl, s') = bootstrap_chain s parent_hash in
    let (done, bl', s'') = add_block_by_parent_hash s' bl parent_hash child_hash in
    (record { b = bl'; last_asked = 0; no_asks = 0 }, s'')

-- The parent is known: the block goes below it.
unfoldable pub extend_incomplete : Store → Incomplete → ℕ → ℕ → Incomplete × Store
extend_incomplete s ph parent_hash child_hash =
    let (done, b', s') = add_block_by_parent_hash s ph.b parent_hash child_hash in
    (record ph { b = b' }, s')

-- The block is known: the parent becomes the root above the entry's root.
unfoldable pub root_incomplete : Store → Incomplete → ℕ → Incomplete × Store
unfolding bootstrap_chain
root_incomplete s ch parent_hash =
    let (bl, s') = bootstrap_chain s parent_hash in
    (
      record {
        b = record {
          root = bl.root;
          index = insert_subtree_by_hash bl.index ch.b.index;
          links = block bl.root ch.b.links null;
        };
        last_asked = 0;
        no_asks = 0;
      },
      s',
    )

-- Both are known: the entry of the block goes below the parent in the parent's entry.
unfoldable pub join_incomplete : Incomplete → Incomplete → ℕ → Option Incomplete
join_incomplete ph ch parent_hash = do
  let index' = insert_subtree_by_hash ph.b.index ch.b.index
  parent_block ← find_block_by_hash index' parent_hash
  some (record ph {
    b = record (ph.b) { index = index'; links = add_child ph.b.links parent_block ch.b.links };
  })

unfoldable pub add_block_to_incomplete :
    Store → List Incomplete → ℕ → ℕ → Option (List Incomplete × Store)
add_block_to_incomplete s l parent_hash child_hash = elim (holder l child_hash) [
  | none ↦ elim (holder l parent_hash) [
    | none ↦ let (bi, s') = new_incomplete s parent_hash child_hash in some (l ++ bi ∷ [], s')
    | some ph ↦ do
      e ← get_elem? l ph
      let (e', s') = extend_incomplete s e parent_hash child_hash
      some (set l ph e', s')
  ]
  | some ch ↦ elim (holder l parent_hash) [
    | none ↦ do
      e ← get_elem? l ch
      let (e', s') = root_incomplete s e parent_hash
      some (set l ch e', s')
    | some ph ↦ do
      e ← get_elem? l ph
      f ← get_elem? l ch
      e' ← join_incomplete e f parent_hash
      l' ← remove_one_chain (set l ph e') ch
      some (l', s)
  ]
]

unfoldable pub find_number_of_incomplete_blocks : List Incomplete → ℕ
find_number_of_incomplete_blocks [] = 0
find_number_of_incomplete_blocks (l ∷ rest) =
    find_number_of_nodes l.b.links + find_number_of_incomplete_blocks rest
