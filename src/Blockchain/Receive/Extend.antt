-- ===== src/Blockchain/Receive/Extend.antt =====
-- code/Blockchain.cpp: `add_received_block` of a block whose parent is in the main chain, and for
-- which no incomplete chain waits.
use ohie.Base.{
  ℕ, ◌≡◌, ◌≢◌, ◌∙◌, refl, true, false, List, [], ◌∷◌, none, some, arith, ◌==◌, if◌then◌else◌, ltb,
  get_elem?, lt-of_get_elem?, get_elem?-set_self,
}
use ohie.Blockchain.HashTree.{find_block_by_hash, insert_block_only_by_hash}
use ohie.Blockchain.HashTree.Lookup.{find-insert_block_only, find_block_by_hash-single}
use ohie.Blockchain.Links.{null, block, add_child, ancestors, find_max_depth, max_depth_loop}
use ohie.Blockchain.Links.Ancestors.{
  children_of-add_child, ancestors-add_child_self, ancestors-add_child_ne,
}
use ohie.Blockchain.State.{
  NetworkBlock, Store, Tree, Chain, Blockchain, allocate, write, set_nb, depth_of,
}
use ohie.Blockchain.Incomplete.{add_block_by_parent_hash, is_incomplete_hash}
use ohie.Blockchain.Receive.{
  Outcome, add_received_block, add_full_block_info, add_received_non_full, extend_chain, put_chain,
  received,
}

-- The tree with a new block of that hash at address `n`, below the block `p`.
abbrev pub tree_with : Tree → ℕ → ℕ → ℕ → Tree
tree_with t hash p n = record t {
  index = insert_block_only_by_hash t.index hash n;
  links = add_child t.links p (block n null null);
}

abbrev pub store_with : Store → ℕ → Store
store_with s hash = allocate s (record { hash = hash; nb = s.raw s.next; is_full_block = false })

-- The block hangs below its parent in the main chain, is found by its hash with the data that came with it,
-- and is the deepest of the chain if it is deeper than the one before. All else of the tree
-- is as it was.
pub record Extends (s s' : Store) (c c' : Chain) (hash p : ℕ) (nb : NetworkBlock) (depth : ℕ)
    : Type 0 where
  pub found :
      (q : ℕ)
      → find_block_by_hash c'.chain.index q
        ≡ (if q == hash then some s.next else find_block_by_hash c.chain.index q)
  pub placed : ancestors c'.chain.links s.next ≡ s.next ∷ ancestors c.chain.links p
  pub others : (q : ℕ) → s.next ≢ q → ancestors c'.chain.links q ≡ ancestors c.chain.links q
  pub stored : (s'.cell s.next).nb ≡ some nb
  pub kept : (q : ℕ) → s.next ≢ q → s'.cell q ≡ s.cell q
  pub deepest : c'.deepest ≡ (if ltb depth nb.depth then s.next else c.deepest)
  pub incomplete : c'.inchain ≡ c.inchain

module _ (s : Store) (c : Chain) (hash p x : ℕ) (up : List ℕ) (nb old : NetworkBlock)
    (is_new : find_block_by_hash c.chain.index hash ≡ none)
    (linked : ancestors c.chain.links p ≡ x ∷ up) (fresh : ancestors c.chain.links s.next ≡ [])
    (deepest_old : (s.cell c.deepest).nb ≡ some old) (deepest_ne : s.next ≢ c.deepest) where
  abbrev new_store : Store
  new_store = set_nb (store_with s hash) s.next nb

  abbrev new_tree : Tree
  new_tree = tree_with c.chain hash p s.next

  abbrev new_chain : Chain
  new_chain = record c {
    chain = new_tree;
    deepest = if ltb old.depth nb.depth then s.next else c.deepest;
  }

  found_new :
      (q : ℕ)
      → find_block_by_hash new_tree.index q
        ≡ (if q == hash then some s.next else find_block_by_hash c.chain.index q)
  found_new q = ground (
    arith,
    find-insert_block_only c.chain.index hash s.next q is_new,
    find_block_by_hash-single hash s.next q,
    is_new,
  )

  depth_new : depth_of new_store s.next ≡ some nb.depth
  unfolding depth_of set_nb allocate write
  depth_new = ground arith

  depth_deepest : depth_of new_store c.deepest ≡ some old.depth
  unfolding depth_of set_nb allocate write
  depth_deepest = ground arith

  max_depth_new : find_max_depth (depth_of new_store) new_tree.links s.next ≡ some s.next
  unfolding find_max_depth max_depth_loop
  max_depth_new = rw (children_of-add_child c.chain.links p s.next fresh linked)

  full_block_info :
      add_full_block_info (store_with s hash) (record c { chain = new_tree }) hash nb
      ≡ some (new_store, new_chain)
  unfolding add_full_block_info
  full_block_info = ground (arith, found_new hash, depth_new, depth_deepest, max_depth_new)

  new-Extends : Extends s new_store c new_chain hash p nb old.depth
  unfolding set_nb allocate write
  new-Extends = record {
    found = found_new;
    placed = ancestors-add_child_self c.chain.links p s.next fresh ∙ ground arith;
    others = λ q h. ancestors-add_child_ne c.chain.links p s.next q h;
    stored = ground arith;
    kept = λ q h. ground arith;
    deepest = refl;
    incomplete = refl;
  }

-- What the caller is told, and what becomes of the chain.
pub record Accepted (bc : Blockchain) (chain_id hash p : ℕ) (nb : NetworkBlock) (c : Chain)
    (depth : ℕ) (o : Outcome) : Type 0 where
  pub need_parent : o.need_parent ≡ false
  pub added : o.added ≡ true
  pub chain : Chain
  pub at : get_elem? o.state.chains chain_id ≡ some chain
  pub extends : Extends bc.store o.state.store c chain hash p nb depth

-- A new block whose parent `p` is in the main chain, with no incomplete chain waiting for it, is
-- added without a fault: no parent is asked for, it is found by its hash and hangs below its
-- parent with the data that came with it, it is the deepest of the chain if it is deeper than the
-- one before, and all other lookups, ways up and blocks are as they were. It is assumed that the
-- parent is in the child tree, that the address that the allocation returns is not in use there,
-- and that the deepest block has data.
pub add_received_block_extends :
    (bc : Blockchain) (chain_id parent hash p x : ℕ) (up : List ℕ) (nb old : NetworkBlock)
    (c : Chain)
    → get_elem? bc.chains chain_id ≡ some c
    → find_block_by_hash c.chain.index hash ≡ none
    → find_block_by_hash c.chain.index parent ≡ some p
    → is_incomplete_hash bc.store c.inchain hash ≡ none
    → ancestors c.chain.links p ≡ x ∷ up
    → ancestors c.chain.links bc.store.next ≡ []
    → (bc.store.cell c.deepest).nb ≡ some old
    → bc.store.next ≢ c.deepest
    → (o : Outcome) × (add_received_block bc chain_id parent hash nb ≡ some o)
      × Accepted bc chain_id hash p nb c old.depth o
unfolding add_received_block extend_chain put_chain received add_block_by_parent_hash
add_received_block_extends bc chain_id parent hash p x up nb old c e_c is_new e_p none_waits linked
      fresh deepest_old deepest_ne =
    let s = bc.store in
    let c' = new_chain s c hash p x up nb old is_new linked fresh deepest_old deepest_ne in
    let s' = new_store s c hash p x up nb old is_new linked fresh deepest_old deepest_ne in
    let r =
      add_received_non_full (store_with s hash) (tree_with c.chain hash p s.next) chain_id hash
        (received bc) in
    (
      record { state = put_chain bc chain_id s' c' r; need_parent = false; added = true },
      ground (
        arith,
        full_block_info s c hash p x up nb old is_new linked fresh deepest_old deepest_ne,
      ),
      record {
        need_parent = refl;
        added = refl;
        chain = c';
        at = get_elem?-set_self bc.chains chain_id c' (lt-of_get_elem? bc.chains chain_id e_c);
        extends = new-Extends s c hash p x up nb old is_new linked fresh deepest_old deepest_ne;
      },
    )

-- A block that is in the main chain changes nothing, whatever comes with it.
pub add_received_block_known :
    (bc : Blockchain) (chain_id parent hash b : ℕ) (nb : NetworkBlock) (c : Chain)
    → get_elem? bc.chains chain_id ≡ some c
    → find_block_by_hash c.chain.index hash ≡ some b
    → add_received_block bc chain_id parent hash nb
      ≡ some (record { state = bc; need_parent = false; added = false })
unfolding add_received_block
add_received_block_known bc chain_id parent hash b nb c e f = ground arith
