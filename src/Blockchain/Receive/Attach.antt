-- ===== src/Blockchain/Receive/Attach.antt =====
-- code/Blockchain.cpp: `add_received_block` of a block whose parent is in the main chain, and for which
-- an incomplete chain waits: the whole chain goes below the parent.
use ohie.Base.{
  ℕ, zero, suc, ◌≡◌, ◌∙◌, refl, true, false, List, [], ◌∷◌, none, some, arith, if◌then◌else◌, ltb,
  get_elem?, lt-of_get_elem?, get_elem?-set_self,
}
use ohie.Blockchain.HashTree.{find_block_by_hash, insert_subtree_by_hash}
use ohie.Blockchain.HashTree.Lookup.{or_else}
use ohie.Blockchain.HashTree.Merge.{find-insert_subtree}
use ohie.Blockchain.HashTree.Order.{IsOrdered}
use ohie.Blockchain.Links.{Links, add_child, ancestors, find_max_depth}
use ohie.Blockchain.Links.Attach.{onto, ancestors-add_child_tree, ancestors-add_child_tree_ne}
use ohie.Blockchain.State.{
  NetworkBlock, Store, Tree, Incomplete, Chain, Blockchain, write, set_nb, depth_of,
}
use ohie.Blockchain.Incomplete.{is_incomplete_hash, remove_one_chain}
use ohie.Blockchain.Receive.{
  Outcome, add_received_block, add_full_block_info, attach_incomplete, extend_chain, put_chain,
  received, add_subtree_to_received_non_full,
}

-- An entry of the list can be removed.
remove_one_chain-runs :
    (l : List Incomplete) (i : ℕ) {e : Incomplete}
    → get_elem? l i ≡ some e
    → (l' : List Incomplete) × (remove_one_chain l i ≡ some l')
unfolding remove_one_chain
remove_one_chain-runs [] i h = cc
remove_one_chain-runs (x ∷ l) zero h = (l, refl)
remove_one_chain-runs (x ∷ l) (suc i) h =
    let (l', k) = remove_one_chain-runs l i h in (x ∷ l', rw (k, remove_one_chain) refl)

set_nb_self : (s : Store) (a : ℕ) (nb : NetworkBlock) → ((set_nb s a nb).cell a).nb ≡ some nb
unfolding set_nb write
set_nb_self s a nb = ground arith

-- The main chain finds the blocks of both, the way up of each block of the incomplete chain goes on with the
-- parent's, the received block has its data, and the incomplete chain is gone.
pub record Attaches (s s' : Store) (c c' : Chain) (e : Incomplete) (p bi bz : ℕ) (nb : NetworkBlock)
    (deepest : ℕ) : Type 0 where
  pub found :
      (q : ℕ)
      → find_block_by_hash c'.chain.index q
        ≡ or_else (find_block_by_hash c.chain.index q) (find_block_by_hash e.b.index q)
  pub placed :
      (q : ℕ)
      → ancestors c.chain.links q ≡ []
      → ancestors c'.chain.links q ≡ onto (ancestors e.b.links q) (ancestors c.chain.links p)
  pub others :
      (q : ℕ) → ancestors e.b.links q ≡ [] → ancestors c'.chain.links q ≡ ancestors c.chain.links q
  pub stored : (s'.cell bz).nb ≡ some nb
  pub deepest_is : c'.deepest ≡ deepest
  pub gone : remove_one_chain c.inchain bi ≡ some c'.inchain

-- What the caller is told, and what becomes of the chain.
pub record Joined (bc : Blockchain) (chain_id p bi bz : ℕ) (nb : NetworkBlock) (c : Chain)
    (e : Incomplete) (deepest : ℕ) (o : Outcome) : Type 0 where
  pub need_parent : o.need_parent ≡ false
  pub added : o.added ≡ true
  pub chain : Chain
  pub at : get_elem? o.state.chains chain_id ≡ some chain
  pub attaches : Attaches bc.store o.state.store c chain e p bi bz nb deepest

module _ (bc : Blockchain) (chain_id parent hash p bi bz : ℕ) (nb : NetworkBlock) (c : Chain)
    (e : Incomplete) (old last deep : ℕ) where
  abbrev joined_links : Links
  joined_links = add_child c.chain.links p e.b.links

  abbrev data_store : Store
  data_store = set_nb bc.store bz nb

  abbrev joined_tree : Tree
  joined_tree = record (c.chain) {
    index = insert_subtree_by_hash c.chain.index e.b.index;
    links = joined_links;
  }

  abbrev joined_chain : List Incomplete → Chain
  joined_chain l' = record c {
    chain = joined_tree;
    inchain = l';
    deepest = if ltb old last then deep else c.deepest;
  }

  -- A block whose parent `p` is in the main chain, and for which an incomplete chain waits, is
  -- added without a fault: no parent is asked for, the main chain finds its blocks and those of
  -- the incomplete chain, the way up of a block that was not in the main chain is that in the
  -- incomplete chain and then the parent's, all other ways up stay, the data that came is that of
  -- the block, the deepest block is the one that `find_max_depth` gives if it is deeper than the
  -- one before, and the incomplete chain is gone from its list. It is assumed that the search
  -- tree of the incomplete chain is in order and finds the block, and that the depths from the
  -- block downwards, and of the deepest block before, can be read once the data is there.
  pub add_received_block_attaches :
      get_elem? bc.chains chain_id ≡ some c
      → find_block_by_hash c.chain.index hash ≡ none
      → find_block_by_hash c.chain.index parent ≡ some p
      → is_incomplete_hash bc.store c.inchain hash ≡ some bi
      → get_elem? c.inchain bi ≡ some e
      → IsOrdered e.b.index
      → find_block_by_hash e.b.index hash ≡ some bz
      → depth_of (set_nb bc.store bz nb) c.deepest ≡ some old
      → find_max_depth (depth_of (set_nb bc.store bz nb)) (add_child c.chain.links p e.b.links) bz
        ≡ some deep
      → depth_of (set_nb bc.store bz nb) deep ≡ some last
      → (o : Outcome) × (add_received_block bc chain_id parent hash nb ≡ some o)
        × Joined bc chain_id p bi bz nb c e (if ltb old last then deep else c.deepest) o
  unfolding add_received_block extend_chain put_chain received attach_incomplete add_full_block_info
  add_received_block_attaches e_c is_new e_p waits e_e ordered e_b d_old d_deep d_last =
      let (l', gone) = remove_one_chain-runs c.inchain bi e_e in
      let look : (q : ℕ)
          → find_block_by_hash joined_tree.index q
            ≡ or_else (find_block_by_hash c.chain.index q) (find_block_by_hash e.b.index q) =
        λ q. find-insert_subtree c.chain.index e.b.index q ordered in
      let at_hash : find_block_by_hash joined_tree.index hash ≡ some bz =
        look hash ∙ rw (is_new, e_b) refl in
      let r =
        add_subtree_to_received_non_full bc.store
          (record (c.chain) { index = insert_subtree_by_hash c.chain.index e.b.index }) chain_id
          e.b.links (received bc) in
      (
        record {
          state = put_chain bc chain_id data_store (joined_chain l') r;
          need_parent = false;
          added = true;
        },
        ground (arith, gone, at_hash, e_c, is_new, e_p, waits, e_e, d_old, d_deep, d_last),
        record {
          need_parent = refl;
          added = refl;
          chain = joined_chain l';
          at =
              get_elem?-set_self bc.chains chain_id (joined_chain l')
                (lt-of_get_elem? bc.chains chain_id e_c);
          attaches = record {
            found = look;
            placed = λ q h. ancestors-add_child_tree c.chain.links e.b.links p q h;
            others = λ q h. ancestors-add_child_tree_ne c.chain.links e.b.links p q h;
            stored = set_nb_self bc.store bz nb;
            deepest_is = refl;
            gone = gone;
          };
        },
      )
