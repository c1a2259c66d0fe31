-- ===== src/Blockchain/Receive.antt =====
-- code/Blockchain.cpp: `add_received_block`, `add_block_by_parent_hash_and_chain_id` and what they
-- call. `none` is a fault: a chain number out of range, or a read through a `NULL` pointer.
pub mod Chains
pub mod Keeps
pub mod Again
mod Examples
pub mod Extend
pub mod Attach
use ohie.Base.{
  ℕ, ◌+◌, Bool, true, false, ◌&&◌, not, Option, none, some, is_some, ltb, if◌then◌else◌, ◌>>=◌,
  get_elem?, set,
}
use ohie.StdMap.{Entries, lookup, insert, nat_order}
use ohie.Blockchain.HashTree.{find_block_by_hash, insert_subtree_by_hash}
use ohie.Blockchain.Links.{Links, null, block, add_child, find_max_depth}
use ohie.Blockchain.State.{NetworkBlock, Store, Tree, Chain, Blockchain, set_nb, depth_of}
use ohie.Blockchain.Incomplete.{
  add_block_by_parent_hash, remove_one_chain, is_incomplete_hash, is_in_incomplete,
  find_incomplete_block, add_block_to_incomplete,
}

-- The block of the chain with that hash is marked full.
unfoldable pub have_full_block : Store → Tree → ℕ → Bool
have_full_block s t hash = elim (find_block_by_hash t.index hash) [
  | none ↦ false
  | some bz ↦ (s.cell bz).is_full_block
]

-- `received_non_full_blocks` and `total_received_blocks`.
pub record Received : Type 0 where
  pub non_full : Entries ℕ (ℕ × ℕ)
  pub total : ℕ

-- A hash that is new and not full is noted, with the time 0 of its last request.
unfoldable pub add_received_non_full : Store → Tree → ℕ → ℕ → Received → Received
unfolding have_full_block
add_received_non_full s t chain_id hash r =
    if not (is_some (lookup hash r.non_full)) && not (have_full_block s t hash)
    then record { non_full = insert hash (chain_id, 0) r.non_full; total = r.total + 1 }
    else r

-- A list of siblings: each block, then all below it. For a root the list has one block.
unfoldable pub add_subtree_to_received_non_full : Store → Tree → ℕ → Links → Received → Received
add_subtree_to_received_non_full s t chain_id null r = r
add_subtree_to_received_non_full s t chain_id (block b child sibling) r =
    add_subtree_to_received_non_full s t chain_id sibling (
      add_subtree_to_received_non_full s t chain_id child
        (add_received_non_full s t chain_id (s.cell b).hash r))

-- An incomplete chain, whose root is the block received, goes below its parent. `parent_block` is read before the merge.
unfoldable pub attach_incomplete : Store → Chain → ℕ → ℕ → ℕ → Received → Option (Chain × Received)
attach_incomplete s c chain_id parent_block bi r = do
  e ← get_elem? c.inchain bi
  let index' = insert_subtree_by_hash c.chain.index e.b.index
  let merged = record (c.chain) { index = index' }
  let r' = add_subtree_to_received_non_full s merged chain_id e.b.links r
  inchain' ← remove_one_chain c.inchain bi
  some (
    record c {
      chain = record merged { links = add_child c.chain.links parent_block e.b.links };
      inchain = inchain';
    },
    r',
  )

-- "Add full block info": the data of the block, and the deepest block of the chain.
unfoldable pub add_full_block_info : Store → Chain → ℕ → NetworkBlock → Option (Store × Chain)
unfolding set_nb
add_full_block_info s c hash nb = elim (find_block_by_hash c.chain.index hash) [
  | none ↦ some (s, c)
  | some bz ↦ do
    let s' = set_nb s bz nb
    old_depth ← depth_of s' c.deepest
    deep_last ← find_max_depth (depth_of s') c.chain.links bz
    last_depth ← depth_of s' deep_last
    some (s', record c { deepest = if ltb old_depth last_depth then deep_last else c.deepest })
]

-- The parent is in the main chain.
unfoldable pub extend_chain :
    Store → Chain → ℕ → ℕ → ℕ → ℕ → NetworkBlock → Received → Option (Store × Chain × Received)
extend_chain s c chain_id parent_block parent hash nb r =
    elim (is_incomplete_hash s c.inchain hash) [
      | some bi ↦ do
        a ← attach_incomplete s c chain_id parent_block bi r
        i ← add_full_block_info s a.0 hash nb
        some (i.0, i.1, a.1)
      | none ↦ do
        let (done, t, s') = add_block_by_parent_hash s c.chain parent hash
        let r' = add_received_non_full s' t chain_id hash r
        i ← add_full_block_info s' (record c { chain = t }) hash nb
        some (i.0, i.1, r')
    ]

-- The parent is not in the main chain: the block joins the incomplete chains, if it is not there.
unfoldable pub extend_incomplete_chain :
    Store → Chain → ℕ → ℕ → NetworkBlock → Option (Store × Chain × Bool)
extend_incomplete_chain s c parent hash nb =
    if is_in_incomplete s c.inchain parent hash then some (s, c, false) else do
      l ← add_block_to_incomplete s c.inchain parent hash
      let s' : Store = elim (find_incomplete_block l.0 hash) [
        | none ↦ l.1
        | some bz ↦ set_nb l.1 bz nb
      ]
      some (s', record c { inchain = l.0 }, true)

-- What `add_received_block` tells: the new state, "ask for the parent", and `added`.
pub record Outcome : Type 0 where
  pub state : Blockchain
  pub need_parent : Bool
  pub added : Bool

unfoldable pub received : Blockchain → Received
received bc = record { non_full = bc.received_non_full_blocks; total = bc.total_received_blocks }

-- The state with one chain, the store and the received hashes given anew.
unfoldable pub put_chain : Blockchain → ℕ → Store → Chain → Received → Blockchain
put_chain bc chain_id s c r = record bc {
  store = s;
  chains = set bc.chains chain_id c;
  received_non_full_blocks = r.non_full;
  total_received_blocks = r.total;
}

unfoldable pub add_received_block : Blockchain → ℕ → ℕ → ℕ → NetworkBlock → Option Outcome
unfolding received put_chain
add_received_block bc chain_id parent hash nb = do
  c ← get_elem? bc.chains chain_id
  elim (find_block_by_hash c.chain.index hash) [
    | some b ↦ some (record { state = bc; need_parent = false; added = false })
    | none ↦ elim (find_block_by_hash c.chain.index parent) [
      | some p ↦ do
        e ← extend_chain bc.store c chain_id p parent hash nb (received bc)
        some (record {
          state = put_chain bc chain_id e.0 e.1 e.2;
          need_parent = false;
          added = true;
        })
      | none ↦ do
        e ← extend_incomplete_chain bc.store c parent hash nb
        some (record {
          state = put_chain bc chain_id e.0 e.1 (received bc);
          need_parent = e.2;
          added = e.2;
        })
    ]
  ]

-- The miner's own block: it becomes the deepest of its chain whatever its depth.
unfoldable pub add_block_by_parent_hash_and_chain_id :
    Blockchain → ℕ → ℕ → ℕ → NetworkBlock → Option Blockchain
unfolding set_nb received put_chain
add_block_by_parent_hash_and_chain_id bc parent_hash new_block chain_id nb = do
  c ← get_elem? bc.chains chain_id
  let (done, t, s) = add_block_by_parent_hash bc.store c.chain parent_hash new_block
  some (elim (find_block_by_hash t.index new_block) [
    | none ↦ put_chain bc chain_id s (record c { chain = t }) (received bc)
    | some bz ↦
        put_chain bc chain_id (set_nb s bz nb) (record c { chain = t; deepest = bz }) (received bc)
  ])
