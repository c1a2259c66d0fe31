-- ===== src/Blockchain/Reach.antt =====
-- code/Blockchain.cpp: the states that a blockchain goes through, from its constructor on.
pub mod Ordered
use ohie.Base.{
  map, ℕ, zero, suc, ◌≡◌, refl, sym, none, some, arith, Holds, Holds-bind, Holds-some, subst, List,
  [], ◌∷◌, get_elem?, Option-cases, inl, inr, some-inj,
}
use ohie.Config.{Config}
use ohie.Blockchain.HashTree.{
  HashTree, find_block_by_hash, insert_block_only_by_hash, insert_subtree_by_hash,
}
use ohie.Blockchain.HashTree.Order.{
  IsOrdered, insert_block_only-IsOrdered, insert_subtree-IsOrdered,
}
use ohie.Blockchain.State.{set_nb, NetworkBlock, Store, Chain, Blockchain, bootstrap_chain}
use ohie.Blockchain.Receive.{Outcome, add_received_block, add_block_by_parent_hash_and_chain_id}
use ohie.Blockchain.Receive.Chains.{
  AllChains, add_received_block-AllChains, add_block_by_parent_hash_and_chain_id-AllChains,
}
use ohie.Blockchain.Receive.Keeps.{Keeps, insert_block_only-Keeps, insert_subtree-Keeps}
use ohie.Blockchain.Full.{
  still_waiting_for_full_block, add_mined_block, get_incomplete_chain_hashes, remove_waiting_blocks,
  set_block_full, mark_full, scan_non_full, get_non_full_blocks,
}
use ohie.Miner.{set_full_flag}
use ohie.Blockchain.Commit.{update_blocks_commited_time}
use ohie.Blockchain.Start.{first_chains, new_blockchain}

-- A chain after the request for the parents of its incomplete chains.
abbrev pub asked : Config → Store → ℕ → Chain → Chain
asked cfg s now c = record c { inchain = (get_incomplete_chain_hashes cfg s now c.inchain).0 }

-- The calls that change a blockchain. The miner's block has a hash that its chain does not have.
pub data Reachable (fresh : ℕ → NetworkBlock) (s : Store) (hashes : List ℕ)
    : Blockchain → Type 0 where
  start : Reachable fresh s hashes (new_blockchain fresh s hashes)
  receive :
      {bc : Blockchain} (chain_id parent hash : ℕ) (nb : NetworkBlock) (o : Outcome)
      → Reachable fresh s hashes bc
      → add_received_block bc chain_id parent hash nb ≡ some o
      → Reachable fresh s hashes o.state
  mine :
      {bc bc' : Blockchain} (c : Chain) (chain_id parent hash : ℕ) (nb : NetworkBlock)
      → Reachable fresh s hashes bc
      → get_elem? bc.chains chain_id ≡ some c
      → find_block_by_hash c.chain.index hash ≡ none
      → add_block_by_parent_hash_and_chain_id bc parent hash chain_id nb ≡ some bc'
      → Reachable fresh s hashes bc'
  finish :
      {bc bc' : Blockchain} (chain_id hash now : ℕ)
      → Reachable fresh s hashes bc
      → set_block_full bc chain_id hash now ≡ some bc'
      → Reachable fresh s hashes bc'
  fill :
      {bc : Blockchain} (bz : ℕ) (nb : NetworkBlock)
      → Reachable fresh s hashes bc
      → Reachable fresh s hashes (record bc { store = set_nb bc.store bz nb })
  expect :
      {bc : Blockchain} (hash now : ℕ)
      → Reachable fresh s hashes bc
      → Reachable fresh s hashes (record bc {
        waiting_for_full_blocks =
            (still_waiting_for_full_block bc.waiting_for_full_blocks hash now).0;
      })
  forget :
      {bc : Blockchain} (cfg : Config) (now : ℕ)
      → Reachable fresh s hashes bc
      → Reachable fresh s hashes (record bc {
        waiting_for_full_blocks = remove_waiting_blocks cfg now bc.waiting_for_full_blocks;
      })
  flag :
      {bc bc' : Blockchain} (chain_id hash : ℕ)
      → Reachable fresh s hashes bc
      → set_full_flag bc chain_id hash ≡ some bc'
      → Reachable fresh s hashes bc'
  count :
      {bc : Blockchain}
      → Reachable fresh s hashes bc
      → Reachable fresh s hashes (add_mined_block bc)
  ask_parents :
      {bc : Blockchain} (cfg : Config) (now : ℕ)
      → Reachable fresh s hashes bc
      → Reachable fresh s hashes (record bc { chains = map (asked cfg bc.store now) bc.chains })
  ask :
      {bc bc' : Blockchain} (cfg : Config) (now : ℕ) (nfb : List (ℕ × ℕ))
      → Reachable fresh s hashes bc
      → get_non_full_blocks cfg bc now ≡ some (bc', nfb)
      → Reachable fresh s hashes bc'
  commit :
      {bc : Blockchain} (t_discard now : ℕ)
      → Reachable fresh s hashes bc
      → Reachable fresh s hashes (update_blocks_commited_time t_discard now bc).0
