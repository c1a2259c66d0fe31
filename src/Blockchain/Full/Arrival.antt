-- ===== src/Blockchain/Full/Arrival.antt =====
-- code/Blockchain.cpp: `set_block_full`, the arrival of a full block.
use ohie.Base.{ℕ, ◌≡◌, ◌≢◌, none, some, is_some, arith, get_elem?, if◌then◌else◌, ◌==◌}
use ohie.StdMap.{lookup, nat_order, lookup-erase}
use ohie.Blockchain.HashTree.{find_block_by_hash}
use ohie.Blockchain.State.{Chain, Blockchain}
use ohie.Blockchain.Receive.{have_full_block}
use ohie.Blockchain.Full.{set_block_full, mark_full}

-- After `set_block_full` the block is full if it is in its chain, and the node neither asks nor
-- waits for it any more; what it asks and waits for otherwise, and the chains, are as before.
pub set_block_full_lem :
    (bc bc' : Blockchain) (chain_id hash now q : ℕ) (c : Chain)
    → get_elem? bc.chains chain_id ≡ some c
    → set_block_full bc chain_id hash now ≡ some bc'
    → (bc'.chains ≡ bc.chains)
      × (have_full_block bc'.store c.chain hash ≡ is_some (find_block_by_hash c.chain.index hash))
      × (lookup q bc'.received_non_full_blocks
          ≡ (if q == hash then none else lookup q bc.received_non_full_blocks))
      × (lookup q bc'.waiting_for_full_blocks
          ≡ (if q == hash then none else lookup q bc.waiting_for_full_blocks))
unfolding set_block_full mark_full have_full_block
set_block_full_lem bc bc' chain_id hash now q c e h = (
  ground arith,
  ground arith,
  ground (arith, lookup-erase q hash bc.received_non_full_blocks),
  ground (arith, lookup-erase q hash bc.waiting_for_full_blocks),
)

-- `set_block_full` leaves every block alone that is not the one that the chain has under the
-- hash.
pub set_block_full_others :
    (bc bc' : Blockchain) (chain_id hash now a : ℕ) (c : Chain)
    → get_elem? bc.chains chain_id ≡ some c
    → set_block_full bc chain_id hash now ≡ some bc'
    → find_block_by_hash c.chain.index hash ≢ some a
    → bc'.store.cell a ≡ bc.store.cell a
unfolding set_block_full mark_full
set_block_full_others bc bc' chain_id hash now a c e h f = ground arith
