-- ===== src/Blockchain/Start.antt =====
-- code/Blockchain.cpp: the constructor of `Blockchain`, and the accessors of its chains. `hashes` are the first
-- CHAINS entries of its argument.
use ohie.Base.{ℕ, List, [], ◌∷◌, true, Option, some, ◌>>=◌, get_elem?}
use ohie.Blockchain.HashTree.{find_block_by_hash}
use ohie.Blockchain.State.{
  NetworkBlock, Store, Incomplete, Chain, Blockchain, bootstrap_chain, write,
}
use ohie.Blockchain.Incomplete.{find_incomplete_block}

-- `new(network_block)` leaves the other fields as they are: `fresh` is what stands there.
unfoldable pub first_network_block : NetworkBlock → NetworkBlock
first_network_block fresh = record fresh {
  depth = 0;
  rank = 0;
  next_rank = 0;
  time_mined = 0;
  time_received = 1;
  time_commited = 1;
  time_partial = 1;
}

-- The loop over the chains: each has its first block, which is full and the deepest.
unfoldable pub first_chains : (ℕ → NetworkBlock) → Store → List ℕ → List Chain × Store
unfolding bootstrap_chain write first_network_block
first_chains fresh s [] = ([], s)
first_chains fresh s (h ∷ hs) =
    let (t, s1) = bootstrap_chain s h in
    let s2 =
      write s1 t.root (record {
        hash = h;
        nb = some (first_network_block (fresh t.root));
        is_full_block = true;
      }) in
    let (cs, s3) = first_chains fresh s2 hs in
    (record { chain = t; inchain = []; deepest = t.root } ∷ cs, s3)

unfoldable pub new_blockchain : (ℕ → NetworkBlock) → Store → List ℕ → Blockchain
new_blockchain fresh s hashes =
    let (cs, s') = first_chains fresh s hashes in
    record {
      store = s';
      chains = cs;
      received_non_full_blocks = [];
      waiting_for_full_blocks = [];
      mined_blocks = 0;
      processed_full_blocks = 0;
      total_received_blocks = 0;
      receiving_latency = 0;
      receving_total = 0;
      commited_latency = 0;
      commited_total = 0;
      partially_latency = 0;
      partially_total = 0;
    }

-- A pointer that is `NULL` is `none` inside; a chain number out of range is `none` outside.
unfoldable pub find_block_by_hash_and_chain_id : Blockchain → ℕ → ℕ → Option (Option ℕ)
find_block_by_hash_and_chain_id bc hash chain_id = do
  c ← get_elem? bc.chains chain_id
  some (find_block_by_hash c.chain.index hash)

unfoldable pub find_incomplete_block_by_hash_and_chain_id : Blockchain → ℕ → ℕ → Option (Option ℕ)
find_incomplete_block_by_hash_and_chain_id bc hash chain_id = do
  c ← get_elem? bc.chains chain_id
  some (find_incomplete_block c.inchain hash)

unfoldable pub get_incomplete_chain : Blockchain → ℕ → Option (List Incomplete)
get_incomplete_chain bc chain_id = do c ← get_elem? bc.chains chain_id; some c.inchain

unfoldable pub get_deepest_child_by_chain_id : Blockchain → ℕ → Option ℕ
get_deepest_child_by_chain_id bc chain_id = do c ← get_elem? bc.chains chain_id; some c.deepest
