-- ===== src/Blockchain/Receive/Examples.antt =====
-- Witnesses for code/Blockchain.cpp: a chain of two blocks, and an incomplete chain of two blocks whose
-- root arrives.
use ohie.Base.{ℕ, suc, ◌≡◌, refl, [], ◌∷◌, true, false, none, some, ◌==◌, if◌then◌else◌, arith}
use ohie.Blockchain.HashTree.{leaf, node, single, find_block_by_hash}
use ohie.Blockchain.Links.{
  null, block, find_max_depth, max_depth_loop, children_of, add_child, append_sibling,
}
use ohie.Blockchain.State.{
  NetworkBlock, Block, Incomplete, Chain, Blockchain, set_nb, write, depth_of,
}
use ohie.Blockchain.Incomplete.{is_incomplete_hash}
use ohie.Blockchain.Receive.{Outcome, add_received_block}
use ohie.Blockchain.Receive.Attach.{Joined, add_received_block_attaches}

abbrev data_of : ℕ → ℕ → ℕ → NetworkBlock
data_of hash parent depth = record {
  chain_id = 0;
  parent = parent;
  hash = hash;
  trailing = 0;
  trailing_id = 0;
  merkle_root_chains = [];
  merkle_root_txs = [];
  proof_new_chain = [];
  no_txs = 0;
  depth = depth;
  rank = depth;
  next_rank = suc depth;
  time_mined = 5;
  time_received = 0;
  time_commited = 0;
  time_partial = 0;
}

-- The blocks 100 and 200 at 0 and 1, and the blocks 300, of which no data came, and 400 at 2 and 3.
abbrev cells : ℕ → Block
cells a =
    if a == 0
    then record { hash = 100; nb = some (data_of 100 0 0); is_full_block = true }
    else if a == 1
    then record { hash = 200; nb = some (data_of 200 100 1); is_full_block = false }
    else if a == 2
    then record { hash = 300; nb = none; is_full_block = false }
    else record { hash = 400; nb = some (data_of 400 300 3); is_full_block = false }

abbrev waiting : Incomplete
waiting = record {
  b = record {
    root = 2;
    index = node leaf 300 2 (single 400 3);
    links = block 2 (block 3 null null) null;
  };
  last_asked = 0;
  no_asks = 0;
}

abbrev chain : Chain
chain = record {
  chain = record {
    root = 0;
    index = node leaf 100 0 (single 200 1);
    links = block 0 (block 1 null null) null;
  };
  inchain = waiting ∷ [];
  deepest = 1;
}

abbrev blockchain : Blockchain
blockchain = record {
  store = record { next = 4; cell = cells; raw = λ a. none };
  chains = chain ∷ [];
  received_non_full_blocks = (200, (0, 0)) ∷ [];
  waiting_for_full_blocks = [];
  mined_blocks = 0;
  processed_full_blocks = 0;
  total_received_blocks = 1;
  receiving_latency = 0;
  receving_total = 0;
  commited_latency = 0;
  commited_total = 0;
  partially_latency = 0;
  partially_total = 0;
}

add_received_block_attaches_example :
    (o : Outcome) × (add_received_block blockchain 0 200 300 (data_of 300 200 2) ≡ some o)
    × Joined blockchain 0 1 0 2 (data_of 300 200 2) chain waiting 3 o
unfolding find_block_by_hash is_incomplete_hash find_max_depth max_depth_loop children_of add_child
    append_sibling set_nb write depth_of
add_received_block_attaches_example =
    add_received_block_attaches blockchain 0 200 300 1 0 2 (data_of 300 200 2) chain waiting 1 3 3
      refl refl refl refl refl (tt, (tt, omega arith, tt), tt, (tt, tt, tt, tt)) refl refl refl refl
