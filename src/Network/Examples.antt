-- ===== src/Network/Examples.antt =====
-- Witnesses for code/MyServer.cpp: a node with one chain and one incomplete chain.
use ohie.Base.{ℕ, ◌≡◌, refl, [], ◌∷◌, none, some, true, false, arith, All}
use ohie.Config.{Config}
use ohie.Config.Sample.{sample}
use ohie.Text.{codes}
use ohie.Blockchain.HashTree.{single, node, leaf, find_block_by_hash}
use ohie.Blockchain.Full.{get_non_full_blocks, scan_non_full, block_status, with_missing}
use ohie.Blockchain.Commit.{update_blocks_commited_time, confirm_bar, settled}
use ohie.Blockchain.Links.{null, block, ancestors}
use ohie.Requests.{Node}
use ohie.Handler.State.{World}
use ohie.Network.{
  Periods, Timers, run_network, ask_incomplete_chains, ask_for_full, commit_blocks, update_commited,
  send_ping,
}
use ohie.Blockchain.State.{NetworkBlock, Chain, Blockchain}
use ohie.Network.Hashes.{climb, collect_hashes, new_hashes, IsKept, new_hashes-IsKept}
use ohie.Network.Round.{
  Outer, Round, save_hashes, print_blockchain, network_round, network_round_quiet,
}
use ohie.Server.Connect.{connect_to_peers, connect_loop}
use ohie.Blockchain.Totals.{specific_print_blockchain, count_chains}
use ohie.Blockchain.Links.{find_number_of_nodes}
use ohie.Blockchain.Incomplete.{find_number_of_incomplete_blocks}
use ohie.Network.Hashes.{store_hashes}
use ohie.Blockchain.State.{depth_of}
use ohie.Base.{◌+◌, ◌*◌, List}
use ohie.Handler.State.{send}
use ohie.Blockchain.Commit.{partial_phase, sweep_chains, sweep_path}

abbrev config : Config
config = record sample { chains = 1 }

abbrev periods : Periods
periods = record {
  ask_for_incomplete_each_milliseconds = 50;
  ask_for_full_blocks_each_milliseconds = 50;
  update_commited_time_each_milliseconds = 500;
  ping_repeat = 1000;
  ping_min_wait = 5;
  ping_max_wait = 10;
}

abbrev this_node : Node
this_node = record { ip = codes "n1"; port = 8001 }

-- The root is at 0, an incomplete chain with the blocks 30 and 40 at 1 and 2.
abbrev world : World
world = record {
  blockchain = record {
    store = record {
      next = 3;
      cell = λ a. record { hash = 10; nb = none; is_full_block = false };
      raw = λ a. none;
    };
    chains =
        record {
          chain = record { root = 0; index = single 10 0; links = block 0 null null };
          inchain =
              record {
                b = record {
                  root = 1;
                  index = node leaf 30 1 (single 40 2);
                  links = block 1 (block 2 null null) null;
                };
                last_asked = 0;
                no_asks = 0;
              }
              ∷ [];
          deepest = 0;
        }
        ∷ [];
    received_non_full_blocks = (10, (0, 0)) ∷ [];
    waiting_for_full_blocks = [];
    mined_blocks = 0;
    processed_full_blocks = 0;
    total_received_blocks = 1;
    receiving_latency = 0;
    receving_total = 0;
    commited_latency = 0;
    commited_total = 0;
    partially_latency = 0;
    partially_total = 0;
  };
  server = record { my_ip = codes "10.0.0.1"; my_port = 8001; peers = []; speers = []; pings = [] };
  pool = record {
    aging_transactions = [];
    aged_transactions = [];
    next_seqs = [];
    pending_transactions = [];
    mempool = [];
    dependencies = [];
    promise_count = 0;
    last_promised = [];
  };
  held = [];
  files = [];
  sent = [];
  no_verified_transactions = 0;
  bytes_txs_received = 0;
}

abbrev timers : Timers
timers = record {
  last_ask_for_incomplete = 0;
  last_ask_for_full = 0;
  last_update_commited = 0;
  next_ping = 0;
  no_pings = 0;
}

-- The root at depth 0, and a block at depth 1 below it.
abbrev data_of : ℕ → NetworkBlock
data_of depth = record {
  chain_id = 0;
  parent = 0;
  hash = depth;
  trailing = 0;
  trailing_id = 0;
  merkle_root_chains = [];
  merkle_root_txs = [];
  proof_new_chain = [];
  no_txs = 0;
  depth = depth;
  rank = 0;
  next_rank = 0;
  time_mined = 0;
  time_received = 0;
  time_commited = 0;
  time_partial = 0;
}

abbrev two_blocks : Chain
two_blocks = record {
  chain = record {
    root = 0;
    index = node leaf 0 0 (single 1 1);
    links = block 0 (block 1 null null) null;
  };
  inchain = [];
  deepest = 1;
}

abbrev stored : Blockchain
stored = record (world.blockchain) {
  store = record {
    next = 2;
    cell = λ a. record { hash = a; nb = some (data_of a); is_full_block = true };
    raw = λ a. none;
  };
  chains = two_blocks ∷ [];
}

new_hashes-IsKept_example : All (IsKept 1 1 2) ((1, 1) ∷ [])
unfolding new_hashes climb collect_hashes ancestors
new_hashes-IsKept_example =
    new_hashes-IsKept 0 1 1 2 2 stored two_blocks ((1, 1) ∷ []) refl (refl, (refl, tt))
      (omega arith, (omega arith, tt)) refl

-- The same with the data of its blocks, and a peer without a connection.
abbrev whole : World
whole = record world {
  blockchain = record (world.blockchain) {
    store = record {
      next = 3;
      cell = λ a. record { hash = 10 + 10 * a; nb = some (data_of a); is_full_block = false };
      raw = λ a. none;
    };
  };
}

abbrev outer : Outer
outer = record {
  connect_to_peers_milliseconds = 100;
  print_blockchain_each_milliseconds = 200;
  write_hash_to_hdd = true;
  store_hash_minus = 0;
  store_hash_freq = 1;
}

abbrev before : Round
before = record {
  run = (whole, timers);
  last_peer_connect = 0;
  last_print_blockchain = 0;
  printed = [];
  hash_files = [];
  next_hash_depth = 0;
}

abbrev after : Round × List ℕ
after = elim (network_round config periods outer this_node (λ t. true) 5000 3 before) [
  | none ↦ (before, [])
  | some q ↦ q
]

network_round_quiet_example :
    network_round config periods outer this_node
      (λ t. true)
      5040
      8
      (record (after.0) { run = (world, after.0.run.1) })
    ≡ some (record (after.0) { run = (world, after.0.run.1) }, [])
unfolding network_round print_blockchain save_hashes store_hashes new_hashes climb collect_hashes
    connect_to_peers connect_loop specific_print_blockchain count_chains find_number_of_nodes
    find_number_of_incomplete_blocks depth_of run_network ask_for_full get_non_full_blocks
    scan_non_full block_status ask_incomplete_chains with_missing find_block_by_hash update_commited
    commit_blocks update_blocks_commited_time confirm_bar settled ancestors send_ping send
    partial_phase sweep_chains sweep_path
network_round_quiet_example =
    network_round_quiet config periods outer this_node (λ t. true) 5000 5040 3 8 before after.0
      after.1 world refl refl refl refl refl refl (omega arith) (omega arith) (omega arith)
      (omega arith) (omega arith) (omega arith) (omega arith) (omega arith)
