-- ===== src/Handler/Examples.antt =====
-- Witnesses for code/process_buffer.cpp: a node with two chains that knows a block of the second one
-- without its transactions, and a stream of two messages and a half.
use ohie.Base.{ℕ, suc, ◌≡◌, refl, List, [], ◌∷◌, ◌++◌, true, false, none, some, ◌==◌, if◌then◌else◌}
use ohie.Config.{Config}
use ohie.Config.Sample.{sample}
use ohie.StdMap.{lookup, assign, insert, erase, nat_order}
use ohie.Text.{Text, codes, text_eq}
use ohie.Blockchain.HashTree.{single, node, leaf, find_block_by_hash}
use ohie.Blockchain.Links.{null, block}
use ohie.Blockchain.State.{NetworkBlock, Block, Chain, set_nb, write}
use ohie.Requests.{Node}
use ohie.Requests.Payload.{FullBlock}
use ohie.Handler.State.{World, send}
use ohie.Handler.Full.{
  receive_full_block, check_full_block, verify_lines, lines_of, check_data, completed, make_full,
  store_data, read_lines,
}
use ohie.Handler.Full.Accepted.{Accepted, receive_full_block_accepts}
use ohie.Handler.Stream.{process_stream, complete}
use ohie.Handler.Stream.Frames.{wire, handler, process_stream-wire}
use ohie.Handler.Blocks.{have_full}
use ohie.Blockchain.Receive.{have_full_block}
use ohie.Miner.{verify_full_block}
use ohie.Verify.Hash.{get_chain_id_from_hash, string_to_blockhash, blockhash_to_string}
use ohie.Text.Number.{read_digits, digit_value, to_digits, digit_char}
use ohie.Verify.Merkle.{verify_merkle_proof, verify_loop}
use ohie.Blockchain.Full.{mark_full, receive_time, set_block_full}

-- Each message is put behind those before it.
process_stream-wire_example :
    process_stream
      (handler (λ m (s : List Text). s ++ m ∷ []))
      true
      (wire (codes "#ping,a" ∷ codes "#ask" ∷ []) ++ codes "#pin")
      []
    ≡ some (codes "#ping,a" ∷ codes "#ask" ∷ [], codes "#pin")
unfolding complete
process_stream-wire_example =
    process_stream-wire (λ m (s : List Text). s ++ m ∷ []) true
      (codes "#ping,a" ∷ codes "#ask" ∷ []) (codes "#pin") []
      (
        (refl, ((λ e. cc), ((λ e. cc), ((λ e. cc), ((λ e. cc), ((λ e. cc), ((λ e. cc), tt))))))),
        ((refl, ((λ e. cc), ((λ e. cc), ((λ e. cc), tt)))), tt),
      )
      ((refl, ((λ e. cc), ((λ e. cc), ((λ e. cc), tt)))), refl) (λ e. cc)

abbrev blank : ℕ → ℕ → NetworkBlock
blank hash depth = record {
  chain_id = 1;
  parent = 1;
  hash = hash;
  trailing = 0;
  trailing_id = 0;
  merkle_root_chains = [];
  merkle_root_txs = [];
  proof_new_chain = [];
  no_txs = 0;
  depth = depth;
  rank = depth;
  next_rank = suc depth;
  time_mined = 0;
  time_received = 0;
  time_commited = 0;
  time_partial = 0;
}

-- The roots at 0 and 1, and the block 170 at 2.
abbrev cells : ℕ → Block
cells a =
    if a == 2
    then record { hash = 170; nb = some (blank 170 1); is_full_block = false }
    else record { hash = a; nb = some (blank a 0); is_full_block = true }

abbrev first_chain : Chain
first_chain = record {
  chain = record { root = 0; index = single 0 0; links = block 0 null null };
  inchain = [];
  deepest = 0;
}

abbrev second_chain : Chain
second_chain = record {
  chain = record {
    root = 1;
    index = node leaf 1 1 (single 170 2);
    links = block 1 (block 2 null null) null;
  };
  inchain = [];
  deepest = 2;
}

abbrev before : World
before = record {
  blockchain = record {
    store = record { next = 3; cell = cells; raw = λ a. none };
    chains = first_chain ∷ second_chain ∷ [];
    received_non_full_blocks = (170, (1, 0)) ∷ [];
    waiting_for_full_blocks = (170, 10) ∷ [];
    mined_blocks = 0;
    processed_full_blocks = 0;
    total_received_blocks = 1;
    receiving_latency = 0;
    receving_total = 0;
    commited_latency = 0;
    commited_total = 0;
    partially_latency = 0;
    partially_total = 0;
  };
  server = record { my_ip = codes "10.0.0.1"; my_port = 8001; peers = []; speers = []; pings = [] };
  pool = record {
    aging_transactions = [];
    aged_transactions = [];
    next_seqs = [];
    pending_transactions = [];
    mempool = [];
    dependencies = [];
    promise_count = 0;
    last_promised = [];
  };
  held = [];
  files = [];
  sent = [];
  no_verified_transactions = 0;
  bytes_txs_received = 0;
}

abbrev config : Config
config = sample

abbrev toy_hash : Text → Text
toy_hash t = codes "00000000000000aa00000000000000000000000000000000000000000000000f" ++ t

abbrev this_node : Node
this_node = record { ip = codes "n1"; port = 8001 }

abbrev first_leaf : Text
first_leaf = codes "0000000000000000"

abbrev second_leaf : Text
second_leaf = codes "0000000000000001"

abbrev roots : Text
roots = toy_hash (first_leaf ++ second_leaf)

abbrev message : FullBlock
message = record {
  request = record { sender_ip = codes "10.0.0.2"; sender_port = 8002; chain_id = 1; hash = 170 };
  txs = [];
  trailing = 0;
  trailing_id = 0;
  merkle_root_chains = roots;
  merkle_root_txs = codes "7";
  proof_new_chain = second_leaf ∷ first_leaf ∷ roots ∷ [];
  time_mined = 5;
  sent_time = 6;
}

abbrev after : World
after = elim (receive_full_block config this_node toy_hash 9 message before) [
  | none ↦ before
  | some r ↦ r.0
]

receive_full_block_accepts_example : Accepted config this_node toy_hash 9 message before after
unfolding have_full have_full_block find_block_by_hash receive_full_block check_full_block
    verify_lines lines_of check_data completed make_full store_data read_lines verify_full_block
    get_chain_id_from_hash string_to_blockhash blockhash_to_string read_digits digit_value to_digits
    digit_char verify_merkle_proof verify_loop text_eq mark_full receive_time set_block_full set_nb
    write send lookup assign erase insert
receive_full_block_accepts_example =
    receive_full_block_accepts config this_node toy_hash 9 message before after false refl refl refl
