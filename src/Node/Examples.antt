-- ===== src/Node/Examples.antt =====
-- Witnesses for code/node.cpp: a node with two chains that reads a message with a new block.
use ohie.Base.{ℕ, ◌≡◌, refl, [], ◌∷◌, none, some, false, get_elem?}
use ohie.Config.Sample.{sample}
use ohie.Text.{Text, codes, text_eq}
use ohie.Blockchain.HashTree.{find_block_by_hash, insert_block_only_by_hash}
use ohie.Blockchain.HashTree.Order.{IsOrdered}
use ohie.Blockchain.State.{
  NetworkBlock, Store, Chain, bootstrap_chain, depth_of, set_nb, write, allocate,
}
use ohie.Blockchain.Start.{new_blockchain, first_chains, first_network_block}
use ohie.Handler.State.{World, send, meet_peer}
use ohie.Handler.Stream.{
  Environment, process_buffer, process_stream, process_pieces, pieces, complete, handle_message,
  dispatch,
}
use ohie.Network.{Timers}
use ohie.Base.{true, Bool, List, not, ◌&&◌, ◌==◌, arith}
use ohie.Text.Split.{Without}
use ohie.Connection.Chunks.{
  Arrival, Arrives, messages_of, last_begun, receive_all, deliver, receive_all-wire,
}
use ohie.Server.Connect.{connect_to_peers}
use ohie.Node.{Life, begin, read, connect}
use ohie.Node.Ordered.{Life-IsOrdered}
use ohie.Text.Split.{split}
use ohie.Handler.Blocks.{handle_process_block, receive_block, announced_block}
use ohie.Requests.{parse__process_block, accept, key_present, create__process_block}
use ohie.StdMap.{lookup, assign, insert}
use ohie.Text.Order.{text_order, text_compare}
use ohie.Text.Number.{
  safe_stoi, safe_stoull, signed, skip_space, decimal, read_digits, digit_value, to_string,
  to_digits, digit_char,
}
use ohie.Blockchain.Receive.{
  add_received_block, extend_chain, add_full_block_info, put_chain, received, add_received_non_full,
  have_full_block,
}
use ohie.Blockchain.Incomplete.{is_incomplete_hash, add_block_by_parent_hash}
use ohie.Blockchain.Links.{find_max_depth, max_depth_loop, children_of, add_child, append_sibling}
use ohie.Server.{add_indirect_peer_if_doesnt_exist, peer_key, cut, add_peer}

abbrev blank : NetworkBlock
blank = record {
  chain_id = 0;
  parent = 0;
  hash = 0;
  trailing = 0;
  trailing_id = 0;
  merkle_root_chains = [];
  merkle_root_txs = [];
  proof_new_chain = [];
  no_txs = 0;
  depth = 0;
  rank = 0;
  next_rank = 0;
  time_mined = 0;
  time_received = 0;
  time_commited = 0;
  time_partial = 0;
}

abbrev memory : Store
memory = record {
  next = 0;
  cell = λ a. record { hash = 0; nb = none; is_full_block = false };
  raw = λ a. none;
}

abbrev fresh : ℕ → NetworkBlock
fresh a = blank

abbrev before : World
before = record {
  blockchain = new_blockchain fresh memory (10 ∷ 20 ∷ []);
  server = record { my_ip = codes "10.0.0.1"; my_port = 8001; peers = []; speers = []; pings = [] };
  pool = record {
    aging_transactions = [];
    aged_transactions = [];
    next_seqs = [];
    pending_transactions = [];
    mempool = [];
    dependencies = [];
    promise_count = 0;
    last_promised = [];
  };
  held = [];
  files = [];
  sent = [];
  no_verified_transactions = 0;
  bytes_txs_received = 0;
}

abbrev timers : Timers
timers = record {
  last_ask_for_incomplete = 0;
  last_ask_for_full = 0;
  last_update_commited = 0;
  next_ping = 0;
  no_pings = 0;
}

abbrev environment : Environment
environment = record {
  cfg = sample;
  node = record { ip = codes "n1"; port = 8001 };
  sha256 = λ t. t;
  get_ip = λ t. codes "10.0.0.2";
  atoi = λ t. 8002;
  mpl = 2;
  now = 50;
  clock = λ i. 50;
  blank = blank;
}

abbrev message : Text
message = codes "#process_block,n2,8002,1,20,15,0,1,1,2!"

abbrev after : World
after = elim (process_buffer environment message before) [ none ↦ before | some r ↦ r.0 ]

after_reading : Life fresh memory (10 ∷ 20 ∷ []) (after, timers)
unfolding process_buffer process_stream process_pieces pieces complete handle_message dispatch split
    text_eq handle_process_block receive_block announced_block send meet_peer parse__process_block
    accept key_present create__process_block lookup assign insert text_order text_compare safe_stoi
    safe_stoull signed skip_space decimal read_digits digit_value to_string to_digits digit_char
    add_received_block extend_chain add_full_block_info put_chain received add_received_non_full
    have_full_block find_block_by_hash insert_block_only_by_hash new_blockchain first_chains
    first_network_block bootstrap_chain depth_of set_nb write allocate is_incomplete_hash
    add_block_by_parent_hash find_max_depth max_depth_loop children_of add_child append_sibling
    add_indirect_peer_if_doesnt_exist peer_key cut add_peer
after_reading = read environment message [] (begin before timers refl) refl

-- A connection to the peer that sent the message is tried.
abbrev linked : World
linked = record after { server = (connect_to_peers (λ t. true) 10 100 0 after.server).0 }

Life-IsOrdered_example :
    (c : Chain) × (get_elem? linked.blockchain.chains 1 ≡ some c)
    × (a : ℕ) × IsOrdered c.chain.index
    × (find_block_by_hash c.chain.index 20 ≡ some a)
Life-IsOrdered_example =
    Life-IsOrdered fresh memory (10 ∷ 20 ∷ []) (linked, timers) 1 20
      (connect (λ t. true) 10 100 0 after_reading) refl

-- A text without a byte, tested.
abbrev lacks : ℕ → Text → Bool
lacks d [] = true
lacks d (c ∷ cs) = not (c == d) && lacks d cs

Without-lacks : (d : ℕ) (t : Text) → lacks d t ≡ true → Without d t
Without-lacks d [] h = tt
Without-lacks d (c ∷ cs) h = ((λ e. ground (arith, h, e)), Without-lacks d cs (ground (arith, h)))

-- The message in three reads, with the beginning of another one.
abbrev reads : List Text
reads = codes "#process_block,n2,80" ∷ codes "02,1,20,15,0,1" ∷ codes ",1,2!#pi" ∷ []

abbrev announced : Text
announced = codes "#process_block,n2,8002,1,20,15,0,1,1,2"

receive_all-wire_example :
    (brought : List Arrival) × Arrives [] reads brought
    × (messages_of brought ≡ announced ∷ [])
    × (last_begun [] brought ≡ codes "#pi")
    × (receive_all (process_buffer environment) reads (before, [])
        ≡ deliver environment [] brought ([], before))
receive_all-wire_example =
    receive_all-wire environment reads [] (announced ∷ []) (codes "#pi") before
      ((λ e. cc), ((λ e. cc), ((λ e. cc), tt)))
      (
        (
          (refl, Without-lacks b'#' (codes "process_block,n2,8002,1,20,15,0,1,1,2") refl),
          Without-lacks b'!' announced refl,
        ),
        tt,
      )
      ((refl, Without-lacks b'#' (codes "pi") refl), Without-lacks b'!' (codes "#pi") refl) tt refl
