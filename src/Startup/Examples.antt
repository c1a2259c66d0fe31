-- ===== src/Startup/Examples.antt =====
-- Witnesses for code/node.cpp: a node with two chains, whose file of peers names another node and, by its
-- name, the node itself.
use ohie.Base.{
  ℕ, ◌≡◌, refl, List, [], ◌∷◌, ◌++◌, true, false, none, some, if◌then◌else◌, get_elem?, ◌≤◌, ◌*◌,
  arith,
}
use ohie.StdMap.{lookup, assign, insert}
use ohie.Text.{Text, codes, text_eq}
use ohie.Text.Number.{
  safe_stoull, signed, skip_space, decimal, read_digits, digit_value, to_string, to_digits,
  digit_char,
}
use ohie.Text.Order.{text_order, text_compare}
use ohie.Text.Split.{split}
use ohie.Config.Reader.{
  set_configuration, set_tokens, assign_variable, is_known, set_value, value_of,
}
use ohie.Blockchain.State.{NetworkBlock, Store}
use ohie.Server.{Peer, Server, add_peer, peer_key, cut}
use ohie.Server.Peers.{PeersOk}
use ohie.Crypto.{sign_message, verify_message}
use ohie.Network.{Timers, file_lines}
use ohie.Node.{Life}
use ohie.Handler.State.{World}
use ohie.Blockchain.Start.{new_blockchain}
use ohie.Transactions.State.{contains_text}
use ohie.Connection.Accept.{load_peer_ips, add_peers_ip}
use ohie.Startup.{
  Machine, Options, read_arguments, set_public_ip, read_number_of_peers, set_private_ip,
  has_four_parts, count_up, initial_hashes, tcp_server, get_server_folder, read_peers, read_peer,
}
use ohie.Startup.Peers.{is_self, erase_at, is_done, select_peers}
use ohie.Startup.Selection.{Chosen, select_peers-Chosen, select_peers_stuck}
use ohie.Startup.Main.{Started, main, signatures_work, allowed_ips, no_transactions}
use ohie.Startup.Start.{main-Life}

abbrev blank : NetworkBlock
blank = record {
  chain_id = 0;
  parent = 0;
  hash = 0;
  trailing = 0;
  trailing_id = 0;
  merkle_root_chains = [];
  merkle_root_txs = [];
  proof_new_chain = [];
  no_txs = 0;
  depth = 0;
  rank = 0;
  next_rank = 0;
  time_mined = 0;
  time_received = 0;
  time_commited = 0;
  time_partial = 0;
}

abbrev fresh : ℕ → NetworkBlock
fresh a = blank

abbrev memory : Store
memory = record {
  next = 0;
  cell = λ a. record { hash = 0; nb = none; is_full_block = false };
  raw = λ a. none;
}

abbrev timers : Timers
timers = record {
  last_ask_for_incomplete = 0;
  last_ask_for_full = 0;
  last_update_commited = 0;
  next_ping = 0;
  no_pings = 0;
}

abbrev files : Text → Text
files name =
    if text_eq name (codes "peers")
    then codes "10.0.0.2:8002"
    else if text_eq name (codes "_configuration")
    then codes "CHAINS=2"
    else codes "10.0.0.2"

abbrev host : Machine
host = record {
  local_ip = codes "10.0.0.1";
  atoi = λ t. read_digits 10 0 t;
  stoi = λ t. some 0;
  strtol = λ t. 0;
  trim = λ t. t;
  get_ip = λ t. t;
  file = files;
  create_folder = λ t. true;
  digest = λ t. [];
  ecdsa_sign = λ t. [];
  ecdsa_verify = λ t s. true;
}

abbrev argv : List Text
argv = codes "node" ∷ codes "8001" ∷ codes "peers" ∷ []

abbrev nothing : World
nothing = record {
  blockchain = new_blockchain fresh memory [];
  server = record { my_ip = []; my_port = 0; peers = []; speers = []; pings = [] };
  pool = no_transactions;
  held = [];
  files = [];
  sent = [];
  no_verified_transactions = 0;
  bytes_txs_received = 0;
}

abbrev started : Started
started = elim (main host fresh memory timers argv 1000 7 (3 ∷ [])) [
  | some st ↦ st
  | none ↦ record { run = (nothing, timers); settings = []; hashes = []; peer_ips = [] }
]

main-Life_example :
    Life fresh memory started.hashes started.run
    × PeersOk started.run.0.server
    × (2 ≤ 8 * 1024)
    × (get_elem? started.hashes 1 ≡ some 1)
unfolding main read_arguments set_public_ip read_number_of_peers set_private_ip has_four_parts
    count_up initial_hashes tcp_server get_server_folder read_peers read_peer is_self erase_at
    is_done select_peers signatures_work allowed_ips load_peer_ips add_peers_ip contains_text
    file_lines sign_message verify_message set_configuration set_tokens assign_variable is_known
    set_value value_of split text_eq safe_stoull signed skip_space decimal read_digits digit_value
    to_string to_digits digit_char cut add_peer peer_key lookup assign insert text_order
    text_compare
main-Life_example =
    main-Life host fresh memory timers argv 1000 7 (3 ∷ []) started 2 1 refl refl (omega arith)

-- Two other nodes, one of them in the table already.
abbrev options : Options
options = record {
  ip = codes "10.0.0.1";
  port = 8001;
  file_peers = codes "peers";
  my_ip_or_hostname = codes "10.0.0.1";
  private_ip = [];
}

abbrev server : Server
server = record { my_ip = codes "10.0.0.1"; my_port = 8001; peers = []; speers = []; pings = [] }

abbrev peer : ℕ → Peer
peer n = record { ip = codes "10.0.0." ++ n ∷ []; port = 8001; connected = false; is_open = false }

select_peers-Chosen_example :
    (s' : Server) × (select_peers options 4 (5 ∷ 7 ∷ []) (peer b'2' ∷ peer b'3' ∷ []) server
      ≡ some s')
    × Chosen 4 (peer b'2' ∷ peer b'3' ∷ []) s'
unfolding is_self text_eq
select_peers-Chosen_example =
    select_peers-Chosen options 4 (5 ∷ 7 ∷ []) (peer b'2' ∷ peer b'3' ∷ []) server
      (refl, (refl, tt)) (omega arith)

-- A line with another name for this node leaves an entry for the node itself.
select_peers_stuck_example : select_peers options 4 (5 ∷ 7 ∷ 9 ∷ []) (peer b'1' ∷ []) server ≡ none
unfolding is_self text_eq is_done
select_peers_stuck_example =
    select_peers_stuck options 4 (5 ∷ 7 ∷ 9 ∷ []) (peer b'1' ∷ []) server (refl, tt) refl
