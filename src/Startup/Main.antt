-- ===== src/Startup/Main.antt =====
-- code/node.cpp: `main`, up to the start of the threads. Printing and the folders that need not be
-- made are left out.
use ohie.Base.{ℕ, List, [], Bool, true, false, not, Option, none, some, ◌==◌, ◌>>=◌, if◌then◌else◌}
use ohie.Text.{Text, codes}
use ohie.Text.Order.{text_order}
use ohie.Config.Reader.{default_settings, value_of, set_configuration}
use ohie.Blockchain.State.{NetworkBlock, Store}
use ohie.Blockchain.Start.{new_blockchain}
use ohie.Transactions.State.{Pool, empty_dependency}
use ohie.Crypto.{sign_message, verify_message}
use ohie.Handler.State.{World}
use ohie.Network.{Timers, Run, file_lines}
use ohie.Connection.Accept.{load_peer_ips}
use ohie.Startup.{
  Machine, read_arguments, initial_hashes, tcp_server, get_server_folder, read_peers,
}
use ohie.Startup.Peers.{select_peers}

-- The tables of code/transactions.cpp.
abbrev pub no_transactions : Pool
no_transactions = record {
  aging_transactions = [];
  aged_transactions = [];
  next_seqs = [];
  pending_transactions = [];
  mempool = [];
  dependencies = [];
  promise_count = 0;
  last_promised = empty_dependency;
}

-- The node when its threads start: its state, its settings, and the addresses that may connect.
pub record Started : Type 0 where
  pub run : Run
  pub settings : List (Text × ℕ)
  pub hashes : List ℕ
  pub peer_ips : List Text

abbrev pub is_set : ℕ → Bool
is_set n = not (n == 0)

module _ (host : Machine) (settings : List (Text × ℕ)) where
  -- A message that the node signs must pass its own check.
  unfoldable pub signatures_work : Option Bool
  signatures_work = do
    sign ← value_of (codes "SIGN_TRANSACTIONS") settings
    verify ← value_of (codes "VERIFY_TRANSACTIONS") settings
    let some_test_string = codes "123"
    let signature =
        sign_message (is_set sign) (is_set verify) host.digest host.ecdsa_sign some_test_string
    some (
        verify_message (is_set sign) (is_set verify) host.digest host.strtol host.ecdsa_verify
          some_test_string signature)

  unfoldable pub allowed_ips : Option (List Text)
  allowed_ips = do
    reject ← value_of (codes "REJECT_CONNECTIONS_FROM_UNKNOWNS") settings
    some (
        if is_set reject
        then load_peer_ips host.trim (file_lines (host.file (codes "_peer_ip_allowed"))) []
        else [])

-- `none` is an exit, a fault, or a choice of peers that needs more random numbers than `draws`.
module _ (host : Machine) (fresh : ℕ → NetworkBlock) (memory : Store) (timers : Timers) where
  unfoldable pub main : List Text → ℕ → ℕ → List ℕ → Option Started
  main argv now random draws = do
    o ← read_arguments host argv
    settings ←
        set_configuration host.trim (file_lines (host.file (codes "_configuration")))
          default_settings
    chains ← value_of (codes "CHAINS") settings
    hashes ← initial_hashes chains
    ping_repeat ← value_of (codes "PING_REPEAT") settings
    ping_min_wait ← value_of (codes "PING_MIN_WAIT") settings
    ping_max_wait ← value_of (codes "PING_MAX_WAIT") settings
    server ← tcp_server ping_repeat ping_min_wait ping_max_wait now random timers o.ip o.port
    max_peers ← value_of (codes "MAX_PEERS") settings
    works ← signatures_work host settings
    elim (host.create_folder (get_server_folder server.0)) [
      | false ↦ none
      | true ↦ elim works [
        | false ↦ none
        | true ↦ (do
          let tmp = read_peers host o (file_lines (host.file o.file_peers))
          s ← select_peers o max_peers draws tmp server.0
          peer_ips ← allowed_ips host settings
          let w : World = record {
            blockchain = new_blockchain fresh memory hashes;
            server = s;
            pool = no_transactions;
            held = [];
            files = [];
            sent = [];
            no_verified_transactions = 0;
            bytes_txs_received = 0;
          }
          some (record {
            run = (w, server.1);
            settings = settings;
            hashes = hashes;
            peer_ips = peer_ips;
          }))
      ]
    ]
