-- ===== src/Handler/State.antt =====
-- code/process_buffer.cpp: the state of a node that a message can change, and what it sends. The
-- mutex of the blockchain is held while a buffer is processed, so each message is one step.
use ohie.Base.{ℕ, List, [], ◌∷◌, ◌++◌, Bool, Option}
use ohie.StdMap.{Entries}
use ohie.Text.{Text}
use ohie.Text.Order.{text_order}
use ohie.Blockchain.State.{Blockchain}
use ohie.Server.{Server, peer_key, add_indirect_peer_if_doesnt_exist}
use ohie.Transactions.State.{Pool}
use ohie.Transactions.Receive.{Mutex}

-- `write_to_all_peers`, `write_to_all_peers_except` and `write_to_one_peer`.
pub data Send : Type 0 where
  to_all_peers : Text → Send
  to_all_peers_except : Text → Text → ℕ → Send
  to_one_peer : Text → ℕ → Text → Send

-- `files` are the blocks in the folder of the server, by hash; `held` are the mutexes that were
-- left locked; `sent` is what was sent so far, in order.
pub record World : Type 0 where
  pub blockchain : Blockchain
  pub server : Server
  pub pool : Pool
  pub held : List Mutex
  pub files : Entries ℕ Text
  pub sent : List Send
  pub no_verified_transactions : ℕ
  pub bytes_txs_received : ℕ

unfoldable pub send : Send → World → World
send m w = record w { sent = w.sent ++ m ∷ [] }

unfoldable pub meet_peer : (Text → ℕ) → Text → ℕ → World → World
meet_peer atoi ip port w = record w {
  server = add_indirect_peer_if_doesnt_exist atoi w.server (peer_key ip port);
}

-- The state, the keys of the messages so far, and whether the loop over the messages ends here.
abbrev pub Handled : Type 0
Handled = Option (World × Entries Text ℕ × Bool)
