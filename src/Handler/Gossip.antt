-- ===== src/Handler/Gossip.antt =====
-- code/process_buffer.cpp: the message `transactions`.
use ohie.Base.{
  ℕ, suc, List, [], ◌∷◌, Bool, true, false, not, ◌&&◌, ◌||◌, none, some, if◌then◌else◌, ◌>>=◌,
  get_elem?,
}
use ohie.Config.{Config}
use ohie.StdMap.{Entries, nat_order}
use ohie.Text.{Text}
use ohie.Text.Number.{safe_stoi}
use ohie.Text.Order.{text_order}
use ohie.Transactions.State.{parse_transaction, sizes_ok}
use ohie.Transactions.Receive.{Mutex, add_transactions}
use ohie.Requests.{Node}
use ohie.Requests.Payload.{create__transactions, parse__transactions}
use ohie.Handler.State.{Send, World, Handled, send}

abbrev pub with_times : (ℕ → ℕ) → ℕ → List Text → List (Text × ℕ)
with_times clock i [] = []
with_times clock i (t ∷ ts) = (t, clock i) ∷ with_times clock (suc i) ts

abbrev is_empty : List Text → Bool
is_empty [] = true
is_empty (t ∷ ts) = false

-- A transaction whose fields have the right sizes takes all mutexes of the tables: it waits for ever
-- if one of them was left locked.
unfoldable pub is_blocked : Config → List Mutex → List Text → Bool
is_blocked cfg [] txs = false
is_blocked cfg (m ∷ ms) txs = takes_locks cfg txs
  where
    takes_locks : Config → List Text → Bool
    takes_locks cfg [] = false
    takes_locks cfg (t ∷ ts) =
        elim (parse_transaction t) [ none ↦ false | some f ↦ sizes_ok cfg f ] || takes_locks cfg ts

module _ (cfg : Config) (node : Node) (get_ip : Text → Text) (atoi : Text → ℕ) where
  -- The times at which the transactions are looked at are those of `clock`. The address of the
  -- sender is not resolved here.
  unfoldable pub handle_transactions : (ℕ → ℕ) → List Text → Entries Text ℕ → Bool → World → Handled
  handle_transactions clock sp passed is_last w = elim (parse__transactions sp) [
    | none ↦ some (w, passed, is_last)
    | some txs ↦ elim (is_blocked cfg w.held txs) [
      | true ↦ none
      | false ↦ do
        r ← add_transactions cfg w.pool (with_times clock 0 txs)
        ip ← get_elem? sp 1
        p ← get_elem? sp 2
        let (port, pr) = safe_stoi p true
        let w1 = record w { pool = r.0 }
        some (
          if pr && not (is_empty r.1)
              then send (Send.to_all_peers_except (create__transactions node r.1) ip port) w1
              else w1,
          passed,
          false,
        )
    ]
  ]
