-- ===== src/Transactions/Create.antt =====
-- code/transactions.cpp: one round of `transaction_creator`, with what it draws and the times as arguments.
-- `none` is an exception, a division by 0, or an address that outgrows its size, to which the source adds zeros for ever.
use ohie.Base.{
  ℕ, ◌+◌, ◌-◌, ◌*◌, ◌%◌, List, [], ◌∷◌, ◌++◌, Bool, Option, none, some, ltb, ◌==◌, if◌then◌else◌,
  ◌>>=◌, length, replicate,
}
use ohie.Config.{Config}
use ohie.StdMap.{Entries, lookup, assign}
use ohie.Text.{Text}
use ohie.Text.Number.{to_string, to_digits}
use ohie.Text.Order.{text_order}
use ohie.Transactions.State.{Pool, colon, check_dependencies}
use ohie.Requests.{Node}
use ohie.Requests.Payload.{create__transactions}

-- `setfill('0') << setw(8) << hex`, for each number drawn.
unfoldable pub get_random_address : List ℕ → Text
get_random_address [] = []
get_random_address (r ∷ rs) =
    let digits = to_digits 16 8 r in
    (replicate (8 - length digits) b'0' ++ digits) ++ get_random_address rs

unfoldable pub get_random_from_address : Config → Node → ℕ → ℕ → Option Text
get_random_from_address cfg node clients_per_node random =
    let address = node.ip ++ to_string node.port ++ to_string (random % clients_per_node) in
    let size = cfg.address_size_in_dwords * 8 in
    if clients_per_node == 0
    then none
    else if ltb size (length address)
    then none
    else some (address ++ replicate (size - length address) b'0')

-- What is drawn for one transaction, and its time. `repeats`: a byzantine node uses the number again.
pub record Draw : Type 0 where
  pub client : ℕ
  pub words : List ℕ
  pub amount : ℕ
  pub time : ℕ
  pub repeats : Bool

abbrev pub next_new : Entries Text ℕ → Text → ℕ
next_new seqs from = elim (lookup from seqs) [ none ↦ 0 | some n ↦ n ]

-- `from:seq:to:amount:dependency:sign`, with 128 zeros for the signature.
unfoldable pub make_transaction : Text → ℕ → Text → ℕ → Text → Text
make_transaction from seq_n to amount dependency = colon from (
    colon (to_string seq_n)
      (colon to (colon (to_string amount) (colon dependency (replicate 128 b'0')))))

-- The tables, the sequence numbers of the creator, and the new transaction.
unfoldable pub create_transaction :
    Config → Node → ℕ → Draw → Pool → Entries Text ℕ → Option (Pool × Entries Text ℕ × Text)
create_transaction cfg node clients_per_node draw p seqs = do
  from ← get_random_from_address cfg node clients_per_node draw.client
  let seq_n = next_new seqs from
  let dependency = p.last_promised
  let full_tx = make_transaction from seq_n (get_random_address draw.words) draw.amount dependency
  let tx_key = colon from (to_string seq_n)
  let q = record p {
    aging_transactions =
        assign tx_key (record { full_tx = full_tx; time = draw.time }) p.aging_transactions;
  }
  c ← check_dependencies q from seq_n dependency
  let r = c.0
  let r' =
      if c.1
      then record r { mempool = r.mempool ++ full_tx ∷ [] }
      else record r { pending_transactions = assign tx_key full_tx r.pending_transactions }
  some (r', (if draw.repeats then seqs else assign from (seq_n + 1) seqs), full_tx)

unfoldable pub create_transactions :
    Config
    → Node
    → ℕ
    → List Draw
    → Pool
    → Entries Text ℕ
    → Option (Pool × Entries Text ℕ × List Text)
create_transactions cfg node clients_per_node [] p seqs = some (p, seqs, [])
create_transactions cfg node clients_per_node (draw ∷ draws) p seqs = do
  r ← create_transaction cfg node clients_per_node draw p seqs
  s ← create_transactions cfg node clients_per_node draws r.0 r.1
  some (s.0, s.1, r.2 ∷ s.2)

-- One round: the message goes to all peers.
unfoldable pub creator_round :
    Config → Node → ℕ → List Draw → Pool → Entries Text ℕ → Option (Pool × Entries Text ℕ × Text)
creator_round cfg node clients_per_node draws p seqs = do
  r ← create_transactions cfg node clients_per_node draws p seqs
  some (r.0, r.1, create__transactions node r.2)
