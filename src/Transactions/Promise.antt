-- ===== src/Transactions/Promise.antt =====
-- code/transactions.cpp: promises, by age or by commit, what they set free, and the miner's share of
-- the mempool.
use ohie.Base.{
  ℕ, suc, ◌+◌, ◌%◌, ◌^◌, List, [], ◌∷◌, ◌++◌, Bool, true, false, Option, none, some, ltb, ◌==◌,
  if◌then◌else◌, ◌>>=◌, get_elem?, length,
}
use ohie.Config.{Config}
use ohie.StdMap.{Entries, lookup, erase}
use ohie.Text.{Text, text_eq}
use ohie.Text.Number.{to_string}
use ohie.Text.Split.{split}
use ohie.Text.Order.{text_order}
use ohie.Transactions.State.{
  AgingInfo, AgedInfo, Pool, colon, stoull, get_next_seq, update_next_seq, is_promised,
  check_dependencies, dependents, clear_dependencies, get_transaction_key,
}

-- `s[4] + ":" + s[5]` of a stored transaction.
unfoldable pub dependency_of : Text → Option Text
dependency_of tx = do let s = split tx b':'; a ← get_elem? s 4; b ← get_elem? s 5; some (colon a b)

-- A pending transaction goes to the mempool if the check for `from` and `seq_n` passes.
unfoldable pub release : Pool → Text → Text → ℕ → Text → Option Pool
release p from tx_key seq_n tx = do
  dependency ← dependency_of tx
  c ← check_dependencies p from seq_n dependency
  let q = c.0
  some (
      if c.1
      then record q {
        mempool = q.mempool ++ tx ∷ [];
        pending_transactions = erase tx_key q.pending_transactions;
      }
      else q)

-- The loop over the explicit dependents. The check is made with the sender and the next sequence
-- number of the transaction that was promised, as the source does.
unfoldable pub release_dependents : Pool → Text → ℕ → Text → List Text → Option Pool
release_dependents p from next_seq next_tx_key [] = some p
release_dependents p from next_seq next_tx_key (tx_key ∷ ks) =
    if text_eq tx_key next_tx_key
    then release_dependents p from next_seq next_tx_key ks
    else elim (lookup tx_key p.pending_transactions) [
      | none ↦ release_dependents p from next_seq next_tx_key ks
      | some tx ↦ do
        q ← release p from tx_key next_seq tx
        release_dependents q from next_seq next_tx_key ks
    ]

-- The next transaction of the same sender, if it is pending.
unfoldable pub release_next : Pool → Text → ℕ → Text → Option Pool
release_next p from next_seq next_tx_key = elim (lookup next_tx_key p.pending_transactions) [
  | none ↦ some p
  | some t ↦ release p from next_tx_key next_seq t
]

unfoldable pub notify_dependencies : Pool → Text → Text → Option Pool
notify_dependencies p from seq = do
  let tx = colon from seq
  let next_seq = get_next_seq p from
  let next_tx_key = colon from (to_string next_seq)
  q ← release_next p from next_seq next_tx_key
  r ← release_dependents q from next_seq next_tx_key (dependents q tx)
  some (clear_dependencies r tx)

-- The log of promises in a file is off (`SAVE_TRANSACTIONS` is false).
unfoldable pub promise_transaction : Pool → Text → ℕ → Option Pool
promise_transaction p from seq_n = do
  let seq = to_string seq_n
  let q = if seq_n == get_next_seq p from then update_next_seq p from else p
  r ← notify_dependencies q from seq
  some (record r { promise_count = suc r.promise_count; last_promised = colon from seq })

-- One entry of the aging table: kept, or promised and dropped. `now - time > AT` is written without
-- the subtraction.
unfoldable pub age_transaction : Config → Pool → AgingInfo → ℕ → Option (Pool × Bool)
age_transaction cfg p info now = do
  let s = split info.full_tx b':'
  from ← get_elem? s 0
  seq ← get_elem? s 1
  seq_n ← stoull seq
  dependency ← dependency_of info.full_tx
  if ltb (info.time + cfg.at) now
      then (do
        c ← check_dependencies p from seq_n dependency
        if c.1
            then (do q ← promise_transaction c.0 from seq_n; some (q, false))
            else some (c.0, true))
      else some (p, true)

-- One round of `aging_monitor`, in the order of the keys, `clock i` the time of the i-th entry; the
-- state, and the entries that are left.
unfoldable pub aging_loop :
    Config → (ℕ → ℕ) → ℕ → Entries Text AgingInfo → Pool → Option (Pool × Entries Text AgingInfo)
aging_loop cfg clock i [] p = some (p, [])
aging_loop cfg clock i ((key, info) ∷ rest) p = do
  r ← age_transaction cfg p info (clock i)
  l ← aging_loop cfg clock (suc i) rest r.0
  some (l.0, if r.1 then (key, info) ∷ l.1 else l.1)

unfoldable pub aging_round : Config → (ℕ → ℕ) → Pool → Option Pool
aging_round cfg clock p = do
  r ← aging_loop cfg clock 0 p.aging_transactions p
  some (record (r.0) { aging_transactions = r.1 })

-- One line of the file of a committed block. Its age only feeds the average.
unfoldable pub commit_transaction : Pool → Text → Option Pool
commit_transaction p tx = do
  tx_key ← get_transaction_key tx
  promised ← is_promised p tx_key
  if promised then some p else (do
    let aged' : Entries Text AgedInfo = elim (lookup tx_key p.aged_transactions) [
      | none ↦ p.aged_transactions
      | some a ↦
          if text_eq a.full_tx tx then erase tx_key p.aged_transactions else p.aged_transactions
    ]
    let s = split tx_key b':'
    from ← get_elem? s 0
    seq ← get_elem? s 1
    seq_n ← stoull seq
    promise_transaction (record p { aged_transactions = aged' }) from seq_n)

-- The lines of the block's file, in order.
unfoldable pub commit_block : Pool → List Text → Option Pool
commit_block p [] = some p
commit_block p (tx ∷ txs) = do q ← commit_transaction p tx; commit_block q txs

-- One try of `get_one_transaction`: an empty text where there was none.
unfoldable pub pop_front : Pool → Text × Pool
pop_front p = elim p.mempool [ [] ↦ ([], p) | ◌∷◌ tx txs ↦ (tx, record p { mempool = txs }) ]

-- The loops of `create_transaction_block` and `get_one_transaction`: transactions from the front of
-- the mempool until their sizes, a `uint32_t`, reach BLOCK_SIZE_IN_BYTES. Before each try the other
-- threads work on the tables: `turns` says what they do. `none`: the miner still waits after the last turn.
unfoldable pub take_transactions : ℕ → List (Pool → Pool) → ℕ → Pool → Option (List Text × Pool)
take_transactions size [] l p = if ltb l size then none else some ([], p)
take_transactions size (turn ∷ turns) l p = elim (ltb l size) [
  | false ↦ some ([], p)
  | true ↦
      let (tx, q) = pop_front (turn p) in
      elim tx [
        | [] ↦ take_transactions size turns l q
        | ◌∷◌ c cs ↦ (do
          r ← take_transactions size turns ((l + length (c ∷ cs)) % 2 ^ 32) q
          some ((c ∷ cs) ∷ r.0, r.1))
      ]
]

unfoldable pub create_transaction_block :
    Config → List (Pool → Pool) → Pool → Option (List Text × Pool)
create_transaction_block cfg turns p = take_transactions cfg.block_size_in_bytes turns 0 p
