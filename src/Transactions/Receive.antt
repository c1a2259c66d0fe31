-- ===== src/Transactions/Receive.antt =====
-- code/transactions.cpp: transactions that come from a peer, alone or in a block.
use ohie.Base.{
  ℕ, ◌+◌, ◌^◌, ◌-◌, ◌%◌, List, [], ◌∷◌, ◌++◌, Bool, true, false, not, ◌&&◌, ◌||◌, Option, none,
  some, ltb, if◌then◌else◌, ◌>>=◌, is_some,
}
use ohie.Config.{Config}
use ohie.StdMap.{lookup, assign, erase}
use ohie.Text.{Text, text_eq}
use ohie.Text.Order.{text_order}
use ohie.Transactions.State.{
  AgingInfo, Pool, Fields, stoull, get_next_seq, is_promised, check_dependencies, parse_transaction,
  sizes_ok, body_of, key_of, get_transaction_key, rss,
}

-- A key never received: it starts to age, and waits for what it depends on or goes to the mempool.
unfoldable pub enter_transaction : Pool → Fields → Text → ℕ → ℕ → Option (Pool × Bool)
enter_transaction p f full_tx seq_n now = do
  c ← check_dependencies p f.from seq_n f.dependency
  let tx_key = key_of f
  let q = c.0
  let waits = not c.1 && not (is_some (lookup tx_key q.pending_transactions))
  some (
    record q {
      pending_transactions =
          if waits then assign tx_key full_tx q.pending_transactions else q.pending_transactions;
      mempool = if waits then q.mempool else q.mempool ++ full_tx ∷ [];
      aging_transactions =
          assign tx_key (record { full_tx = full_tx; time = now }) q.aging_transactions;
    },
    true,
  )

-- A key that is aging: another transaction under it is a double spend, and ends the aging.
unfoldable pub meet_aging : Pool → Text → Text → AgingInfo → ℕ → Pool
meet_aging p tx_key full_tx old now = if text_eq old.full_tx full_tx then p else record p {
  aged_transactions =
      assign tx_key (record { full_tx = old.full_tx; start_time = old.time; end_time = now })
        p.aged_transactions;
  aging_transactions = erase tx_key p.aging_transactions;
}

-- The cases of a transaction with seven fields.
unfoldable pub verify_fields : Config → Pool → Fields → Text → ℕ → ℕ → Option (Pool × Bool)
verify_fields cfg p f full_tx seq_n now =
    if not (sizes_ok cfg f)
    then some (p, false)
    else elim (lookup (key_of f) p.aging_transactions) [
      | some old ↦ some (meet_aging p (key_of f) full_tx old now, false)
      | none ↦ do
        promised ← is_promised p (body_of f)
        if promised || is_some (lookup (key_of f) p.aged_transactions)
            then some (p, false)
            else enter_transaction p f full_tx seq_n now
    ]

-- The state afterwards, and `is_new`. The signature is not checked, as in the source.
unfoldable pub verify_transaction : Config → Pool → Text → ℕ → Option (Pool × Bool)
verify_transaction cfg p full_tx now = elim (parse_transaction full_tx) [
  | none ↦ some (p, false)
  | some f ↦ do seq_n ← stoull f.seq; verify_fields cfg p f full_tx seq_n now
]

-- The transactions that were new, in order; `now` is the time of each.
unfoldable pub add_transactions : Config → Pool → List (Text × ℕ) → Option (Pool × List Text)
add_transactions cfg p [] = some (p, [])
add_transactions cfg p ((t, now) ∷ ts) = do
  r ← verify_transaction cfg p t now
  rest ← add_transactions cfg r.0 ts
  some (rest.0, if r.1 then t ∷ rest.1 else rest.1)

-- The mutexes that a function of the source can return with.
pub data Mutex : Type 0 where
  pending_transactions_mtx mempool_mtx aged_transactions_mtx : Mutex

-- `mempool.erase(find_if(…))`: the first transaction with that key.
unfoldable pub erase_first : Text → List Text → Option (List Text)
erase_first tx_key [] = some []
erase_first tx_key (t ∷ ts) = do
  k ← get_transaction_key t
  elim (text_eq k tx_key) [
    | true ↦ some ts
    | false ↦ do rest ← erase_first tx_key ts; some (t ∷ rest)
  ]

-- The state afterwards, and the mutexes that stay locked: the early return unlocks neither.
unfoldable pub remove_from_mempool_and_pending : Pool → Text → Option (Pool × List Mutex)
remove_from_mempool_and_pending p tx = do
  tx_key ← get_transaction_key tx
  elim (lookup tx_key p.pending_transactions) [
    | some t ↦ some (
      record p { pending_transactions = erase tx_key p.pending_transactions },
      pending_transactions_mtx ∷ mempool_mtx ∷ [],
    )
    | none ↦ do mempool' ← erase_first tx_key p.mempool; some (record p { mempool = mempool' }, [])
  ]

-- The verdict on a transaction of a block, with the mutexes that stay locked.
pub record Verdict : Type 0 where
  pub pool : Pool
  pub accepted : Bool
  pub held : List Mutex

-- It was aged without success, as this very transaction, and the block is not deep enough yet.
unfoldable pub too_early : Config → Pool → Text → Text → ℕ → Bool
too_early cfg p tx_key full_tx suffix_size = elim (lookup tx_key p.aged_transactions) [
  | none ↦ false
  | some a ↦ text_eq a.full_tx full_tx && ltb suffix_size (rss cfg a)
]

unfoldable pub same_mutex : Mutex → Mutex → Bool
same_mutex pending_transactions_mtx pending_transactions_mtx = true
same_mutex mempool_mtx mempool_mtx = true
same_mutex aged_transactions_mtx aged_transactions_mtx = true
same_mutex _ _ = false

unfoldable pub is_locked : Mutex → List Mutex → Bool
is_locked m [] = false
is_locked m (n ∷ ns) = same_mutex m n || is_locked m ns

-- `lock()`: where it is locked already, the caller waits for ever.
unfoldable pub lock : Mutex → List Mutex → Option (List Mutex)
lock m held = if is_locked m held then none else some held

-- `rank` is that of the block, `last_rank` that of the last block of its chain; their difference is
-- a `uint32_t`. `held` are the mutexes that earlier calls left locked.
unfoldable pub verify_transaction_from_block :
    Config → Pool → Text → ℕ → ℕ → List Mutex → Option Verdict
verify_transaction_from_block cfg p full_tx rank last_rank held = elim (parse_transaction full_tx) [
  | none ↦ some (record { pool = p; accepted = false; held = held })
  | some f ↦ do
    let suffix_size = (last_rank + 2 ^ 32 - rank) % 2 ^ 32
    seq_n ← stoull f.seq
    if not (sizes_ok cfg f) || ltb (get_next_seq p f.from) seq_n
        then some (record { pool = p; accepted = false; held = held })
        else (do
          promised ← is_promised p f.dependency
          if not promised then some (record { pool = p; accepted = false; held = held }) else (do
            pending_free ← lock pending_transactions_mtx held
            mempool_free ← lock mempool_mtx held
            r ← remove_from_mempool_and_pending p (body_of f)
            aged_free ← lock aged_transactions_mtx held
            some (
                if too_early cfg r.0 (key_of f) full_tx suffix_size
                then record {
                  pool = r.0;
                  accepted = false;
                  held = aged_transactions_mtx ∷ r.1 ++ held;
                }
                else record { pool = r.0; accepted = true; held = r.1 ++ held })))
]
