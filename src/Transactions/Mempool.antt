-- ===== src/Transactions/Mempool.antt =====
-- code/transactions.cpp: `create_transaction_block`, the share of the mempool for the miner.
use ohie.Base.{
  ℕ, ◌+◌, ◌%◌, ◌^◌, ◌≤◌, ◌<◌, ◌≡◌, ◌≢◌, ◌∙◌, refl, sym, ap, List, [], ◌∷◌, ◌++◌, append_assoc,
  append-nil, true, false, some, arith, All, length, ltb, Bool-cases, is_some, ◌>>=◌, Option, none,
  inl, inr, ltb→lt,
}
use ohie.Config.{Config}
use ohie.Text.{Text}
use ohie.Transactions.State.{Pool}
use ohie.Transactions.Promise.{pop_front, take_transactions, create_transaction_block}

-- The bytes of the transactions.
abbrev pub total_size : List Text → ℕ
total_size [] = 0
total_size (t ∷ ts) = length t + total_size ts

-- Before each of the transactions the size was below the limit.
abbrev pub Needed : ℕ → ℕ → List Text → Type 0
Needed size l [] = Unit
Needed size l (t ∷ ts) = (l < size) × Needed size (l + length t) ts

-- Not empty, and short enough that a size below the limit does not wrap with it.
abbrev pub Small : ℕ → Text → Type 0
Small size t = (t ≢ []) × (size + length t ≤ 2 ^ 32)

-- The other threads put small transactions behind those of the mempool. The handlers of messages, which
-- also take some out, wait meanwhile, as the miner holds `locker_write`.
abbrev pub Appends : ℕ → (Pool → Pool) → Type 0
Appends size turn =
    (p : Pool) → (more : List Text) × ((turn p).mempool ≡ p.mempool ++ more) × All (Small size) more

-- The transactions taken and those left are the mempool, with what came in the meantime behind it; the
-- size is reached, and was not before the last one.
abbrev pub Takes : ℕ → ℕ → List Text → List Text × Pool → Type 0
Takes size l txs (taken, q) =
    (more : List Text) × (taken ++ q.mempool ≡ txs ++ more)
    × (size ≤ l + total_size taken)
    × Needed size l taken

-- The size after one more transaction.
small_sum : (size l n : ℕ) → l < size → size + n ≤ 2 ^ 32 → (l + n) % 2 ^ 32 ≡ l + n
small_sum size l n h k = omega (arith, h, k)

-- The mempool after one turn.
abbrev pub Turned : ℕ → List Text → List Text → Type 0
Turned size txs q = (more : List Text) × (q ≡ txs ++ more) × All (Small size) q

pop_front_first :
    (p : Pool) (tx : Text) (txs : List Text)
    → p.mempool ≡ tx ∷ txs
    → pop_front p ≡ (tx, record p { mempool = txs })
unfolding pop_front
pop_front_first p tx txs e = rw e refl

is_some-bind {ℓ κ} :
    {A : Type ℓ} {B : Type κ} (m : Option A) (f : A → B)
    → is_some (do r ← m; some (f r)) ≡ is_some m
is_some-bind none f = refl
is_some-bind (some a) f = refl

module _ (size : ℕ) where
  -- What follows a try.
  abbrev after_try : List (Pool → Pool) → ℕ → Text × Pool → Option (List Text × Pool)
  after_try turns l r = elim r.0 [
    | [] ↦ take_transactions size turns l r.1
    | ◌∷◌ c cs ↦ (do
      q ← take_transactions size turns ((l + length (c ∷ cs)) % 2 ^ 32) r.1
      some ((c ∷ cs) ∷ q.0, q.1))
  ]

  take_turn_first :
      (turn : Pool → Pool) (turns : List (Pool → Pool)) (l : ℕ) (p : Pool) (c : ℕ) (cs : Text)
      (txs : List Text)
      → ltb l size ≡ true
      → (turn p).mempool ≡ (c ∷ cs) ∷ txs
      → size + length (c ∷ cs) ≤ 2 ^ 32
      → take_transactions size (turn ∷ turns) l p ≡ (do
        r ← take_transactions size turns (l + length (c ∷ cs)) (record (turn p) { mempool = txs })
        some ((c ∷ cs) ∷ r.0, r.1))
  unfolding take_transactions
  take_turn_first turn turns l p c cs txs h e k =
      rw (h, take_transactions)
        (ap (after_try turns l) (pop_front_first (turn p) (c ∷ cs) txs e)
          ∙ rw (small_sum size l (length (c ∷ cs)) (ltb→lt l size h) k) refl)

  -- `base` is the part of the mempool that was there at the start.
  take_base :
      (turns : List (Pool → Pool)) (l : ℕ) (p : Pool) (base more : List Text)
      → All (Appends size) turns
      → p.mempool ≡ base ++ more
      → All (Small size) base
      → size ≤ l + total_size base
      → length base ≤ length turns
      → is_some (take_transactions size turns l p) ≡ true
  unfolding take_transactions
  take_base [] l p [] more a e h s n = ground (arith, s)
  take_base [] l p (t ∷ ts) more a e h s n = absurd (omega (arith, n))
  take_base (turn ∷ turns) l p [] more a e h s n =
      let k : ltb l size ≡ false = ground (arith, s) in rw (k, take_transactions) refl
  take_base (turn ∷ turns) l p ([] ∷ ts) more a e h s n = absurd (h.0.0 refl)
  take_base (turn ∷ turns) l p ((c ∷ cs) ∷ ts) more a e h s n = elim (Bool-cases (ltb l size)) [
    | inr k ↦ rw (k, take_transactions) refl
    | inl k ↦
        let (later, f, small) = a.0 p in
        let first : (turn p).mempool ≡ (c ∷ cs) ∷ (ts ++ (more ++ later)) =
          f ∙ ap (λ z. z ++ later) e ∙ append_assoc ((c ∷ cs) ∷ ts) more later in
        rw (take_turn_first turn turns l p c cs (ts ++ (more ++ later)) k first h.0.1) (
          is_some-bind (take_transactions size turns (l + length (c ∷ cs)) _)
            (λ r. ((c ∷ cs) ∷ r.0, r.1))
          ∙ take_base turns (l + length (c ∷ cs))
              (record (turn p) { mempool = ts ++ (more ++ later) }) ts (more ++ later) a.1 refl h.1
              (omega (arith, s)) (omega (arith, n)))
  ]

-- Where the mempool holds BLOCK_SIZE_IN_BYTES bytes or more, no transaction in it is empty or
-- longer than 2^32 less BLOCK_SIZE_IN_BYTES, and the other threads only put such transactions
-- behind them: the miner gets a block after at most as many tries as the mempool has
-- transactions.
pub create_transaction_block_enough :
    (cfg : Config) (turns : List (Pool → Pool)) (p : Pool)
    → All (Appends cfg.block_size_in_bytes) turns
    → All (Small cfg.block_size_in_bytes) p.mempool
    → cfg.block_size_in_bytes ≤ total_size p.mempool
    → length p.mempool ≤ length turns
    → is_some (create_transaction_block cfg turns p) ≡ true
unfolding create_transaction_block
create_transaction_block_enough cfg turns p a h s n =
    take_base cfg.block_size_in_bytes turns 0 p p.mempool [] a (sym (append-nil p.mempool)) h
      (omega (arith, s)) n
