-- ===== src/Transactions/Aging.antt =====
-- code/transactions.cpp: one round of `aging_monitor`.
use ohie.Base.{
  ℕ, zero, suc, ◌+◌, ◌≤◌, ◌<◌, ◌≡◌, refl, sym, subst, [], ◌∷◌, Bool, true, false, some, arith,
  Holds, Holds-bind, Holds-some, length, ltb, ltb→lt, Bool-cases, true≢false, inl, inr, ◌>>=◌,
  if◌then◌else◌, get_elem?,
}
use ohie.Config.{Config}
use ohie.StdMap.{Entries}
use ohie.Text.{Text}
use ohie.Text.Split.{split}
use ohie.Transactions.State.{AgingInfo, Pool, stoull, check_dependencies}
use ohie.Transactions.Promise.{
  dependency_of, promise_transaction, age_transaction, aging_loop, aging_round,
}
use ohie.Transactions.Promises.{check_dependencies-Same, promise_transaction_lem}

-- An entry is kept or promised, and a young one is kept.
abbrev Ages : Config → Pool → AgingInfo → ℕ → Pool × Bool → Type 0
Ages cfg p info now r =
    ((if r.1 then 1 else 0) + r.0.promise_count ≡ suc p.promise_count)
    × (now ≤ info.time + cfg.at → r.1 ≡ true)

promise-Ages :
    (cfg : Config) (p : Pool) (info : AgingInfo) (from : Text) (n now : ℕ) (c : Pool × Bool)
    → info.time + cfg.at < now
    → c.0.promise_count ≡ p.promise_count
    → Holds (Ages cfg p info now) (
        if c.1 then (promise_transaction c.0 from n >>= λ q. some (q, false)) else some (c.0, true))
promise-Ages cfg p info from n now (o, true) h e =
    Holds-bind _ (promise_transaction o from n) _ λ q d. (
      omega (arith, (promise_transaction_lem o q from n d).0, e),
      λ y. absurd (omega (arith, h, y)),
    )
promise-Ages cfg p info from n now (o, false) h e = (omega (arith, e), λ y. refl)

age_transaction-Ages :
    (cfg : Config) (p : Pool) (info : AgingInfo) (now : ℕ)
    → Holds (Ages cfg p info now) (age_transaction cfg p info now)
unfolding age_transaction
age_transaction-Ages cfg p info now =
    Holds-bind _ (get_elem? (split info.full_tx b':') 0) _ λ from _.
      Holds-bind _ (get_elem? (split info.full_tx b':') 1) _ λ seq _.
        Holds-bind _ (stoull seq) _ λ n _. Holds-bind _ (dependency_of info.full_tx) _ λ d _.
          (elim (Bool-cases (ltb (info.time + cfg.at) now)) [
            | inl e ↦ rw e (
                Holds-bind _ (check_dependencies p from n d) _ λ c ce.
                  promise-Ages cfg p info from n now c (ltb→lt _ _ e)
                    (Holds-some _ _ ce (check_dependencies-Same p from n d)).1)
            | inr e ↦ rw e (omega arith, λ y. refl)
          ])

-- The same of a run over a list of entries, that starts at the time of entry `i`.
abbrev Kept : Config → (ℕ → ℕ) → ℕ → Entries Text AgingInfo → Entries Text AgingInfo → Type 0
Kept cfg clock i before after =
    (j : ℕ) (key : Text) (info : AgingInfo)
    → get_elem? before j ≡ some (key, info)
    → clock (i + j) ≤ info.time + cfg.at
    → (m : ℕ) × (get_elem? after m ≡ some (key, info))

abbrev Round :
    Config → (ℕ → ℕ) → ℕ → Entries Text AgingInfo → Pool → Pool × Entries Text AgingInfo → Type 0
Round cfg clock i es p r =
    (length r.1 + r.0.promise_count ≡ length es + p.promise_count) × Kept cfg clock i es r.1

start : (clock : ℕ → ℕ) (i b : ℕ) → clock (i + 0) ≤ b → clock i ≤ b
start clock i b y = let e : i + 0 ≡ i = omega arith in subst (λ m. clock m ≤ b) e y

shift : (clock : ℕ → ℕ) (i j b : ℕ) → clock (i + suc j) ≤ b → clock (suc i + j) ≤ b
shift clock i j b y = subst (λ m. clock m ≤ b) (omega arith) y

step-Round :
    (cfg : Config) (clock : ℕ → ℕ) (i : ℕ) (key : Text) (info : AgingInfo)
    (es : Entries Text AgingInfo) (p : Pool) (r : Pool × Bool) (l : Pool × Entries Text AgingInfo)
    → Ages cfg p info (clock i) r
    → Round cfg clock (suc i) es r.0 l
    → Round cfg clock i ((key, info) ∷ es) p (l.0, if r.1 then (key, info) ∷ l.1 else l.1)
step-Round cfg clock i key info es p (o, true) l h ih = (omega (arith, h.0, ih.0), go)
  where
    go : Kept cfg clock i ((key, info) ∷ es) ((key, info) ∷ l.1)
    go zero k f e y = (0, e)
    go (suc j) k f e y = let (m, d) = ih.1 j k f e (shift clock i j _ y) in (suc m, d)
step-Round cfg clock i key info es p (o, false) l h ih = (omega (arith, h.0, ih.0), go)
  where
    go : Kept cfg clock i ((key, info) ∷ es) l.1
    go zero k f e y =
        let same : info ≡ f = cc in absurd (true≢false (sym (h.1 (start clock i _ (rw same y)))))
    go (suc j) k f e y = ih.1 j k f e (shift clock i j _ y)

aging_loop-Round :
    (cfg : Config) (clock : ℕ → ℕ) (i : ℕ) (es : Entries Text AgingInfo) (p : Pool)
    → Holds (Round cfg clock i es p) (aging_loop cfg clock i es p)
unfolding aging_loop
aging_loop-Round cfg clock i [] p = (refl, λ j key info e y. cc)
aging_loop-Round cfg clock i ((key, info) ∷ es) p =
    Holds-bind _ (age_transaction cfg p info (clock i)) _ λ r e.
      Holds-bind _ (aging_loop cfg clock (suc i) es r.0) _ λ l d.
        step-Round cfg clock i key info es p r l
          (Holds-some _ _ e (age_transaction-Ages cfg p info (clock i)))
          (Holds-some _ _ d (aging_loop-Round cfg clock (suc i) es r.0))

aging_round-Round :
    (cfg : Config) (clock : ℕ → ℕ) (p q : Pool)
    → aging_round cfg clock p ≡ some q
    → Round cfg clock 0 p.aging_transactions p (q, q.aging_transactions)
unfolding aging_round
aging_round-Round cfg clock p q h =
    Holds-some (λ r. Round cfg clock 0 p.aging_transactions p (r, r.aging_transactions)) _ h
      (Holds-bind _ (aging_loop cfg clock 0 p.aging_transactions p) _ λ l e.
        Holds-some (Round cfg clock 0 p.aging_transactions p) _ e
          (aging_loop-Round cfg clock 0 p.aging_transactions p))

-- A round of the aging monitor that throws no exception drops as many entries from the aging
-- table as it counts promises.
pub aging_round_counts :
    (cfg : Config) (clock : ℕ → ℕ) (p q : Pool)
    → aging_round cfg clock p ≡ some q
    → length q.aging_transactions + q.promise_count ≡ length p.aging_transactions + p.promise_count
aging_round_counts cfg clock p q h = (aging_round-Round cfg clock p q h).0

-- A round of the aging monitor that throws no exception keeps each entry that is not older than
-- AT at the time it is looked at.
pub aging_round_keeps :
    (cfg : Config) (clock : ℕ → ℕ) (p q : Pool) (j : ℕ) (key : Text) (info : AgingInfo)
    → aging_round cfg clock p ≡ some q
    → get_elem? p.aging_transactions j ≡ some (key, info)
    → clock j ≤ info.time + cfg.at
    → (m : ℕ) × (get_elem? q.aging_transactions m ≡ some (key, info))
aging_round_keeps cfg clock p q j key info h e y =
    let z : j ≡ 0 + j = omega arith in
    (aging_round-Round cfg clock p q h).1 j key info e
      (subst (λ m. clock m ≤ info.time + cfg.at) z y)
