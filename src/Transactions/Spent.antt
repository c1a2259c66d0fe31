-- ===== src/Transactions/Spent.antt =====
-- code/transactions.cpp: keys under transactions that arrive one after the other, `add_transactions`.
use ohie.Base.{
  ℕ, ◌≡◌, ◌∙◌, refl, sym, ap, subst, List, [], ◌∷◌, Bool, true, false, not, ◌||◌, ◌⊎◌, Option, none,
  some, Holds, Holds-bind, Holds-case, Holds-mono, Holds-if, true≢false, Holds-some, Bool-cases,
  inl, inr, is_some, All,
}
use ohie.Config.{Config}
use ohie.StdMap.{lookup, lookup-assign, lookup-erase, at_key}
use ohie.Text.{Text, text_eq, eq_of_text_eq}
use ohie.Text.Order.{text_order, at_key_self, at_key_other}
use ohie.Transactions.State.{
  AgingInfo, AgedInfo, Pool, Fields, stoull, is_promised, parse_transaction, sizes_ok, body_of,
  key_of,
}
use ohie.Transactions.Receive.{
  enter_transaction, meet_aging, verify_fields, verify_transaction, add_transactions,
}
use ohie.Transactions.Once.{
  verify_fields-Ages, verify_fields-Refused, verify_fields-Known, verify_transaction_fields,
}
use ohie.Transactions.Arriving.{
  add_transactions-Inv, OtherKey, enter_transaction_others, verify_fields_others,
}

-- The key is aged, and not aging.
abbrev pub Spent : Text → Pool → Type 0
Spent key p =
    (lookup key p.aging_transactions ≡ none) × (is_some (lookup key p.aged_transactions) ≡ true)

some-at_key :
    (j k : Text) (v : AgedInfo) (old : Option AgedInfo)
    → is_some old ≡ true
    → is_some (at_key j k (some v) old) ≡ true
some-at_key j k v old h = elim (Bool-cases (text_eq j k)) [
  | inl e ↦
      let same : j ≡ k = eq_of_text_eq j k e in
      subst (λ x. is_some (at_key j x (some v) old) ≡ true) same
        (ap is_some (at_key_self j (some v) old))
  | inr e ↦ ap is_some (at_key_other j k (some v) old e) ∙ h
]

none-at_key : (j k : Text) (old : Option AgingInfo) → old ≡ none → at_key j k none old ≡ none
none-at_key j k old h = elim (Bool-cases (text_eq j k)) [
  | inl e ↦
      let same : j ≡ k = eq_of_text_eq j k e in
      subst (λ x. at_key j x none old ≡ none) same (at_key_self j none old)
  | inr e ↦ at_key_other j k none old e ∙ h
]

meet_aging-Spent :
    (p : Pool) (own t key : Text) (old : AgingInfo) (now : ℕ)
    → Spent key p
    → Spent key (meet_aging p own t old now)
unfolding meet_aging
meet_aging-Spent p own t key old now (a, b) = elim (Bool-cases (text_eq old.full_tx t)) [
  | inl e ↦ rw (e, meet_aging) (a, b)
  | inr e ↦
      rw (e, meet_aging)
        (
          lookup-erase key own p.aging_transactions ∙ none-at_key key own _ a,
          ap is_some (lookup-assign key own _ p.aged_transactions) ∙ some-at_key key own _ _ b,
        )
]

or_true : (b c : Bool) → c ≡ true → (b || c) ≡ true
or_true true c h = refl
or_true false c h = h

not-Spent :
    (p : Pool) (own key : Text) (b : Bool)
    → Spent key p
    → (b || is_some (lookup own p.aged_transactions)) ≡ false
    → text_eq own key ≡ false
not-Spent p own key b s h = elim (Bool-cases (text_eq own key)) [
  | inl e ↦
      let k : is_some (lookup own p.aged_transactions) ≡ true =
        ap (λ x. is_some (lookup x p.aged_transactions)) (eq_of_text_eq own key e) ∙ s.1 in
      absurd (true≢false (sym (or_true b _ k) ∙ h))
  | inr e ↦ e
]

-- The key is spent still, and what is new is not under it.
abbrev StaysSpent : Text → Fields → Pool × Bool → Type 0
StaysSpent key f r = Spent key r.0 × (r.1 ≡ true → text_eq (key_of f) key ≡ false)

verify_fields-Spent :
    (cfg : Config) (p : Pool) (f : Fields) (t key : Text) (n now : ℕ)
    → Spent key p
    → Holds (StaysSpent key f) (verify_fields cfg p f t n now)
unfolding verify_fields
verify_fields-Spent cfg p f t key n now s =
    let still : StaysSpent key f (p, false) = (s, λ e. cc) in
    Holds-if (StaysSpent key f) (not (sizes_ok cfg f)) _ _ still (
      Holds-case (StaysSpent key f) (lookup (key_of f) p.aging_transactions) _ _
        (λ _. Holds-bind (StaysSpent key f) (is_promised p (body_of f)) _ λ b _.
          elim (Bool-cases (b || is_some (lookup (key_of f) p.aged_transactions))) [
            | inl k ↦ rw k still
            | inr k ↦
                let other : text_eq (key_of f) key ≡ false = not-Spent p (key_of f) key b s k in
                rw k (
                  Holds-mono _ (StaysSpent key f) (enter_transaction p f t n now)
                    (λ r m. ((m.0 ∙ s.0, ap (λ x. is_some (lookup key x)) m.1 ∙ s.1), λ _. other))
                    (enter_transaction_others p f t key n now other))
          ])
        (λ old _. (meet_aging-Spent p (key_of f) t key old now s, λ e. cc)))

-- The double spend itself.
verify_fields_met :
    (cfg : Config) (p : Pool) (f : Fields) (tx : Text) (n now : ℕ) (old : AgingInfo)
    → sizes_ok cfg f ≡ true
    → lookup (key_of f) p.aging_transactions ≡ some old
    → text_eq old.full_tx tx ≡ false
    → Holds
        (λ (c : Pool × Bool). Spent (key_of f) c.0 × (c.1 ≡ false))
        (verify_fields cfg p f tx n now)
unfolding verify_fields meet_aging
verify_fields_met cfg p f tx n now old ok l t =
    rw (ok, l, t, verify_fields, meet_aging)
      (
        (
          lookup-erase (key_of f) (key_of f) p.aging_transactions ∙ at_key_self (key_of f) none _,
          ap is_some (
              lookup-assign (key_of f) (key_of f) _ p.aged_transactions
              ∙ at_key_self (key_of f) _ _),
        ),
        refl,
      )

-- A step with the fields is a step with the text.
with_fields :
    (cfg : Config) (p : Pool) (t : Text) (now : ℕ) (P : Pool × Bool → Type 0)
    → P (p, false)
    → ((f : Fields) (n : ℕ)
        → parse_transaction t ≡ some f
        → Holds P (verify_fields cfg p f t n now))
    → Holds P (verify_transaction cfg p t now)
unfolding verify_transaction
with_fields cfg p t now P h k =
    Holds-case P (parse_transaction t) _ _ (λ _. h)
      (λ f e. Holds-bind P (stoull f.seq) _ λ n _. k f n e)

verify_transaction-Spent :
    (cfg : Config) (key : Text) (p : Pool) (t : Text) (now : ℕ)
    → Spent key p
    → Holds (λ r. Spent key r.0 × (r.1 ≡ true → OtherKey key t)) (verify_transaction cfg p t now)
verify_transaction-Spent cfg key p t now s =
    with_fields cfg p t now _ (s, λ e. cc)
      (λ f n e.
        Holds-mono _ _ (verify_fields cfg p f t n now) (λ r k. (k.0, λ h. rw e (k.1 h)))
          (verify_fields-Spent cfg p f t key n now s))

-- The entry of a transaction that ages.
abbrev pub IsAging : Text → Text → ℕ → Pool → Type 0
IsAging key tx now p = lookup key p.aging_transactions ≡ some (record { full_tx = tx; time = now })

-- The transaction itself, or one under another key.
abbrev pub Harmless : Text → Text → Text → Type 0
Harmless key tx t = (t ≡ tx) ⊎ OtherKey key t

module _ (cfg : Config) (f : Fields) (tx : Text) (n now : ℕ) (e : parse_transaction tx ≡ some f)
    (d : stoull f.seq ≡ some n) (ok : sizes_ok cfg f ≡ true) where
  known_again :
      (q : Pool) (later : ℕ)
      → IsAging (key_of f) tx now q
      → verify_transaction cfg q tx later ≡ some (q, false)
  known_again q later h =
      verify_transaction_fields cfg q f tx n later e d
      ∙ verify_fields-Known cfg q f tx n now later ok h

  verify_transaction-Harmless :
      (p : Pool) (t : Text) (later : ℕ)
      → IsAging (key_of f) tx now p
      → Harmless (key_of f) tx t
      → Holds
          (λ r. IsAging (key_of f) tx now r.0 × (r.1 ≡ true → OtherKey (key_of f) t))
          (verify_transaction cfg p t later)
  verify_transaction-Harmless p t later h (inl same) = rw (same, known_again p later h) (h, λ c. cc)
  verify_transaction-Harmless p t later h (inr other) =
      with_fields cfg p t later _ (h, λ c. cc)
        (λ g m k.
          let ne : text_eq (key_of g) (key_of f) ≡ false = Holds-some _ _ k other in
          Holds-mono _ _ (verify_fields cfg p g t m later) (λ r l. (l ∙ h, λ _. other))
            (verify_fields_others cfg p g t (key_of f) m later ne))

-- The transaction is new: its fields are good, and it ages from then on.
new-IsAging :
    (cfg : Config) (p q : Pool) (f : Fields) (tx : Text) (n now : ℕ)
    → parse_transaction tx ≡ some f
    → stoull f.seq ≡ some n
    → verify_transaction cfg p tx now ≡ some (q, true)
    → (sizes_ok cfg f ≡ true) × IsAging (key_of f) tx now q
new-IsAging cfg p q f tx n now e d h =
    let k : verify_fields cfg p f tx n now ≡ some (q, true) =
      sym (verify_transaction_fields cfg p f tx n now e d) ∙ h in
    elim (Bool-cases (sizes_ok cfg f)) [
      | inl ok ↦ (ok, Holds-some _ _ k (verify_fields-Ages cfg p f tx n now ok) refl)
      | inr bad ↦
          absurd (true≢false (Holds-some _ _ k (verify_fields-Refused cfg p f tx n now bad)))
    ]

-- A transaction that is new is not new again while transactions arrive among which no other one
-- has its key: however often it is sent among them, none of the new ones has the key, and sent
-- once more afterwards, at any time, it changes nothing and is not new. Nothing is promised or
-- committed in between.
pub verify_transaction_again :
    (cfg : Config) (p q r : Pool) (f : Fields) (tx : Text) (n now later : ℕ) (ts : List (Text × ℕ))
    (news : List Text)
    → parse_transaction tx ≡ some f
    → stoull f.seq ≡ some n
    → verify_transaction cfg p tx now ≡ some (q, true)
    → All (λ (t : Text × ℕ). Harmless (key_of f) tx t.0) ts
    → add_transactions cfg q ts ≡ some (r, news)
    → All (OtherKey (key_of f)) news × (verify_transaction cfg r tx later ≡ some (r, false))
verify_transaction_again cfg p q r f tx n now later ts news e d h others g =
    let (ok, aging) = new-IsAging cfg p q f tx n now e d h in
    let (still, fresh) = Holds-some _ _ g (
      add_transactions-Inv cfg (IsAging (key_of f) tx now) (Harmless (key_of f) tx)
        (OtherKey (key_of f)) (verify_transaction-Harmless cfg f tx n now e d ok) q ts aging
        others) in
    (fresh, known_again cfg f tx n now e d ok r later still)

-- Any transaction.
abbrev Anything : Text → Type 0
Anything t = Unit

any : (ts : List (Text × ℕ)) → All (λ (e : Text × ℕ). Anything e.0) ts
any [] = tt
any (t ∷ ts) = (tt, any ts)

-- A transaction with good fields, under the key of another one that ages, is a double spend: it
-- is not new, the other one stops to age, and of all the transactions that arrive afterwards,
-- these two among them, none under the key is new. Nothing is promised or committed in between.
pub verify_transaction_double_spend :
    (cfg : Config) (p q r : Pool) (b : Bool) (f : Fields) (tx : Text) (n now : ℕ) (old : AgingInfo)
    (ts : List (Text × ℕ)) (news : List Text)
    → parse_transaction tx ≡ some f
    → stoull f.seq ≡ some n
    → sizes_ok cfg f ≡ true
    → lookup (key_of f) p.aging_transactions ≡ some old
    → text_eq old.full_tx tx ≡ false
    → verify_transaction cfg p tx now ≡ some (q, b)
    → add_transactions cfg q ts ≡ some (r, news)
    → (b ≡ false) × Spent (key_of f) r × All (OtherKey (key_of f)) news
unfolding verify_fields meet_aging
verify_transaction_double_spend cfg p q r b f tx n now old ts news e d ok l t h g =
    let met : Spent (key_of f) q × (b ≡ false) =
      Holds-some (λ (c : Pool × Bool). Spent (key_of f) c.0 × (c.1 ≡ false)) _ h
        (subst (Holds (λ (c : Pool × Bool). Spent (key_of f) c.0 × (c.1 ≡ false)))
          (sym (verify_transaction_fields cfg p f tx n now e d))
          (verify_fields_met cfg p f tx n now old ok l t)) in
    let (still, fresh) = Holds-some _ _ g (
      add_transactions-Inv cfg (Spent (key_of f)) Anything (OtherKey (key_of f))
        (λ u t' at s _. verify_transaction-Spent cfg (key_of f) u t' at s) q ts met.0 (any ts)) in
    (met.1, still, fresh)
