-- ===== src/Transactions/Arriving.antt =====
-- code/transactions.cpp: what the transactions that arrive leave of the tables.
use ohie.Base.{
  ℕ, ◌≡◌, ◌∙◌, refl, sym, ap, List, [], ◌∷◌, Bool, true, false, not, ◌||◌, Holds, Holds-bind,
  Holds-case, Holds-mono, Holds-if, true≢false, Holds-some, Bool-cases, inl, inr, is_some, All,
  if◌then◌else◌,
}
use ohie.Config.{Config}
use ohie.StdMap.{lookup, lookup-assign, lookup-erase}
use ohie.Text.{Text, text_eq, text_eq_refl, eq_of_text_eq}
use ohie.Text.Order.{text_order, at_key_other}
use ohie.Transactions.State.{
  AgingInfo, Pool, Fields, is_promised, check_dependencies, parse_transaction, sizes_ok, body_of,
  key_of, save_dependency, empty_dependency,
}
use ohie.Transactions.Receive.{
  enter_transaction, meet_aging, verify_fields, verify_transaction, add_transactions,
}

-- Not a transaction under the key.
abbrev pub OtherKey : Text → Text → Type 0
OtherKey key t = Holds (λ f. text_eq (key_of f) key ≡ false) (parse_transaction t)

check_dependencies_tables :
    (p : Pool) (from : Text) (n : ℕ) (dependency : Text)
    → Holds
        (λ c.
          (c.0.aging_transactions ≡ p.aging_transactions)
          × (c.0.aged_transactions ≡ p.aged_transactions))
        (check_dependencies p from n dependency)
unfolding check_dependencies save_dependency
check_dependencies_tables p from n dependency =
    Holds-if _ (text_eq dependency empty_dependency) _ _ (refl, refl)
      (Holds-bind _ (is_promised p dependency) _
        λ b e. elim (Bool-cases b) [ inl h ↦ rw h (refl, refl) | inr h ↦ rw h (refl, refl) ])

-- What an invariant of the tables says of the new ones among the transactions that arrive.
module _ (cfg : Config) (Inv : Pool → Type 0) (Comes New : Text → Type 0)
    (step : (p : Pool) (t : Text) (now : ℕ)
      → Inv p
      → Comes t
      → Holds (λ r. Inv r.0 × (r.1 ≡ true → New t)) (verify_transaction cfg p t now)) where
  new_cons :
      (b : Bool) (t : Text) (ts : List Text)
      → (b ≡ true → New t)
      → All New ts
      → All New (if b then t ∷ ts else ts)
  new_cons true t ts h k = (h refl, k)
  new_cons false t ts h k = k

  pub add_transactions-Inv :
      (p : Pool) (ts : List (Text × ℕ))
      → Inv p
      → All (λ e. Comes e.0) ts
      → Holds (λ r. Inv r.0 × All New r.1) (add_transactions cfg p ts)
  unfolding add_transactions
  add_transactions-Inv p [] i h = (i, tt)
  add_transactions-Inv p ((t, now) ∷ ts) i h =
      Holds-bind _ (verify_transaction cfg p t now) _ λ r e.
        let (j, fresh) = Holds-some _ _ e (step p t now i h.0) in
        Holds-bind _ (add_transactions cfg r.0 ts) _ λ q f.
          let (k, news) = Holds-some _ _ f (add_transactions-Inv r.0 ts j h.1) in
          (k, new_cons r.1 t q.1 fresh news)

text_eq_flip : (a b : Text) → text_eq a b ≡ false → text_eq b a ≡ false
text_eq_flip a b h = elim (Bool-cases (text_eq b a)) [
  | inl e ↦
      absurd (true≢false (sym (text_eq_refl a) ∙ ap (text_eq a) (sym (eq_of_text_eq b a e)) ∙ h))
  | inr e ↦ e
]

-- A transaction that enters leaves the aged table, and the aging one but for its own key.
pub enter_transaction_others :
    (p : Pool) (f : Fields) (t key : Text) (n now : ℕ)
    → text_eq (key_of f) key ≡ false
    → Holds
        (λ r.
          (lookup key r.0.aging_transactions ≡ lookup key p.aging_transactions)
          × (r.0.aged_transactions ≡ p.aged_transactions))
        (enter_transaction p f t n now)
unfolding enter_transaction
enter_transaction_others p f t key n now h =
    Holds-bind _ (check_dependencies p f.from n f.dependency) _ λ c e.
      let (a, b) = Holds-some _ _ e (check_dependencies_tables p f.from n f.dependency) in
      (
        lookup-assign key (key_of f) (record { full_tx = t; time = now }) c.0.aging_transactions
            ∙ at_key_other key (key_of f) _ _ (text_eq_flip (key_of f) key h)
            ∙ ap (lookup key) a,
        b,
      )

-- The aging entry of a key stays, where a transaction under another key is met.
meet_aging_others :
    (p : Pool) (own t key : Text) (old : AgingInfo) (now : ℕ)
    → text_eq own key ≡ false
    → lookup key (meet_aging p own t old now).aging_transactions ≡ lookup key p.aging_transactions
unfolding meet_aging
meet_aging_others p own t key old now h = elim (Bool-cases (text_eq old.full_tx t)) [
  | inl e ↦ rw (e, meet_aging) refl
  | inr e ↦
      rw (e, meet_aging)
        (lookup-erase key own p.aging_transactions
          ∙ at_key_other key own _ _ (text_eq_flip own key h))
]

pub verify_fields_others :
    (cfg : Config) (p : Pool) (f : Fields) (t key : Text) (n now : ℕ)
    → text_eq (key_of f) key ≡ false
    → Holds
        (λ r. lookup key r.0.aging_transactions ≡ lookup key p.aging_transactions)
        (verify_fields cfg p f t n now)
unfolding verify_fields
verify_fields_others cfg p f t key n now h = Holds-if _ (not (sizes_ok cfg f)) _ _ refl (
    Holds-case _ (lookup (key_of f) p.aging_transactions) _ _
      (λ _. Holds-bind _ (is_promised p (body_of f)) _ λ b _.
        Holds-if _ (b || is_some (lookup (key_of f) p.aged_transactions)) _ _ refl (
          Holds-mono _ _ (enter_transaction p f t n now) (λ r k. k.0)
            (enter_transaction_others p f t key n now h)))
      (λ old _. meet_aging_others p (key_of f) t key old now h))
