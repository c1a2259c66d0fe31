-- ===== src/Transactions/Once.antt =====
-- code/transactions.cpp: `verify_transaction` for a transaction that is aging already.
use ohie.Base.{ℕ, ◌≡◌, ◌∙◌, refl, Bool, true, false, some, arith, Holds, Holds-bind, Holds-case}
use ohie.Config.{Config}
use ohie.StdMap.{lookup, lookup-assign}
use ohie.Text.{Text, text_eq_refl}
use ohie.Text.Order.{text_order, at_key_self}
use ohie.Transactions.State.{
  Pool, Fields, stoull, is_promised, check_dependencies, parse_transaction, sizes_ok, body_of,
  key_of,
}
use ohie.Transactions.Receive.{enter_transaction, meet_aging, verify_fields, verify_transaction}

-- A transaction that is new is aging afterwards, from that time on.
abbrev pub Ages : Text → Text → ℕ → Pool × Bool → Type 0
Ages key tx now r =
    r.1 ≡ true → lookup key r.0.aging_transactions ≡ some (record { full_tx = tx; time = now })

enter_transaction-Ages :
    (p : Pool) (f : Fields) (tx : Text) (n now : ℕ)
    → Holds (Ages (key_of f) tx now) (enter_transaction p f tx n now)
unfolding enter_transaction
enter_transaction-Ages p f tx n now =
    Holds-bind _ (check_dependencies p f.from n f.dependency) _ λ c _ _.
      lookup-assign (key_of f) (key_of f) (record { full_tx = tx; time = now })
        c.0.aging_transactions
      ∙ at_key_self (key_of f) (some (record { full_tx = tx; time = now })) _

pub verify_fields-Ages :
    (cfg : Config) (p : Pool) (f : Fields) (tx : Text) (n now : ℕ)
    → sizes_ok cfg f ≡ true
    → Holds (Ages (key_of f) tx now) (verify_fields cfg p f tx n now)
unfolding verify_fields
verify_fields-Ages cfg p f tx n now h = rw h (
    Holds-case _ (lookup (key_of f) p.aging_transactions) _ _
      (λ _.
        Holds-bind _ (is_promised p (body_of f)) _
          λ b _. ground (arith, enter_transaction-Ages p f tx n now))
      (λ old _ e. cc))

pub verify_fields-Refused :
    (cfg : Config) (p : Pool) (f : Fields) (tx : Text) (n now : ℕ)
    → sizes_ok cfg f ≡ false
    → Holds (λ r. r.1 ≡ false) (verify_fields cfg p f tx n now)
unfolding verify_fields
verify_fields-Refused cfg p f tx n now h = rw h refl

pub verify_fields-Known :
    (cfg : Config) (q : Pool) (f : Fields) (tx : Text) (n now later : ℕ)
    → sizes_ok cfg f ≡ true
    → lookup (key_of f) q.aging_transactions ≡ some (record { full_tx = tx; time = now })
    → verify_fields cfg q f tx n later ≡ some (q, false)
unfolding verify_fields meet_aging
verify_fields-Known cfg q f tx n now later h e = rw (h, e, text_eq_refl tx)

pub verify_transaction_fields :
    (cfg : Config) (p : Pool) (f : Fields) (tx : Text) (n now : ℕ)
    → parse_transaction tx ≡ some f
    → stoull f.seq ≡ some n
    → verify_transaction cfg p tx now ≡ verify_fields cfg p f tx n now
unfolding verify_transaction
verify_transaction_fields cfg p f tx n now e d = rw (e, d, verify_transaction) refl
