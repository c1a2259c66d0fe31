-- ===== src/Transactions/Entered.antt =====
-- code/transactions.cpp: what the receiver makes of a transaction whose fields are good.
use ohie.Base.{
  ℕ, ◌^◌, ◌≡◌, ◌<◌, ◌∙◌, refl, List, [], ◌∷◌, ◌++◌, Bool, true, false, not, ◌&&◌, some, ltb, ◌==◌,
  if◌then◌else◌, Bool-cases, inl, inr, is_some,
}
use ohie.StdMap.{lookup, assign, lookup-assign, at_key}
use ohie.Text.{Text, text_eq}
use ohie.Text.Number.{to_string}
use ohie.Text.Order.{text_order, text_compare_refl}
use ohie.Text.Split.{Without, split, join, split-join}
use ohie.Requests.Numbers.{safe_stoull-to_string, to_string_nonempty}
use ohie.Transactions.State.{
  Pool, Fields, colon, stoull, get_next_seq, is_promised, save_dependency, check_dependencies,
  key_of, empty_dependency,
}
use ohie.Transactions.Receive.{enter_transaction}
use ohie.Transactions.Addresses.{to_string-no_colon}

pub is_promised_known :
    (p : Pool) (a b : Text) (n : ℕ) (rest : List Text) (t : Text)
    → split t b':' ≡ a ∷ b ∷ rest
    → b ≡ to_string n
    → n < 2 ^ 64
    → is_promised p t ≡ some (ltb n (get_next_seq p a))
unfolding is_promised stoull
is_promised_known p a b n rest t e f l = rw (e, f, safe_stoull-to_string n true l) refl

-- A dependency `a:n`, as `last_promised` always is.
pub is_promised-colon :
    (p : Pool) (a : Text) (n : ℕ)
    → Without b':' a
    → n < 2 ^ 64
    → is_promised p (colon a (to_string n)) ≡ some (ltb n (get_next_seq p a))
unfolding join
is_promised-colon p a n h l =
    is_promised_known p a (to_string n) n [] (colon a (to_string n))
      (split-join b':' (a ∷ to_string n ∷ []) (h, (to_string-no_colon n, to_string_nonempty n)))
      refl l

pub check_dependencies_runs :
    (p : Pool) (from : Text) (seq_n : ℕ) (a : Text) (n : ℕ)
    → Without b':' a
    → n < 2 ^ 64
    → (c : Pool × Bool) × (check_dependencies p from seq_n (colon a (to_string n)) ≡ some c)
unfolding check_dependencies
check_dependencies_runs p from seq_n a n h l =
    elim (Bool-cases (text_eq (colon a (to_string n)) empty_dependency)) [
      | inl e ↦ ((p, get_next_seq p from == seq_n), rw e refl)
      | inr e ↦ (
        (if ltb n (get_next_seq p a)
            then (p, get_next_seq p from == seq_n)
            else (save_dependency p from seq_n (colon a (to_string n)), false)),
        rw (e, is_promised-colon p a n h l) refl,
      )
    ]

-- It is new, and starts to age.
abbrev pub IsEntered : Pool → Text → Text → ℕ → Pool × Bool → Type 0
IsEntered p tx_key full_tx now (q, is_new) =
    (is_new ≡ true)
    × (lookup tx_key q.aging_transactions ≡ some (record { full_tx = full_tx; time = now }))

pub enter_transaction_runs :
    (p : Pool) (f : Fields) (full_tx : Text) (seq_n now : ℕ) (c : Pool × Bool)
    → check_dependencies p f.from seq_n f.dependency ≡ some c
    → (q : Pool × Bool) × (enter_transaction p f full_tx seq_n now ≡ some q)
      × IsEntered p (key_of f) full_tx now q
unfolding enter_transaction text_order
enter_transaction_runs p f full_tx seq_n now c e =
    let waits = not c.1 && not (is_some (lookup (key_of f) c.0.pending_transactions)) in
    (
      (
        record c.0 {
          pending_transactions =
              if waits
              then assign (key_of f) full_tx c.0.pending_transactions
              else c.0.pending_transactions;
          mempool = if waits then c.0.mempool else c.0.mempool ++ full_tx ∷ [];
          aging_transactions =
              assign (key_of f) (record { full_tx = full_tx; time = now }) c.0.aging_transactions;
        },
        true,
      ),
      rw (e, enter_transaction) refl,
      (
        refl,
        lookup-assign (key_of f) (key_of f) (record { full_tx = full_tx; time = now })
              c.0.aging_transactions
            ∙ rw (text_compare_refl (key_of f), at_key) refl,
      ),
    )
