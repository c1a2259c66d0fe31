-- ===== src/Transactions/Promises.antt =====
-- code/transactions.cpp: the sequence numbers and the count of promises.
use ohie.Base.{
  ℕ, suc, ◌≡◌, ◌∙◌, refl, ap, List, [], ◌∷◌, Bool, true, false, Option, none, some, arith, Holds,
  Holds-bind, Holds-case, Holds-some, Holds-if, ◌==◌, if◌then◌else◌,
}
use ohie.StdMap.{Entries, lookup, assign}
use ohie.Text.{Text, text_eq}
use ohie.Text.Order.{text_order}
use ohie.Text.Number.{to_string}
use ohie.Transactions.State.{
  Pool, empty_dependency, colon, get_next_seq, update_next_seq, is_promised, save_dependency,
  check_dependencies, dependents, clear_dependencies,
}
use ohie.Transactions.Promise.{
  dependency_of, release, release_next, release_dependents, notify_dependencies,
  promise_transaction,
}

-- The sequence numbers and the count of promises are as before.
abbrev pub Same : Pool → Pool → Type 0
Same p q = (q.next_seqs ≡ p.next_seqs) × (q.promise_count ≡ p.promise_count)

pub check_dependencies-Same :
    (p : Pool) (from : Text) (n : ℕ) (d : Text)
    → Holds (λ c. Same p c.0) (check_dependencies p from n d)
unfolding check_dependencies save_dependency
check_dependencies-Same p from n d =
    Holds-if _ (text_eq d empty_dependency) _ _ (refl, refl)
      (Holds-bind _ (is_promised p d) _ λ b _. ground arith)

Same-trans : (p q : Pool) (o : Option Pool) → Same p q → Holds (Same q) o → Holds (Same p) o
Same-trans p q none h k = tt
Same-trans p q (some r) h k = (k.0 ∙ h.0, k.1 ∙ h.1)

release-Same :
    (p : Pool) (from key : Text) (n : ℕ) (tx : Text) → Holds (Same p) (release p from key n tx)
unfolding release
release-Same p from key n tx = Holds-bind _ (dependency_of tx) _ λ d _.
    Holds-bind _ (check_dependencies p from n d) _
      λ c e. ground (arith, Holds-some _ _ e (check_dependencies-Same p from n d))

release_dependents-Same :
    (p : Pool) (from : Text) (n : ℕ) (next : Text) (ks : List Text)
    → Holds (Same p) (release_dependents p from n next ks)
unfolding release_dependents
release_dependents-Same p from n next [] = (refl, refl)
release_dependents-Same p from n next (k ∷ ks) =
    Holds-if _ (text_eq k next) _ _ (release_dependents-Same p from n next ks) (
      Holds-case _ (lookup k p.pending_transactions) _ _
        (λ _. release_dependents-Same p from n next ks)
        (λ tx _. Holds-bind _ (release p from k n tx) _ λ q e.
          Same-trans p q _ (Holds-some _ _ e (release-Same p from k n tx))
            (release_dependents-Same q from n next ks)))

release_next-Same :
    (p : Pool) (from : Text) (n : ℕ) (next : Text) → Holds (Same p) (release_next p from n next)
unfolding release_next
release_next-Same p from n next =
    Holds-case _ (lookup next p.pending_transactions) _ _ (λ _. (refl, refl))
      (λ t _. release-Same p from next n t)

notify_dependencies-Same :
    (p : Pool) (from seq : Text) → Holds (Same p) (notify_dependencies p from seq)
unfolding notify_dependencies clear_dependencies
notify_dependencies-Same p from seq =
    let n = get_next_seq p from in
    let next = colon from (to_string n) in
    Holds-bind _ (release_next p from n next) _ λ q e.
      Holds-bind _ (release_dependents q from n next (dependents q (colon from seq))) _ λ r d.
        Same-trans p q (some r) (Holds-some _ _ e (release_next-Same p from n next))
          (Holds-some _ _ d (release_dependents-Same q from n next (dependents q (colon from seq))))

-- The table of next sequence numbers after a promise.
abbrev next_seqs_after : Pool → Text → ℕ → Entries Text ℕ
next_seqs_after p from n =
    if n == get_next_seq p from
    then assign from (suc (get_next_seq p from)) p.next_seqs
    else p.next_seqs

abbrev Promises : Pool → Text → ℕ → Pool → Type 0
Promises p from n q =
    (q.promise_count ≡ suc p.promise_count)
    × (q.last_promised ≡ colon from (to_string n))
    × (q.next_seqs ≡ next_seqs_after p from n)

updated-Same :
    (p : Pool) (from : Text) (b : Bool)
    → let q = if b then update_next_seq p from else p in
      (q.next_seqs
        ≡ (if b then assign from (suc (get_next_seq p from)) p.next_seqs else p.next_seqs))
      × (q.promise_count ≡ p.promise_count)
unfolding update_next_seq
updated-Same p from true = (refl, refl)
updated-Same p from false = (refl, refl)

promise_transaction-Promises :
    (p : Pool) (from : Text) (n : ℕ) → Holds (Promises p from n) (promise_transaction p from n)
unfolding promise_transaction
promise_transaction-Promises p from n =
    let b = n == get_next_seq p from in
    let q = if b then update_next_seq p from else p in
    Holds-bind _ (notify_dependencies q from (to_string n)) _ λ r e.
      let same = Holds-some _ _ e (notify_dependencies-Same q from (to_string n)) in
      (ap suc (same.1 ∙ (updated-Same p from b).1), refl, same.0 ∙ (updated-Same p from b).0)

-- Where a promise throws no exception, it counts once and is noted as the last one, and moves the
-- sequence number of the sender by one if it is the one that is next, and no sequence number
-- otherwise, whatever it sets free.
pub promise_transaction_lem :
    (p q : Pool) (from : Text) (n : ℕ)
    → promise_transaction p from n ≡ some q
    → (q.promise_count ≡ suc p.promise_count)
      × (q.last_promised ≡ colon from (to_string n))
      × (q.next_seqs ≡ (
          if n == get_next_seq p from
          then assign from (suc (get_next_seq p from)) p.next_seqs
          else p.next_seqs))
promise_transaction_lem p q from n h =
    Holds-some (Promises p from n) (promise_transaction p from n) h
      (promise_transaction-Promises p from n)
