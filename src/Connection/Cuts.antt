-- ===== src/Connection/Cuts.antt =====
-- code/process_buffer.cpp: where a stream of messages is cut by a read.
use ohie.Base.{
  ℕ, ◌≡◌, ◌≢◌, ◌∙◌, refl, sym, ap, subst, List, [], ◌∷◌, ◌++◌, append_assoc, append-nil, none,
  arith, All, ◌⊎◌, inl, inr,
}
use ohie.Text.{Text}
use ohie.Text.Split.{Without}
use ohie.Handler.Stream.{complete}
use ohie.Handler.Stream.Frames.{Message, wire, Partial}

-- `#` and a text without `#` and `!`.
abbrev pub Plain : Text → Type 0
Plain t = Message t × Without b'!' t

-- The beginning of such a message.
abbrev pub Begun : Text → Type 0
Begun [] = Unit
Begun (c ∷ cs) = Plain (c ∷ cs)

abbrev pub IsFull : Text → Type 0
IsFull t = t ≢ []

Without-++ : (d : ℕ) (a b : Text) → Without d (a ++ b) → Without d a
Without-++ d [] b h = tt
Without-++ d (c ∷ cs) b h = (h.0, Without-++ d cs b h.1)

Begun-++ : (a b : Text) → Begun (a ++ b) → Begun a
Begun-++ [] b h = tt
Begun-++ (c ∷ cs) b h = ((h.0.0, Without-++ b'#' cs b h.0.1), Without-++ b'!' (c ∷ cs) b h.1)

Without-complete : (t : Text) → Without b'!' t → complete t ≡ none
unfolding complete
Without-complete [] h = refl
Without-complete (c ∷ []) h = ground (arith, h.0)
Without-complete (c ∷ x ∷ xs) h = rw (Without-complete (x ∷ xs) h.1, complete) refl

pub Begun-Partial : (t : Text) → Begun t → Partial t
Begun-Partial [] h = tt
Begun-Partial (c ∷ cs) h = (h.0, Without-complete (c ∷ cs) h.1)

-- Two ways to cut one text: one first part is a beginning of the other.
Append-cases {ℓ} :
    {A : Type ℓ} (a b c d : List A)
    → a ++ b ≡ c ++ d
    → ((e : List A) × (c ≡ a ++ e) × (b ≡ e ++ d)) ⊎ ((e : List A) × (a ≡ c ++ e) × (d ≡ e ++ b))
Append-cases [] b c d h = inl (c, refl, h)
Append-cases (x ∷ a) b [] d h = inr (x ∷ a, refl, sym h)
Append-cases (x ∷ a) b (y ∷ c) d h =
    let k : a ++ b ≡ c ++ d = cc in
    let q : x ≡ y = cc in
    elim (Append-cases a b c d k) [ inl r ↦ inl (r.0, cc, r.2) | inr r ↦ inr (r.0, cc, r.2) ]

prefix-snoc {ℓ} :
    {A : Type ℓ} (m : List A) (z : A) (a : List A) (x : A) (xs : List A)
    → m ++ z ∷ [] ≡ a ++ x ∷ xs
    → (r : List A) × (m ≡ a ++ r)
prefix-snoc m z [] x xs h = (m, refl)
prefix-snoc [] z (y ∷ []) x xs h = cc
prefix-snoc [] z (y ∷ y' ∷ a) x xs h = cc
prefix-snoc (c ∷ m) z (y ∷ a) x xs h =
    let k : m ++ z ∷ [] ≡ a ++ x ∷ xs = cc in
    let q : c ≡ y = cc in let (r, e) = prefix-snoc m z a x xs k in (r, cc)

Plain-Begun : (m : Text) → Plain m → Begun m
Plain-Begun [] h = tt
Plain-Begun (c ∷ cs) h = h

-- Where a stream of messages is cut, the messages before the cut are complete, and the next one
-- has begun.
abbrev Cut : List Text → Text → Text → Text → Type 0
Cut ms p a b =
    (ms1 : List Text) × (ms2 : List Text) × (q : Text) × (ms ≡ ms1 ++ ms2)
    × (a ≡ wire ms1 ++ q)
    × (q ++ b ≡ wire ms2 ++ p)
    × Begun q

pub wire-Cut :
    (ms : List Text) (p a b : Text) → All Plain ms → Begun p → a ++ b ≡ wire ms ++ p → Cut ms p a b
wire-Cut [] p a b hs k e = ([], [], a, refl, refl, e, Begun-++ a b (subst Begun (sym e) k))
wire-Cut (m ∷ ms) p a b hs k e =
    let e' : a ++ b ≡ (m ++ b'!' ∷ []) ++ (wire ms ++ p) =
      e ∙ append_assoc (m ++ b'!' ∷ []) (wire ms) p in
    elim (Append-cases a b (m ++ b'!' ∷ []) (wire ms ++ p) e') [
      | inl ([], q, r) ↦ (
        m ∷ [],
        ms,
        [],
        refl,
        sym (q ∙ append-nil a)
            ∙ sym (append-nil (m ++ b'!' ∷ []))
            ∙ sym (append-nil ((m ++ b'!' ∷ []) ++ [])),
        r,
        tt,
      )
      | inl (x ∷ xs, q, r) ↦
          let (t, f) = prefix-snoc m b'!' a x xs q in
          ([], m ∷ ms, a, refl, refl, e, Begun-++ a t (subst Begun f (Plain-Begun m hs.0)))
      | inr (t, q, r) ↦
          let (ms1, ms2, u, e1, e2, e3, e4) = wire-Cut ms p t b hs.1 k (sym r) in
          (
            m ∷ ms1,
            ms2,
            u,
            ap (◌∷◌ m) e1,
            q
                ∙ ap (λ v. (m ++ b'!' ∷ []) ++ v) e2
                ∙ sym (append_assoc (m ++ b'!' ∷ []) (wire ms1) u),
            e3,
            e4,
          )
    ]

bang-Without : (m : Text) → ¬ Without b'!' (m ++ b'!' ∷ [])
bang-Without [] h = h.0 refl
bang-Without (c ∷ m) h = bang-Without m h.1

Begun-Without : (t : Text) → Begun t → Without b'!' t
Begun-Without [] h = tt
Begun-Without (c ∷ cs) h = h.1

pub wire-Without : (ms : List Text) (p : Text) → Begun (wire ms ++ p) → ms ≡ []
wire-Without [] p h = refl
wire-Without (m ∷ ms) p h = absurd (
    bang-Without m
      (Begun-Without (m ++ b'!' ∷ []) (Begun-++ _ (wire ms) (Begun-++ (wire (m ∷ ms)) p h))))

pub All-split {ℓ κ} :
    {A : Type ℓ} (P : A → Type κ) (xs ys : List A) → All P (xs ++ ys) → All P xs × All P ys
All-split P [] ys h = (tt, h)
All-split P (x ∷ xs) ys h = let (a, b) = All-split P xs ys h.1 in ((h.0, a), b)
