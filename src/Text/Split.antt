-- ===== src/Text/Split.antt =====
-- code/misc.cpp: `split`, for a delimiter of one character, as in every call of it.
use ohie.Base.{
  ℕ, ◌≡◌, ◌≢◌, refl, ap, sym, ◌∙◌, List, [], ◌∷◌, ◌++◌, ◌==◌, if◌then◌else◌, All, arith,
}
use ohie.Text.{Text}

-- A character in front of the first token.
abbrev pub cons_head : ℕ → List Text → List Text
cons_head c [] = (c ∷ []) ∷ []
cons_head c (t ∷ ts) = (c ∷ t) ∷ ts

-- The loop ends when the text does, so a delimiter at the very end opens no further token.
unfoldable pub split : Text → ℕ → List Text
split [] delim = [] ∷ []
split (c ∷ []) delim = if c == delim then [] ∷ [] else (c ∷ []) ∷ []
split (c ∷ x ∷ xs) delim =
    let tokens = split (x ∷ xs) delim in if c == delim then [] ∷ tokens else cons_head c tokens

-- The tokens with the delimiter between them.
unfoldable pub join : List Text → ℕ → Text
join [] delim = []
join (t ∷ []) delim = t
join (t ∷ u ∷ us) delim = t ++ delim ∷ join (u ∷ us) delim

abbrev pub Without : ℕ → Text → Type 0
Without delim t = All (λ c. c ≢ delim) t

-- No token holds the delimiter, and the last is not empty.
abbrev pub Tokens : ℕ → List Text → Type 0
Tokens delim [] = ⊥
Tokens delim (t ∷ []) = Without delim t × (t ≢ [])
Tokens delim (t ∷ u ∷ us) = Without delim t × Tokens delim (u ∷ us)

split-Without : (t : Text) (delim : ℕ) → Without delim t → split t delim ≡ t ∷ []
unfolding split
split-Without [] delim h = refl
split-Without (c ∷ []) delim h = ground (arith, h.0)
split-Without (c ∷ x ∷ xs) delim h = ground (arith, h.0, split-Without (x ∷ xs) delim h.1)

-- A token and a delimiter before a text that is not empty.
split-append :
    (t : Text) (delim x : ℕ) (xs : Text)
    → Without delim t
    → split (t ++ delim ∷ x ∷ xs) delim ≡ t ∷ split (x ∷ xs) delim
unfolding split
split-append [] delim x xs h = ground arith
split-append (c ∷ []) delim x xs h = ground (arith, h.0)
split-append (c ∷ y ∷ ys) delim x xs h = ground (arith, h.0, split-append (y ∷ ys) delim x xs h.1)

join-nonempty :
    (delim : ℕ) (ts : List Text)
    → Tokens delim ts
    → (x : ℕ) × (xs : Text) × (join ts delim ≡ x ∷ xs)
unfolding join
join-nonempty delim [] h = elim h [ ]
join-nonempty delim ([] ∷ []) h = absurd (h.1 refl)
join-nonempty delim ((c ∷ t) ∷ []) h = (c, t, refl)
join-nonempty delim ([] ∷ u ∷ us) h = (delim, join (u ∷ us) delim, refl)
join-nonempty delim ((c ∷ t) ∷ u ∷ us) h = (c, t ++ delim ∷ join (u ∷ us) delim, refl)

-- `split` takes a text back into its tokens, if none of them holds the delimiter and the last one
-- is not empty.
pub split-join : (delim : ℕ) (ts : List Text) → Tokens delim ts → split (join ts delim) delim ≡ ts
unfolding join
split-join delim [] h = elim h [ ]
split-join delim (t ∷ []) h = split-Without t delim h.0
split-join delim (t ∷ u ∷ us) h =
    let (x, xs, e) = join-nonempty delim (u ∷ us) h.1 in
    ap (λ (s : Text). split (t ++ delim ∷ s) delim) e
    ∙ split-append t delim x xs h.0
    ∙ ap (◌∷◌ t) (ap (λ (s : Text). split s delim) (sym e) ∙ split-join delim (u ∷ us) h.1)
