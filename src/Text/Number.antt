-- ===== src/Text/Number.antt =====
-- code/misc.cpp, code/verify.cpp: numbers as text. `to_string`, the stream manipulator `hex`, `stoi`
-- and `stoull` are the standard library's; they are modelled as far as the code relies on them.
use ohie.Base.{
  ℕ, zero, suc, ◌+◌, ◌-◌, ◌*◌, ◌/◌, ◌%◌, ◌^◌, ◌≤◌, ◌<◌, ◌≡◌, refl, sym, ap, ◌∙◌, [], ◌∷◌, ◌++◌,
  Bool, true, false, ◌&&◌, ◌||◌, Option, none, some, ◌==◌, ltb, leb, if◌then◌else◌, Bool-cases, inl,
  inr, arith,
}
use native.Mathlib.Nat.{pow-zero, pow-suc, div-lt_iff_lt-mul, div-add-mod'}
use ohie.Text.{Text}

-- 0-9, then a-f.
unfoldable pub digit_char : ℕ → ℕ
digit_char d = if ltb d 10 then 48 + d else 87 + d

-- The value of a digit in base `base`.
unfoldable pub digit_value : ℕ → ℕ → Option ℕ
digit_value base c =
    if leb 48 c && (leb c 57 && ltb (c - 48) base)
    then some (c - 48)
    else if leb 97 c && (leb c 102 && ltb (c - 87) base)
    then some (c - 87)
    else none

-- The digits of a number, the most significant first; `fuel` bounds their count.
unfoldable pub to_digits : ℕ → ℕ → ℕ → Text
to_digits base zero n = []
to_digits base (suc fuel) n =
    let more = to_digits base fuel (n / base) ++ digit_char (n % base) ∷ [] in
    if ltb n base then digit_char n ∷ [] else more

-- The number at the front of a text, `acc` what was read before.
unfoldable pub read_digits : ℕ → ℕ → Text → ℕ
read_digits base acc [] = acc
read_digits base acc (c ∷ cs) = elim (digit_value base c) [
  | none ↦ acc
  | some d ↦ read_digits base (acc * base + d) cs
]

pub digit_value-digit_char :
    (base d : ℕ) → base ≤ 16 → d < base → digit_value base (digit_char d) ≡ some d
unfolding digit_value digit_char
digit_value-digit_char base d h k = ground arith

-- A text of digits.
abbrev pub AllDigits : ℕ → Text → Type 0
AllDigits base [] = Unit
AllDigits base (c ∷ cs) = ((d : ℕ) × (digit_value base c ≡ some d)) × AllDigits base cs

AllDigits-append :
    (base : ℕ) (s t : Text) → AllDigits base s → AllDigits base t → AllDigits base (s ++ t)
AllDigits-append base [] t h k = k
AllDigits-append base (c ∷ s) t h k = (h.0, AllDigits-append base s t h.1 k)

read_digits-append :
    (base acc : ℕ) (s t : Text)
    → AllDigits base s
    → read_digits base acc (s ++ t) ≡ read_digits base (read_digits base acc s) t
unfolding read_digits
read_digits-append base acc [] t h = refl
read_digits-append base acc (c ∷ s) t ((d, e), h) =
    rw (e, read_digits) (read_digits-append base (acc * base + d) s t h)

pub to_digits-AllDigits :
    (base fuel n : ℕ) → 2 ≤ base → base ≤ 16 → AllDigits base (to_digits base fuel n)
unfolding to_digits
to_digits-AllDigits base zero n h k = tt
to_digits-AllDigits base (suc fuel) n h k = elim (Bool-cases (ltb n base)) [
  | inl e ↦ rw e ((n, digit_value-digit_char base n k (ground arith)), tt)
  | inr e ↦ rw e (
      AllDigits-append base (to_digits base fuel (n / base)) _
        (to_digits-AllDigits base fuel (n / base) h k)
        ((n % base, digit_value-digit_char base (n % base) k (grind arith)), tt))
]

read_digits-digit_char :
    (base acc d : ℕ)
    → base ≤ 16
    → d < base
    → read_digits base acc (digit_char d ∷ []) ≡ acc * base + d
unfolding read_digits
read_digits-digit_char base acc d h k = rw (digit_value-digit_char base d h k, read_digits)

div_lt : (base fuel n : ℕ) → 2 ≤ base → n < base ^ suc fuel → n / base < base ^ fuel
div_lt base fuel n h b = (div-lt_iff_lt-mul (omega arith)).1 (rw pow-suc at b)

pub read_digits-to_digits :
    (base fuel n : ℕ)
    → 2 ≤ base
    → base ≤ 16
    → n < base ^ fuel
    → read_digits base 0 (to_digits base fuel n) ≡ n
unfolding to_digits read_digits
read_digits-to_digits base zero n h k b = let e : n ≡ 0 = omega (arith, pow-zero base) in sym e
read_digits-to_digits base (suc fuel) n h k b = elim (Bool-cases (ltb n base)) [
  | inl e ↦ rw e (read_digits-digit_char base 0 n k (ground arith) ∙ omega arith)
  | inr e ↦ rw e (
      read_digits-append base 0 (to_digits base fuel (n / base)) _
        (to_digits-AllDigits base fuel (n / base) h k)
      ∙ ap (λ (a : ℕ). read_digits base a (digit_char (n % base) ∷ []))
          (read_digits-to_digits base fuel (n / base) h k (div_lt base fuel n h b))
      ∙ read_digits-digit_char base (n / base) (n % base) k (grind arith)
      ∙ div-add-mod' n base)
]

-- `to_string` of an unsigned number of at most 64 bits: 20 digits are enough.
unfoldable pub to_string : ℕ → Text
to_string n = to_digits 10 20 n

-- White space at the front is passed over.
unfoldable pub skip_space : Text → Text
skip_space [] = []
skip_space (c ∷ cs) = if c == 32 || (leb 9 c && leb c 13) then skip_space cs else c ∷ cs

-- A decimal number at the front, if there is a digit.
unfoldable pub decimal : Text → Option ℕ
decimal [] = none
decimal (c ∷ cs) = elim (digit_value 10 c) [
  | none ↦ none
  | some d ↦ some (read_digits 10 0 (c ∷ cs))
]

-- A sign and the number behind it: whether it is negative, and its size.
unfoldable pub signed : Text → Option (Bool × ℕ)
signed [] = none
signed (c ∷ cs) =
    if c == b'-'
    then elim (decimal cs) [ none ↦ none | some n ↦ some (true, n) ]
    else elim (decimal (if c == b'+' then cs else c ∷ cs)) [
      | none ↦ none
      | some n ↦ some (false, n)
    ]

-- What the conversions tell: the value, and the flag `pr` that they are given, cleared on failure.
-- A negative number wraps around, as `stoull` documents.
unfoldable pub safe_stoull : Text → Bool → ℕ × Bool
safe_stoull s pr = elim (signed (skip_space s)) [
  | none ↦ (0, false)
  | some (negative, n) ↦
      if ltb n (2 ^ 64) then ((if negative then (2 ^ 64 - n) % 2 ^ 64 else n), pr) else (0, false)
]

-- The result of `stoi`, an `int`, as the `uint32_t` that every caller makes of it.
unfoldable pub safe_stoi : Text → Bool → ℕ × Bool
safe_stoi s pr = elim (signed (skip_space s)) [
  | none ↦ (0, false)
  | some (negative, n) ↦
      if leb n (if negative then 2 ^ 31 else 2 ^ 31 - 1)
      then ((if negative then (2 ^ 32 - n) % 2 ^ 32 else n), pr)
      else (0, false)
]
