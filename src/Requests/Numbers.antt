-- ===== src/Requests/Numbers.antt =====
-- code/requests.cpp: numbers in messages, written by `to_string` and read by code/misc.cpp.
use ohie.Base.{
  ℕ, suc, ◌^◌, ◌<◌, ◌≡◌, ◌≢◌, ◌∙◌, ap, [], ◌∷◌, Bool, false, some, arith, length, length-append,
  ◌/◌, ◌%◌,
}
use ohie.Text.{Text}
use ohie.Text.Split.{Without}
use ohie.Text.Number.{
  digit_value, digit_char, read_digits, to_digits, to_string, skip_space, decimal, signed,
  safe_stoi, safe_stoull, AllDigits, to_digits-AllDigits, read_digits-to_digits,
}

-- A text that begins with a digit is a number without space or sign.
signed_digits :
    (c d : ℕ) (cs : Text)
    → digit_value 10 c ≡ some d
    → signed (skip_space (c ∷ cs)) ≡ some (false, read_digits 10 0 (c ∷ cs))
unfolding digit_value skip_space signed decimal read_digits
signed_digits c d cs h = ground arith

pub to_digits_size : (base fuel n : ℕ) → 0 < length (to_digits base (suc fuel) n)
unfolding to_digits
to_digits_size base fuel n =
    ground (arith, length-append (to_digits base fuel (n / base)) (digit_char (n % base) ∷ []))

signed-AllDigits :
    (t : Text)
    → 0 < length t
    → AllDigits 10 t
    → signed (skip_space t) ≡ some (false, read_digits 10 0 t)
signed-AllDigits [] h k = elim h [ ]
signed-AllDigits (c ∷ cs) h ((d, e), k) = signed_digits c d cs e

signed-to_string : (n : ℕ) → n < 2 ^ 64 → signed (skip_space (to_string n)) ≡ some (false, n)
unfolding to_string
signed-to_string n h =
    signed-AllDigits (to_string n) (to_digits_size 10 19 n)
      (to_digits-AllDigits 10 20 n (omega arith) (omega arith))
    ∙ ap (λ (m : ℕ). some (false, m))
        (read_digits-to_digits 10 20 n (omega arith) (omega arith) (omega arith))

-- A number below 2^64 is read back by `safe_stoull`, and one below 2^31 by `safe_stoi`.
pub safe_stoull-to_string :
    (n : ℕ) (pr : Bool) → n < 2 ^ 64 → safe_stoull (to_string n) pr ≡ (n, pr)
unfolding safe_stoull
safe_stoull-to_string n pr h = rw (signed-to_string n h, safe_stoull) (ground arith)

pub safe_stoi-to_string : (n : ℕ) (pr : Bool) → n < 2 ^ 31 → safe_stoi (to_string n) pr ≡ (n, pr)
unfolding safe_stoi
safe_stoi-to_string n pr h =
    let big : n < 2 ^ 64 = omega arith in rw (signed-to_string n big, safe_stoi) (ground arith)

digit_not : (c d x : ℕ) → digit_value 10 c ≡ some d → x < 48 → c ≢ x
unfolding digit_value
digit_not c d x h k e = ground arith

AllDigits-Without : (t : Text) (x : ℕ) → AllDigits 10 t → x < 48 → Without x t
AllDigits-Without [] x h k = tt
AllDigits-Without (c ∷ t) x ((d, e), h) k = (digit_not c d x e k, AllDigits-Without t x h k)

-- No comma in a number.
pub to_string-Without : (n : ℕ) → Without b',' (to_string n)
unfolding to_string
to_string-Without n =
    AllDigits-Without (to_string n) b',' (to_digits-AllDigits 10 20 n (omega arith) (omega arith))
      (omega arith)

pub to_string_nonempty : (n : ℕ) → to_string n ≢ []
unfolding to_string
to_string_nonempty n e = absurd (omega (arith, to_digits_size 10 19 n, ap length e))
