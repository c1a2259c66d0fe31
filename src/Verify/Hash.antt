-- ===== src/Verify/Hash.antt =====
-- code/verify.cpp: `blockhash_to_string`, `string_to_blockhash`, `get_chain_id_from_hash`.
use ohie.Base.{
  length-replicate, ℕ, zero, suc, ◌/◌, ◌-◌, ◌^◌, ◌%◌, ◌≤◌, ◌<◌, ◌≡◌, refl, ap, List, [], ◌∷◌, ◌++◌,
  arith, length, length-append, take, drop, replicate, ltb, if◌then◌else◌,
}
use ohie.Text.{Text}
use ohie.Text.Number.{to_digits, read_digits, digit_value, digit_char, read_digits-to_digits}

-- A `BlockHash` has 8 bytes: 16 hexadecimal digits, with zeros in front.
unfoldable pub blockhash_to_string : ℕ → Text
blockhash_to_string b =
    let hash = to_digits 16 16 b in
    if ltb (length hash) 16 then replicate (16 - length hash) b'0' ++ hash else hash

-- `stoull(h.substr(0, 16), nullptr, 16)` on a text that begins with 16 hexadecimal digits.
unfoldable pub string_to_blockhash : Text → ℕ
string_to_blockhash h = read_digits 16 0 (take 16 h)

-- `stoi(h.substr(58), nullptr, 16) % CHAINS`, on the 64 digits that `sha256` returns.
unfoldable pub get_chain_id_from_hash : ℕ → Text → ℕ
get_chain_id_from_hash chains h = read_digits 16 0 (drop 58 h) % chains

pub length-to_digits : (base fuel n : ℕ) → length (to_digits base fuel n) ≤ fuel
unfolding to_digits
length-to_digits base zero n = omega arith
length-to_digits base (suc fuel) n = ground (
  arith,
  length-to_digits base fuel (n / base),
  length-append (to_digits base fuel (n / base)) (digit_char (n % base) ∷ []),
)

-- Every block hash is a text of 16 characters.
pub length-blockhash_to_string : (b : ℕ) → length (blockhash_to_string b) ≡ 16
unfolding blockhash_to_string
length-blockhash_to_string b = ground (
  arith,
  length-to_digits 16 16 b,
  length-append (replicate (16 - length (to_digits 16 16 b)) b'0') (to_digits 16 16 b),
  length-replicate {A = ℕ} (16 - length (to_digits 16 16 b)) b'0',
)

-- Zeros in front add nothing.
read_digits-replicate :
    (n : ℕ) (s : Text) → read_digits 16 0 (replicate n b'0' ++ s) ≡ read_digits 16 0 s
unfolding read_digits digit_value
read_digits-replicate zero s = refl
read_digits-replicate (suc n) s = read_digits-replicate n s

read_digits-blockhash : (b : ℕ) → b < 2 ^ 64 → read_digits 16 0 (blockhash_to_string b) ≡ b
unfolding blockhash_to_string
read_digits-blockhash b h = ground (
  arith,
  read_digits-replicate (16 - length (to_digits 16 16 b)) (to_digits 16 16 b),
  read_digits-to_digits 16 16 b (omega arith) (omega arith) h,
)

take_all {ℓ} : {A : Type ℓ} (n : ℕ) (xs ys : List A) → length xs ≡ n → take n (xs ++ ys) ≡ xs
take_all zero [] ys h = refl
take_all zero (x ∷ xs) ys h = absurd (omega arith)
take_all (suc n) [] ys h = absurd (omega arith)
take_all (suc n) (x ∷ xs) ys h = ap (◌∷◌ x) (take_all n xs ys (omega arith))

-- A block hash below 2^64 comes back from its text, whatever text follows.
pub string_to_blockhash-blockhash_to_string :
    (b : ℕ) (rest : Text) → b < 2 ^ 64 → string_to_blockhash (blockhash_to_string b ++ rest) ≡ b
unfolding string_to_blockhash
string_to_blockhash-blockhash_to_string b rest h =
    rw (take_all 16 (blockhash_to_string b) rest (length-blockhash_to_string b))
      (read_digits-blockhash b h)
