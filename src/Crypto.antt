-- ===== src/Crypto.antt =====
-- code/crypto_stuff.cpp: hashes and signatures as text. The digest and the curve of OpenSSL are parameters,
-- and so is `strtol` of the C library. The key is read when the program starts, and is part of the
-- parameters for the curve.
mod Examples
use ohie.Base.{
  ℕ, zero, suc, ◌+◌, ◌*◌, ◌/◌, ◌%◌, ◌^◌, ◌≡◌, ◌<◌, ◌∙◌, refl, ap, List, [], ◌∷◌, ◌++◌, Bool, true,
  false, not, ◌&&◌, ◌||◌, ◌==◌, if◌then◌else◌, length, replicate, All, arith, Bool-cases, inl, inr,
}
use ohie.Text.{Text}
use ohie.Text.Number.{digit_char, digit_value, AllDigits, digit_value-digit_char}

-- DUMMY_SIGNATURE.
abbrev pub dummy_signature : Text
dummy_signature = replicate 128 b'1'

-- `hex << setw(2) << setfill('0')`, for one byte.
unfoldable pub hex_byte : ℕ → Text
hex_byte b = digit_char (b / 16 % 16) ∷ digit_char (b % 16) ∷ []

unfoldable pub hex_bytes : List ℕ → Text
hex_bytes [] = []
hex_bytes (b ∷ bs) = hex_byte b ++ hex_bytes bs

-- `digest` gives the 32 bytes of SHA-256.
unfoldable pub sha256 : (Text → List ℕ) → Text → Text
sha256 digest str = hex_bytes (digest str)

-- Two characters for each byte; one that is left over is not read.
unfoldable pub signature_bytes : (Text → ℕ) → Text → List ℕ
signature_bytes strtol [] = []
signature_bytes strtol (a ∷ []) = []
signature_bytes strtol (a ∷ b ∷ rest) = strtol (a ∷ b ∷ []) % 2 ^ 8 ∷ signature_bytes strtol rest

-- `sign_transactions` and `verify_transactions` are the settings of these names.
module _ (sign_transactions verify_transactions : Bool) (digest : Text → List ℕ) where
  unfoldable pub sign_message : (Text → List ℕ) → Text → Text
  sign_message ecdsa_sign message =
      if not sign_transactions || not verify_transactions
      then dummy_signature
      else hex_bytes (ecdsa_sign (sha256 digest message))

  unfoldable pub verify_message : (Text → ℕ) → (Text → List ℕ → Bool) → Text → Text → Bool
  verify_message strtol ecdsa_verify message signature =
      if not verify_transactions
      then length signature == length dummy_signature
      else ecdsa_verify (sha256 digest message) (signature_bytes strtol signature)

-- A byte comes back from its two digits.
abbrev pub ReadsBytes : (Text → ℕ) → Type 0
ReadsBytes strtol = (b : ℕ) → b < 2 ^ 8 → strtol (hex_byte b) ≡ b

signature_bytes-hex_bytes :
    (strtol : Text → ℕ) (bs : List ℕ)
    → ReadsBytes strtol
    → All (λ b. b < 2 ^ 8) bs
    → signature_bytes strtol (hex_bytes bs) ≡ bs
unfolding signature_bytes hex_bytes hex_byte
signature_bytes-hex_bytes strtol [] r h = refl
signature_bytes-hex_bytes strtol (b ∷ bs) r h =
    rw (r b h.0, signature_bytes-hex_bytes strtol bs r h.1) (ap (λ a. a ∷ bs) (omega (arith, h.0)))

-- A message that was signed passes the check of its signature, if the settings do not ask for
-- checks without signatures. The curve accepts what it signed for the same hash, in bytes, and
-- `strtol` reads back the two digits of a byte.
pub verify-sign_message :
    (sign_transactions verify_transactions : Bool) (digest : Text → List ℕ) (strtol : Text → ℕ)
    (ecdsa_sign : Text → List ℕ) (ecdsa_verify : Text → List ℕ → Bool) (message : Text)
    → ReadsBytes strtol
    → ((h : Text) → All (λ b. b < 2 ^ 8) (ecdsa_sign h))
    → ((h : Text) → ecdsa_verify h (ecdsa_sign h) ≡ true)
    → (sign_transactions || not verify_transactions) ≡ true
    → verify_message sign_transactions verify_transactions digest strtol ecdsa_verify message
        (sign_message sign_transactions verify_transactions digest ecdsa_sign message)
      ≡ true
unfolding sign_message verify_message
verify-sign_message true true digest strtol ecdsa_sign ecdsa_verify message r bytes accepts ok =
    let h = sha256 digest message in
    ap (ecdsa_verify h) (signature_bytes-hex_bytes strtol (ecdsa_sign h) r (bytes h)) ∙ accepts h
verify-sign_message false true digest strtol ecdsa_sign ecdsa_verify message r bytes accepts ok = cc
verify-sign_message true false digest strtol ecdsa_sign ecdsa_verify message r bytes accepts ok =
    refl
verify-sign_message false false digest strtol ecdsa_sign ecdsa_verify message r bytes accepts ok =
    refl

hex_bytes-AllDigits :
    (bs : List ℕ) → AllDigits 16 (hex_bytes bs) × (length (hex_bytes bs) ≡ 2 * length bs)
unfolding hex_bytes hex_byte
hex_bytes-AllDigits [] = (tt, refl)
hex_bytes-AllDigits (b ∷ bs) =
    let (d, n) = hex_bytes-AllDigits bs in
    (
      (
        (b / 16 % 16, digit_value-digit_char 16 (b / 16 % 16) (omega arith) (omega arith)),
        ((b % 16, digit_value-digit_char 16 (b % 16) (omega arith) (omega arith)), d),
      ),
      omega (arith, n),
    )

-- A hash is a text of 64 hexadecimal digits, as the readers of block hashes and chain numbers need it.
pub sha256-AllDigits :
    (digest : Text → List ℕ) (str : Text)
    → length (digest str) ≡ 32
    → AllDigits 16 (sha256 digest str) × (length (sha256 digest str) ≡ 64)
unfolding sha256
sha256-AllDigits digest str h =
    let (d, n) = hex_bytes-AllDigits (digest str) in (d, omega (arith, n, h))
