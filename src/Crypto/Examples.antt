-- ===== src/Crypto/Examples.antt =====
-- Witnesses for code/crypto_stuff.cpp: a curve whose signature is one byte.
use ohie.Base.{ℕ, ◌≡◌, ◌%◌, ◌/◌, refl, List, [], ◌∷◌, Bool, true, false, arith, length, replicate}
use ohie.Text.{Text, codes}
use ohie.Text.Number.{read_digits, digit_value-digit_char}
use ohie.Crypto.{hex_byte, sign_message, verify_message, ReadsBytes, verify-sign_message}

abbrev strtol : Text → ℕ
strtol t = read_digits 16 0 t

strtol-ReadsBytes : ReadsBytes strtol
unfolding read_digits hex_byte
strtol-ReadsBytes b h =
    rw (digit_value-digit_char 16 (b / 16 % 16) (omega arith) (omega arith), read_digits)
      (rw (digit_value-digit_char 16 (b % 16) (omega arith) (omega arith), read_digits)
        (omega (arith, h)))

abbrev digest : Text → List ℕ
digest t = replicate 32 (length t % 256)

abbrev ecdsa_sign : Text → List ℕ
ecdsa_sign h = length h % 256 ∷ []

abbrev ecdsa_verify : Text → List ℕ → Bool
ecdsa_verify h [] = false
ecdsa_verify h (b ∷ bs) = true

verify-sign_message_example :
    verify_message true true digest strtol ecdsa_verify
      (codes "123")
      (sign_message true true digest ecdsa_sign (codes "123"))
    ≡ true
verify-sign_message_example =
    verify-sign_message true true digest strtol ecdsa_sign ecdsa_verify (codes "123")
      strtol-ReadsBytes (λ h. (omega arith, tt)) (λ h. refl) refl
