-- ===== src/Verify/Examples.antt =====
-- Witnesses for code/verify.cpp: four leaves, and a function that puts the length before a text.
use ohie.Base.{ℕ, ◌⊎◌, ◌≡◌, refl, List, [], ◌∷◌, true, some, arith, length}
use ohie.Text.{Text, text_eq}
use ohie.Text.Number.{to_digits, digit_char}
use ohie.Verify.Hash.{blockhash_to_string}
use ohie.Verify.Merkle.{
  compute_merkle_tree_root, compute_merkle_proof, verify_loop, verify_merkle_proof,
}
use ohie.Verify.Merkle.Binding.{Collision, verify_merkle_proof_binds}
use ohie.Verify.Merkle.Complete.{verify-compute_merkle_proof}

abbrev toy_hash : Text → Text
toy_hash t = length t ∷ t

abbrev leaves : List Text
leaves =
    blockhash_to_string 11
    ∷ blockhash_to_string 22
    ∷ blockhash_to_string 33
    ∷ blockhash_to_string 44
    ∷ []

verify-compute_merkle_proof_example :
    (root : Text) × (proof : List Text) × (compute_merkle_tree_root toy_hash leaves ≡ some root)
    × (compute_merkle_proof toy_hash leaves 2 ≡ some proof)
    × (verify_merkle_proof toy_hash proof 33 root 2 ≡ some true)
verify-compute_merkle_proof_example = verify-compute_merkle_proof toy_hash 2 leaves 2 33 refl refl

-- The first two characters.
abbrev front : Text → Text
front [] = 0 ∷ 0 ∷ []
front (c ∷ []) = c ∷ 0 ∷ []
front (c ∷ d ∷ t) = c ∷ d ∷ []

length-front : (t : Text) → length (front t) ≡ 2
length-front [] = refl
length-front (c ∷ []) = refl
length-front (c ∷ d ∷ t) = refl

-- Two proofs that differ in the sibling.
abbrev proof_of : ℕ → List Text
proof_of sibling =
    blockhash_to_string 11 ∷ blockhash_to_string sibling ∷ front (blockhash_to_string 11) ∷ []

verify_merkle_proof_binds_example : (◌≡◌ {A = ℕ} 11 11) ⊎ Collision front
unfolding verify_merkle_proof verify_loop text_eq blockhash_to_string to_digits digit_char
verify_merkle_proof_binds_example =
    verify_merkle_proof_binds front 2 length-front (proof_of 22) (proof_of 33) 11 11
      (front (blockhash_to_string 11)) 0 refl (omega arith) (omega arith) refl refl
