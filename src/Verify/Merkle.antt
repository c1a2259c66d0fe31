-- ===== src/Verify/Merkle.antt =====
-- code/verify.cpp: the Merkle tree of the last blocks of all chains, and its proofs. `sha256` is
-- OpenSSL's, a parameter; `none` is a read past the end of a vector.
pub mod Complete
pub mod Binding
use ohie.Base.{
  ℕ, zero, suc, ◌+◌, ◌-◌, ◌*◌, ◌/◌, ◌%◌, List, [], ◌∷◌, ◌++◌, Bool, true, false, not, ◌&&◌, Option,
  none, some, ◌==◌, if◌then◌else◌, ◌>>=◌, get_elem?, length,
}
use ohie.Text.{Text, text_eq}
use ohie.Verify.Hash.{blockhash_to_string}

module _ (sha256 : Text → Text) where
  -- One round of the loop over the pairs; an element that is left over is dropped.
  unfoldable pub hash_pairs : List Text → List Text
  hash_pairs [] = []
  hash_pairs (a ∷ []) = []
  hash_pairs (a ∷ b ∷ r) = sha256 (a ++ b) ∷ hash_pairs r

  -- `while (tmp.size() > 1)`; the fuel bounds the rounds.
  unfoldable pub root_loop : ℕ → List Text → Option Text
  root_loop fuel [] = none
  root_loop fuel (x ∷ []) = some x
  root_loop zero (x ∷ y ∷ r) = none
  root_loop (suc fuel) (x ∷ y ∷ r) = root_loop fuel (hash_pairs (x ∷ y ∷ r))

  unfoldable pub compute_merkle_tree_root : List Text → Option Text
  compute_merkle_tree_root leaves = root_loop (length leaves) leaves

  -- The other one of the pair.
  unfoldable pub adj_index : ℕ → ℕ
  adj_index index = if index % 2 == 1 then index - 1 else index + 1

  -- What the loop over the pairs, from the pair `i`, adds to the proof.
  unfoldable pub push_sibling : ℕ → ℕ → List Text → List Text
  push_sibling adj i [] = []
  push_sibling adj i (a ∷ []) = []
  push_sibling adj i (a ∷ b ∷ r) =
      let rest = push_sibling adj (suc i) r in
      if 2 * i == adj then a ∷ rest else if 2 * i + 1 == adj then b ∷ rest else rest

  unfoldable pub proof_loop : ℕ → List Text → ℕ → Option (List Text)
  proof_loop fuel [] index = none
  proof_loop fuel (x ∷ []) index = some (x ∷ [])
  proof_loop zero (x ∷ y ∷ r) index = none
  proof_loop (suc fuel) (x ∷ y ∷ r) index = do
    rest ← proof_loop fuel (hash_pairs (x ∷ y ∷ r)) (index / 2)
    some (push_sibling (adj_index index) 0 (x ∷ y ∷ r) ++ rest)

  unfoldable pub compute_merkle_proof : List Text → ℕ → Option (List Text)
  compute_merkle_proof leaves index = do
    leaf ← get_elem? leaves index
    rest ← proof_loop (length leaves) leaves index
    some (leaf ∷ rest)

  -- The loop from `i`, the list what is left of the proof, and the two tests behind it.
  unfoldable pub verify_loop : Text → Text → ℕ → List Text → Option Bool
  verify_loop root h index [] = none
  verify_loop root h index (x ∷ []) = some (text_eq x h && text_eq root h)
  verify_loop root h index (x ∷ y ∷ r) =
      verify_loop root (if index % 2 == 1 then sha256 (x ++ h) else sha256 (h ++ x)) (index / 2)
        (y ∷ r)

  unfoldable pub verify_merkle_proof : List Text → ℕ → Text → ℕ → Option Bool
  verify_merkle_proof [] bh root index = none
  verify_merkle_proof (p ∷ []) bh root index = none
  verify_merkle_proof (p ∷ q ∷ r) bh root index =
      let h = blockhash_to_string bh in
      if not (text_eq p h) && not (text_eq q h)
      then some false
      else verify_loop root h index (q ∷ r)
