-- ===== src/Verify/Merkle/Binding.antt =====
-- code/verify.cpp: a root binds the leaf at a place.
use ohie.Base.{
  ℕ, suc, ◌/◌, ◌%◌, ◌^◌, ◌<◌, ◌≡◌, ◌≢◌, ◌⊎◌, inl, inr, refl, sym, ap, ◌∙◌, List, [], ◌∷◌, ◌++◌,
  true, some, ◌==◌, if◌then◌else◌, length, arith, Bool-cases, length-append, true≢false,
}
use ohie.Text.{Text, text_eq, eq_of_text_eq, text_eq_refl}
use ohie.Verify.Hash.{
  blockhash_to_string, length-blockhash_to_string, string_to_blockhash,
  string_to_blockhash-blockhash_to_string,
}
use ohie.Verify.Merkle.{verify_loop, verify_merkle_proof}

-- Two texts with the same hash.
abbrev pub Collision : (Text → Text) → Type 0
Collision sha256 = (s : Text) × (t : Text) × (s ≢ t) × (sha256 s ≡ sha256 t)

front_of_append : (a b x y : Text) → length a ≡ length b → a ++ x ≡ b ++ y → a ≡ b
front_of_append [] [] x y h e = refl
front_of_append [] (d ∷ b) x y h e = absurd (omega (arith, h))
front_of_append (c ∷ a) [] x y h e = absurd (omega (arith, h))
front_of_append (c ∷ a) (d ∷ b) x y h e =
    let p : c ≡ d = cc in
    let q : a ++ x ≡ b ++ y = cc in let r = front_of_append a b x y (omega (arith, h)) q in cc

rest_of_append : (x y a b : Text) → length x ≡ length y → x ++ a ≡ y ++ b → a ≡ b
rest_of_append [] [] a b h e = e
rest_of_append [] (d ∷ y) a b h e = absurd (omega (arith, h))
rest_of_append (c ∷ x) [] a b h e = absurd (omega (arith, h))
rest_of_append (c ∷ x) (d ∷ y) a b h e =
    let q : x ++ a ≡ y ++ b = cc in rest_of_append x y a b (omega (arith, h)) q

back_of_append : (x y a b : Text) → length a ≡ length b → x ++ a ≡ y ++ b → a ≡ b
back_of_append x y a b h e =
    rest_of_append x y a b (omega (arith, h, length-append x a, length-append y b, ap length e)) e

blockhash_to_string_injective :
    (b c : ℕ) → b < 2 ^ 64 → c < 2 ^ 64 → blockhash_to_string b ≡ blockhash_to_string c → b ≡ c
blockhash_to_string_injective b c lt lt' e =
    sym (string_to_blockhash-blockhash_to_string b [] lt)
    ∙ ap (λ (t : Text). string_to_blockhash (t ++ [])) e
    ∙ string_to_blockhash-blockhash_to_string c [] lt'

module _ (sha256 : Text → Text) (n : ℕ) (sized : (t : Text) → length (sha256 t) ≡ n) where
  -- Equal hashes are of equal texts, or a collision.
  same_or_Collision : (s t : Text) → sha256 s ≡ sha256 t → (s ≡ t) ⊎ Collision sha256
  same_or_Collision s t e = elim (Bool-cases (text_eq s t)) [
    | inl q ↦ inl (eq_of_text_eq s t q)
    | inr q ↦
        inr (s, t, λ k. true≢false (sym (text_eq_refl t) ∙ ap (λ u. text_eq u t) (sym k) ∙ q), e)
  ]

  pair : ℕ → Text → Text → Text
  pair index x h = if index % 2 == 1 then x ++ h else h ++ x

  pair_binds :
      (index : ℕ) (x y h k : Text) → length h ≡ length k → pair index x h ≡ pair index y k → h ≡ k
  unfolding pair
  pair_binds index x y h k l e = elim (Bool-cases (index % 2 == 1)) [
    | inl q ↦ back_of_append x y h k l (rw q at e)
    | inr q ↦ front_of_append h k x y l (rw q at e)
  ]

  verify_loop-pair :
      (root x y h : Text) (index : ℕ) (p : List Text)
      → verify_loop sha256 root h index (x ∷ y ∷ p)
        ≡ verify_loop sha256 root (sha256 (pair index x h)) (index / 2) (y ∷ p)
  unfolding verify_loop pair
  verify_loop-pair root x y h index p = elim (Bool-cases (index % 2 == 1)) [
    | inl q ↦ rw q refl
    | inr q ↦ rw q refl
  ]

  verify_loop_empty : (root h : Text) (index : ℕ) → verify_loop sha256 root h index [] ≢ some true
  unfolding verify_loop
  verify_loop_empty root h index e = cc

  verify_loop_end :
      (root x h : Text) (index : ℕ)
      → verify_loop sha256 root h index (x ∷ []) ≡ some true
      → root ≡ h
  unfolding verify_loop
  verify_loop_end root x h index e = ground (arith, e, eq_of_text_eq root h)

  -- Two accepted proofs of one length, from equally long texts.
  verify_loop_binds :
      (root h k : Text) (index : ℕ) (p q : List Text)
      → length p ≡ length q
      → length h ≡ length k
      → verify_loop sha256 root h index p ≡ some true
      → verify_loop sha256 root k index q ≡ some true
      → (h ≡ k) ⊎ Collision sha256
  verify_loop_binds root h k index [] q l m e f = absurd (verify_loop_empty root h index e)
  verify_loop_binds root h k index (x ∷ p) [] l m e f = absurd (omega (arith, l))
  verify_loop_binds root h k index (x ∷ []) (y ∷ []) l m e f =
      inl (sym (verify_loop_end root x h index e) ∙ verify_loop_end root y k index f)
  verify_loop_binds root h k index (x ∷ []) (y ∷ y' ∷ q) l m e f = absurd (omega (arith, l))
  verify_loop_binds root h k index (x ∷ x' ∷ p) (y ∷ []) l m e f = absurd (omega (arith, l))
  verify_loop_binds root h k index (x ∷ x' ∷ p) (y ∷ y' ∷ q) l m e f =
      let above =
        verify_loop_binds root (sha256 (pair index x h)) (sha256 (pair index y k)) (index / 2)
          (x' ∷ p) (y' ∷ q) (omega (arith, l)) (sized _ ∙ sym (sized _))
          (sym (verify_loop-pair root x x' h index p) ∙ e)
          (sym (verify_loop-pair root y y' k index q) ∙ f) in
      elim above [
        | inr c ↦ inr c
        | inl same ↦ elim (same_or_Collision _ _ same) [
          | inr c ↦ inr c
          | inl pairs ↦ inl (pair_binds index x y h k m pairs)
        ]
      ]

  -- What an accepted proof is: the loop accepts all of it but the first entry.
  verify_merkle_proof_loop :
      (p : List Text) (bh : ℕ) (root : Text) (index : ℕ)
      → verify_merkle_proof sha256 p bh root index ≡ some true
      → (p' : List Text) × (verify_loop sha256 root (blockhash_to_string bh) index p' ≡ some true)
        × (length p ≡ suc (length p'))
  unfolding verify_merkle_proof
  verify_merkle_proof_loop [] bh root index e = cc
  verify_merkle_proof_loop (x ∷ []) bh root index e = cc
  verify_merkle_proof_loop (x ∷ y ∷ p) bh root index e = (y ∷ p, ground (arith, e), refl)

  -- If all hashes are of one length, and the check accepts two proofs of one length for the same
  -- root and the same index, then they are for the same block hash, or two different texts with
  -- the same hash are at hand. Block hashes are below 2^64.
  pub verify_merkle_proof_binds :
      (p q : List Text) (bh bh' : ℕ) (root : Text) (index : ℕ)
      → length p ≡ length q
      → bh < 2 ^ 64
      → bh' < 2 ^ 64
      → verify_merkle_proof sha256 p bh root index ≡ some true
      → verify_merkle_proof sha256 q bh' root index ≡ some true
      → (bh ≡ bh') ⊎ Collision sha256
  verify_merkle_proof_binds p q bh bh' root index l lt lt' e f =
      let (p', ep, np) = verify_merkle_proof_loop p bh root index e in
      let (q', eq, nq) = verify_merkle_proof_loop q bh' root index f in
      let h = blockhash_to_string bh in
      let k = blockhash_to_string bh' in
      elim (verify_loop_binds root h k index p' q' (omega arith)
        (length-blockhash_to_string bh ∙ sym (length-blockhash_to_string bh')) ep eq) [
          | inr c ↦ inr c
          | inl same ↦ inl (blockhash_to_string_injective bh bh' lt lt' same)
        ]
