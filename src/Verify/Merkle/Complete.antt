-- ===== src/Verify/Merkle/Complete.antt =====
-- code/verify.cpp: the check of the proofs that are computed for a full tree.
use ohie.Base.{
  ℕ, zero, suc, ◌+◌, ◌-◌, ◌*◌, ◌/◌, ◌%◌, ◌^◌, ◌≤◌, ◌<◌, ◌≡◌, ◌∙◌, refl, ap, List, [], ◌∷◌, ◌++◌,
  true, some, ◌==◌, if◌then◌else◌, get_elem?, length, arith, Bool-cases, inl, inr, lt-of_get_elem?,
}
use native.Mathlib.Nat.{pow-zero, pow-suc}
use ohie.Text.{Text, text_eq_refl}
use ohie.Verify.Hash.{blockhash_to_string}
use ohie.Verify.Merkle.{
  hash_pairs, root_loop, compute_merkle_tree_root, adj_index, push_sibling, proof_loop,
  compute_merkle_proof, verify_loop, verify_merkle_proof,
}

module _ (sha256 : Text → Text) where
  push_sibling_none : (adj i : ℕ) (l : List Text) → adj < 2 * i → push_sibling sha256 adj i l ≡ []
  unfolding push_sibling
  push_sibling_none adj i [] h = refl
  push_sibling_none adj i (a ∷ []) h = refl
  push_sibling_none adj i (a ∷ b ∷ r) h = ground (arith, push_sibling_none adj (suc i) r)

  -- The pair at position `j`: its two texts, its hash one level up, and what it adds to a proof.
  record PairAt (l : List Text) (j i : ℕ) : Type 0 where
    left : Text
    right : Text
    at_left : get_elem? l (2 * j) ≡ some left
    at_right : get_elem? l (2 * j + 1) ≡ some right
    up : get_elem? (hash_pairs sha256 l) j ≡ some (sha256 (left ++ right))
    push_left : (adj : ℕ) → adj ≡ 2 * j + 2 * i → push_sibling sha256 adj i l ≡ left ∷ []
    push_right : (adj : ℕ) → adj ≡ 2 * j + 2 * i + 1 → push_sibling sha256 adj i l ≡ right ∷ []

  pair_at : (l : List Text) (j i : ℕ) → 2 * j + 1 < length l → PairAt l j i
  unfolding push_sibling hash_pairs
  pair_at [] j i h = elim h [ ]
  pair_at (a ∷ []) j i h = absurd (omega arith)
  pair_at (a ∷ b ∷ r) zero i h = record {
    left = a;
    right = b;
    at_left = refl;
    at_right = refl;
    up = refl;
    push_left = λ adj e. ground (arith, push_sibling_none adj (suc i) r);
    push_right = λ adj e. ground (arith, push_sibling_none adj (suc i) r);
  }
  pair_at (a ∷ b ∷ r) (suc j) i h =
      let p = pair_at r j (suc i) (omega arith) in
      record {
        left = p.left;
        right = p.right;
        at_left = let e : 2 * suc j ≡ suc (suc (2 * j)) = omega arith in rw e p.at_left;
        at_right = let e : 2 * suc j + 1 ≡ suc (suc (2 * j + 1)) = omega arith in rw e p.at_right;
        up = p.up;
        push_left = λ adj e. ground (arith, p.push_left adj);
        push_right = λ adj e. ground (arith, p.push_right adj);
      }

  length-hash_pairs : (l : List Text) → length (hash_pairs sha256 l) ≡ length l / 2
  unfolding hash_pairs
  length-hash_pairs [] = omega arith
  length-hash_pairs (a ∷ []) = omega arith
  length-hash_pairs (a ∷ b ∷ r) = omega (arith, length-hash_pairs r)

  -- One level: the sibling that goes into the proof makes the hash one level up.
  abbrev combine : ℕ → Text → Text → Text
  combine index h sibling = if index % 2 == 1 then sha256 (sibling ++ h) else sha256 (h ++ sibling)

  sibling_at :
      (l : List Text) (index m : ℕ) (h : Text)
      → length l ≡ 2 * m
      → get_elem? l index ≡ some h
      → index < length l
      → (sibling : Text) × (push_sibling sha256 (adj_index sha256 index) 0 l ≡ sibling ∷ [])
        × (get_elem? (hash_pairs sha256 l) (index / 2) ≡ some (combine index h sibling))
  unfolding adj_index
  sibling_at l index m h even e lt = elim (Bool-cases (index % 2 == 1)) [
    | inl odd ↦
        let j : ℕ = index / 2 in
        let p = pair_at l j 0 (ground arith) in
        let at : 2 * j + 1 ≡ index = ground arith in
        let q : p.right ≡ h = ground (arith, p.at_right, ap (get_elem? l) at) in
        (p.left, rw odd (p.push_left (index - 1) (ground arith)), rw (odd, ← q) p.up)
    | inr is_even ↦
        let j : ℕ = index / 2 in
        let p = pair_at l j 0 (ground arith) in
        let at : 2 * j ≡ index = ground arith in
        let q : p.left ≡ h = ground (arith, p.at_left, ap (get_elem? l) at) in
        (p.right, rw is_even (p.push_right (index + 1) (ground arith)), rw (is_even, ← q) p.up)
  ]

  record Accepts (fuel : ℕ) (l : List Text) (index : ℕ) (h : Text) : Type 0 where
    root : Text
    first : Text
    rest : List Text
    is_root : root_loop sha256 fuel l ≡ some root
    is_proof : proof_loop sha256 fuel l index ≡ some (first ∷ rest)
    verifies : verify_loop sha256 root h index (first ∷ rest) ≡ some true

  Accepts-one :
      (fuel : ℕ) (l : List Text) (index : ℕ) (h : Text)
      → length l ≡ 1
      → get_elem? l index ≡ some h
      → Accepts fuel l index h
  unfolding root_loop proof_loop verify_loop
  Accepts-one fuel [] index h n e = absurd (omega arith)
  Accepts-one fuel (x ∷ []) zero h n e =
      let q : x ≡ h = ground arith in
      record {
        root = x;
        first = x;
        rest = [];
        is_root = refl;
        is_proof = refl;
        verifies = rw (q, text_eq_refl h);
      }
  Accepts-one fuel (x ∷ []) (suc i) h n e = cc
  Accepts-one fuel (x ∷ y ∷ r) index h n e = absurd (omega arith)

  Accepts-step :
      (fuel : ℕ) (x y : Text) (r : List Text) (index : ℕ) (h sibling : Text)
      → push_sibling sha256 (adj_index sha256 index) 0 (x ∷ y ∷ r) ≡ sibling ∷ []
      → Accepts fuel (hash_pairs sha256 (x ∷ y ∷ r)) (index / 2) (combine index h sibling)
      → Accepts (suc fuel) (x ∷ y ∷ r) index h
  unfolding root_loop proof_loop verify_loop
  Accepts-step fuel x y r index h sibling e a = record {
    root = a.root;
    first = sibling;
    rest = a.first ∷ a.rest;
    is_root = a.is_root;
    is_proof = rw (a.is_proof, e) refl;
    verifies = a.verifies;
  }

  accepts :
      (k fuel : ℕ) (l : List Text) (index : ℕ) (h : Text)
      → k ≤ fuel
      → length l ≡ 2 ^ k
      → get_elem? l index ≡ some h
      → index < length l
      → Accepts fuel l index h
  accepts zero fuel l index h f n e lt = Accepts-one fuel l index h (n ∙ pow-zero 2) e
  accepts (suc k) zero l index h f n e lt = absurd (omega arith)
  accepts (suc k) (suc fuel) [] index h f n e lt = elim lt [ ]
  accepts (suc k) (suc fuel) (x ∷ []) index h f n e lt = absurd (omega (arith, pow-suc 2 k))
  accepts (suc k) (suc fuel) (x ∷ y ∷ r) index h f n e lt =
      let (sibling, pushed, up) =
        sibling_at (x ∷ y ∷ r) index (2 ^ k) h (omega (arith, pow-suc 2 k)) e lt in
      let size = length-hash_pairs (x ∷ y ∷ r) in
      let half : length (hash_pairs sha256 (x ∷ y ∷ r)) ≡ 2 ^ k =
        omega (arith, pow-suc 2 k, size) in
      Accepts-step fuel x y r index h sibling pushed (
        accepts k fuel (hash_pairs sha256 (x ∷ y ∷ r)) (index / 2) (combine index h sibling)
          (omega arith) half up (omega (arith, pow-suc 2 k)))

  le_two_pow : (k : ℕ) → k < 2 ^ k
  le_two_pow zero = omega (arith, pow-zero 2)
  le_two_pow (suc k) = omega (arith, pow-suc 2 k, le_two_pow k)

  -- For a full tree of 2 ^ k leaves, where the leaf at an index is a block hash: the miner's root
  -- and proof are computed within the fuel given, and the check of the proof at that index
  -- accepts it.
  pub verify-compute_merkle_proof :
      (k : ℕ) (leaves : List Text) (index bh : ℕ)
      → length leaves ≡ 2 ^ k
      → get_elem? leaves index ≡ some (blockhash_to_string bh)
      → (root : Text) × (proof : List Text) × (compute_merkle_tree_root sha256 leaves ≡ some root)
        × (compute_merkle_proof sha256 leaves index ≡ some proof)
        × (verify_merkle_proof sha256 proof bh root index ≡ some true)
  unfolding compute_merkle_tree_root compute_merkle_proof verify_merkle_proof
  verify-compute_merkle_proof k leaves index bh n e =
      let a =
        accepts k (length leaves) leaves index (blockhash_to_string bh)
          (omega (arith, le_two_pow k)) n e (lt-of_get_elem? leaves index e) in
      (
        a.root,
        blockhash_to_string bh ∷ a.first ∷ a.rest,
        a.is_root,
        rw (e, a.is_proof) refl,
        rw text_eq_refl a.verifies,
      )
