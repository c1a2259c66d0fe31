-- ===== src/Requests/Payload/Short.antt =====
-- code/requests.cpp: what `parse__full_block` does with a message of any number of fields.
use ohie.Base.{
  ℕ, zero, suc, ◌+◌, ◌≤◌, ◌<◌, ◌≡◌, ◌⊎◌, inl, inr, refl, List, [], ◌∷◌, ◌++◌, true, false, Option,
  none, some, arith, length, get_elem?, ltb, ◌>>=◌, sym, subst,
}
use ohie.Config.{Config}
use ohie.StdMap.{Entries, lookup, insert}
use ohie.Text.{Text}
use ohie.Text.Order.{text_order}
use ohie.Requests.{Parsed, key_present}
use ohie.Requests.Payload.{FullBlock, parse__full_block}

get_elem?_inside {ℓ} :
    {A : Type ℓ} (xs : List A) (i : ℕ) → i < length xs → (a : A) × (get_elem? xs i ≡ some a)
get_elem?_inside [] i h = elim h [ ]
get_elem?_inside (x ∷ xs) zero h = (x, refl)
get_elem?_inside (x ∷ xs) (suc i) h = get_elem?_inside xs i (omega (arith, h))

get_elem?_outside {ℓ} : {A : Type ℓ} (xs : List A) (i : ℕ) → length xs ≤ i → get_elem? xs i ≡ none
get_elem?_outside [] i h = refl
get_elem?_outside (x ∷ xs) zero h = absurd (omega (arith, h))
get_elem?_outside (x ∷ xs) (suc i) h = get_elem?_outside xs i (omega (arith, h))

-- A step that does not fail.
pub pass {ℓ κ μ} :
    {A : Type ℓ} {B : Type κ} (P : Option B → Type μ) (f : A → Option B) {m : Option A} {a : A}
    → m ≡ some a
    → P (f a)
    → P (m >>= f)
pass P f e k = subst (λ o. P (o >>= f)) (sym e) k

trichotomy : (a b : ℕ) → (a < b) ⊎ (a ≡ b) ⊎ (b < a)
trichotomy a b = ground arith

module _ (cfg : Config) (get_ip : Text → Text) (mpl : ℕ) (sp : List Text)
    (passed : Entries Text ℕ) where
  parse_few :
      length sp < 11 + mpl → parse__full_block cfg get_ip mpl sp passed ≡ some (passed, none)
  unfolding parse__full_block
  parse_few h =
      let e : ltb (length sp) (11 + mpl) ≡ true = ground arith in rw (e, parse__full_block) refl

  module _ (s0 s1 s2 s3 s4 : Text) (e0 : get_elem? sp 0 ≡ some s0) (e1 : get_elem? sp 1 ≡ some s1)
      (e2 : get_elem? sp 2 ≡ some s2) (e3 : get_elem? sp 3 ≡ some s3)
      (e4 : get_elem? sp 4 ≡ some s4)
      (new : key_present (s0 ++ s1 ++ s2 ++ s3 ++ s4) passed
        ≡ (false, insert (s0 ++ s1 ++ s2 ++ s3 ++ s4) 1 passed)) where
    parse_one_less : length sp ≡ 11 + mpl → parse__full_block cfg get_ip mpl sp passed ≡ none
    unfolding parse__full_block
    parse_one_less h =
        let e : ltb (length sp) (11 + mpl) ≡ false = ground arith in
        let (t5, e5) = get_elem?_inside sp 5 (omega arith) in
        let (t6, e6) = get_elem?_inside sp 6 (omega arith) in
        let (t7, e7) = get_elem?_inside sp 7 (omega arith) in
        let (t8, e8) = get_elem?_inside sp 8 (omega arith) in
        let (t9, e9) = get_elem?_inside sp 9 (omega arith) in
        let (tm, em) = get_elem?_inside sp (10 + mpl) (omega arith) in
        let out = get_elem?_outside sp (11 + mpl) (omega arith) in
        let P : Option (Parsed FullBlock) → Type 0 = λ o. o ≡ none in
        rw (parse__full_block, e)
          (pass P _ e0 (
            pass P _ e1 (
              pass P _ e2 (
                pass P _ e3 (
                  pass P _ e4 (
                    rw new (
                      pass P _ e5 (
                        pass P _ e6 (
                          pass P _ e7
                            (pass P _ e8 (pass P _ e9 (pass P _ em (rw out refl)))))))))))))

    parse_enough :
        11 + mpl < length sp
        → (r : Parsed FullBlock) × (parse__full_block cfg get_ip mpl sp passed ≡ some r)
    unfolding parse__full_block
    parse_enough h =
        let e : ltb (length sp) (11 + mpl) ≡ false = ground arith in
        let (t5, e5) = get_elem?_inside sp 5 (omega arith) in
        let (t6, e6) = get_elem?_inside sp 6 (omega arith) in
        let (t7, e7) = get_elem?_inside sp 7 (omega arith) in
        let (t8, e8) = get_elem?_inside sp 8 (omega arith) in
        let (t9, e9) = get_elem?_inside sp 9 (omega arith) in
        let (tm, em) = get_elem?_inside sp (10 + mpl) (omega arith) in
        let (ts, es) = get_elem?_inside sp (11 + mpl) (omega arith) in
        let P : Option (Parsed FullBlock) → Type 0 = λ o. (r : Parsed FullBlock) × (o ≡ some r) in
        rw (parse__full_block, e)
          (pass P _ e0 (
            pass P _ e1 (
              pass P _ e2 (
                pass P _ e3 (
                  pass P _ e4 (
                    rw new (
                      pass P _ e5 (
                        pass P _ e6 (
                          pass P _ e7 (
                            pass P _ e8
                              (pass P _ e9 (pass P _ em (pass P _ es (_, refl))))))))))))))

module _ (cfg : Config) (get_ip : Text → Text) (mpl : ℕ) (s0 s1 s2 s3 s4 : Text)
    (passed : Entries Text ℕ) where
  -- A message `full_block` with at least its first five fields, and a key that was not seen, is
  -- refused unchanged if it has fewer than 11 fields and those of the proof, reads past its end
  -- if it has exactly these, and is read without a fault if it has more.
  pub parse__full_block_short :
      (rest : List Text)
      → lookup (s0 ++ s1 ++ s2 ++ s3 ++ s4) passed ≡ none
      → ((length rest < 6 + mpl)
          × (parse__full_block cfg get_ip mpl (s0 ∷ s1 ∷ s2 ∷ s3 ∷ s4 ∷ rest) passed
              ≡ some (passed, none)))
        ⊎ ((length rest ≡ 6 + mpl)
            × (parse__full_block cfg get_ip mpl (s0 ∷ s1 ∷ s2 ∷ s3 ∷ s4 ∷ rest) passed ≡ none))
        ⊎ ((6 + mpl < length rest)
            × (r : Parsed FullBlock) × (parse__full_block cfg get_ip mpl
                  (s0 ∷ s1 ∷ s2 ∷ s3 ∷ s4 ∷ rest)
                  passed
                ≡ some r))
  unfolding key_present
  parse__full_block_short rest new =
      let sp = s0 ∷ s1 ∷ s2 ∷ s3 ∷ s4 ∷ rest in
      let key : key_present (s0 ++ s1 ++ s2 ++ s3 ++ s4) passed
          ≡ (false, insert (s0 ++ s1 ++ s2 ++ s3 ++ s4) 1 passed) =
        rw new refl in
      elim (trichotomy (length rest) (6 + mpl)) [
        | inl lt ↦ inl (lt, parse_few cfg get_ip mpl sp passed (omega arith))
        | inr (inl same) ↦ inr (
            inl (
              same,
              parse_one_less cfg get_ip mpl sp passed s0 s1 s2 s3 s4 refl refl refl refl refl key
                  (omega arith),
            ))
        | inr (inr gt) ↦
            let (r, e) =
              parse_enough cfg get_ip mpl sp passed s0 s1 s2 s3 s4 refl refl refl refl refl key
                (omega arith) in
            inr (inr (gt, r, e))
      ]
