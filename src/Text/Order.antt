-- ===== src/Text/Order.antt =====
-- The order of `std::string`, for maps whose keys are text.
use ohie.Base.{
  ◌≡◌, refl, sym, ap, ◌∙◌, compare, Ordering, [], ◌∷◌, Option, arith, false, true≢false,
}
use ohie.StdMap.{KeyOrder, at_key}
use ohie.Text.{Text, text_eq, text_eq_refl}

unfoldable pub text_compare : Text → Text → Ordering
text_compare [] [] = Ordering.eq
text_compare [] (y ∷ ys) = Ordering.lt
text_compare (x ∷ xs) [] = Ordering.gt
text_compare (x ∷ xs) (y ∷ ys) = elim (compare x y) [
  | Ordering.lt ↦ Ordering.lt
  | Ordering.eq ↦ text_compare xs ys
  | Ordering.gt ↦ Ordering.gt
]

pub text_compare_refl : (s : Text) → text_compare s s ≡ Ordering.eq
unfolding text_compare
text_compare_refl [] = refl
text_compare_refl (x ∷ s) = ground (arith, text_compare_refl s)

pub eq_of_text_compare : (s t : Text) → text_compare s t ≡ Ordering.eq → s ≡ t
unfolding text_compare
eq_of_text_compare [] [] h = refl
eq_of_text_compare [] (y ∷ t) h = ground arith
eq_of_text_compare (x ∷ s) [] h = ground arith
eq_of_text_compare (x ∷ s) (y ∷ t) h = ground (arith, eq_of_text_compare s t)

instance unfoldable pub text_order : KeyOrder Text
text_order = record {
  cmp = text_compare;
  cmp_refl = text_compare_refl;
  eq_of_cmp = eq_of_text_compare;
}

-- A map at the key that is looked up.
pub at_key_self {ℓ} : {V : Type ℓ} (k : Text) (new old : Option V) → at_key k k new old ≡ new
unfolding text_order
at_key_self k new old = rw (text_compare_refl k, at_key)

elim_other {ℓ} :
    {A : Type ℓ} (c : Ordering) (new old : A)
    → ¬ (c ≡ Ordering.eq)
    → (elim c [ Ordering.eq ↦ new | _ ↦ old ]) ≡ old
elim_other Ordering.lt new old h = refl
elim_other Ordering.eq new old h = absurd (h refl)
elim_other Ordering.gt new old h = refl

-- And at another one.
pub at_key_other {ℓ} :
    {V : Type ℓ} (j k : Text) (new old : Option V) → text_eq j k ≡ false → at_key j k new old ≡ old
unfolding text_order
at_key_other j k new old h = elim_other (text_compare j k) new old λ e.
    true≢false (sym (text_eq_refl k) ∙ sym (ap (λ x. text_eq x k) (eq_of_text_compare j k e)) ∙ h)
