-- ===== src/Text.antt =====
-- Text as the code handles it: a `std::string` is the list of its bytes.
pub mod Number
pub mod Split
pub mod Order
use Prim.Native.Char.{code}
use Prim.Native.String.{String}
use ohie.Base.{
  ℕ, compare, Ordering, List, [], ◌∷◌, Bool, true, false, ◌&&◌, ◌==◌, ◌≡◌, ◌↔◌, refl, arith,
}

abbrev pub Text : Type 0
Text = List ℕ

abbrev pub codes : String → Text
codes String.[] = []
codes (String.◌∷◌ c s) = code c ∷ codes s

unfoldable pub text_eq : Text → Text → Bool
text_eq [] [] = true
text_eq [] (y ∷ ys) = false
text_eq (x ∷ xs) [] = false
text_eq (x ∷ xs) (y ∷ ys) = x == y && text_eq xs ys

pub eq_of_text_eq : (s t : Text) → text_eq s t ≡ true → s ≡ t
unfolding text_eq
eq_of_text_eq [] [] h = refl
eq_of_text_eq [] (y ∷ t) h = ground arith
eq_of_text_eq (x ∷ s) [] h = ground arith
eq_of_text_eq (x ∷ s) (y ∷ t) h = ground (arith, eq_of_text_eq s t)

pub text_eq_refl : (s : Text) → text_eq s s ≡ true
unfolding text_eq
text_eq_refl [] = refl
text_eq_refl (x ∷ s) = ground (arith, text_eq_refl s)
