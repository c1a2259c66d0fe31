-- ===== src/StdMap/Defs.antt =====
-- The operations of `std::map` that the node calls, and the order of keys.
use ohie.Base.{ℕ, ◌≡◌, compare, Ordering, List, [], ◌∷◌, Option, none, some, arith}

-- `operator<` of the key type, with what the code relies on.
pub record KeyOrder {ℓ} (K : Type ℓ) : Type ℓ where
  pub cmp : K → K → Ordering
  pub cmp_refl : (a : K) → cmp a a ≡ Ordering.eq
  pub eq_of_cmp : (a b : K) → cmp a b ≡ Ordering.eq → a ≡ b

pub compare_refl : (a : ℕ) → compare a a ≡ Ordering.eq
compare_refl a = ground arith

pub eq_of_compare : (a b : ℕ) → compare a b ≡ Ordering.eq → a ≡ b
eq_of_compare a b h = ground arith

-- Block hashes are 64-bit numbers.
instance abbrev pub nat_order : KeyOrder ℕ
nat_order = record { cmp = compare; cmp_refl = compare_refl; eq_of_cmp = eq_of_compare }

abbrev pub Entries {ℓ κ} : Type ℓ → Type κ → Type (ℓ ⊔ κ)
Entries K V = List (K × V)

module _ {ℓ κ} {K : Type ℓ} {V : Type κ} ⦃o : KeyOrder K⦄ where
  -- `find`.
  unfoldable pub lookup : K → Entries K V → Option V
  lookup k [] = none
  lookup k ((j, v) ∷ m) = elim (o.cmp k j) [ Ordering.eq ↦ some v | _ ↦ lookup k m ]

  -- `m[k] = v`.
  unfoldable pub assign : K → V → Entries K V → Entries K V
  assign k v [] = (k, v) ∷ []
  assign k v ((j, w) ∷ m) = elim (o.cmp k j) [
    | Ordering.lt ↦ (k, v) ∷ (j, w) ∷ m
    | Ordering.eq ↦ (k, v) ∷ m
    | Ordering.gt ↦ (j, w) ∷ assign k v m
  ]

  -- `insert(make_pair(k, v))`, which leaves a key that is there as it is.
  unfoldable pub insert : K → V → Entries K V → Entries K V
  insert k v m = elim (lookup k m) [ none ↦ assign k v m | some w ↦ m ]

  -- `erase(k)`.
  unfoldable pub erase : K → Entries K V → Entries K V
  erase k [] = []
  erase k ((j, v) ∷ m) = elim (o.cmp k j) [ Ordering.eq ↦ erase k m | _ ↦ (j, v) ∷ erase k m ]
