-- ===== src/StdMap/Laws.antt =====
-- How `find` reads after each change of a map.
use ohie.Base.{◌≡◌, refl, Ordering, [], ◌∷◌, Option, none, some, arith}
use ohie.StdMap.Defs.{KeyOrder, Entries, lookup, assign, erase}

module _ {ℓ κ} {K : Type ℓ} {V : Type κ} ⦃o : KeyOrder K⦄ where
  -- One value at one key, the others left alone.
  abbrev pub at_key : K → K → Option V → Option V → Option V
  at_key j k new old = elim (o.cmp j k) [ Ordering.eq ↦ new | _ ↦ old ]

  pub lookup-assign :
      (j k : K) (v : V) (m : Entries K V)
      → lookup j (assign k v m) ≡ at_key j k (some v) (lookup j m)
  unfolding lookup assign
  lookup-assign j k v [] = refl
  lookup-assign j k v ((i, w) ∷ m) = ground (
    arith,
    lookup-assign j k v m,
    o.eq_of_cmp j k,
    o.eq_of_cmp k i,
    o.eq_of_cmp j i,
    o.cmp_refl i,
    o.cmp_refl k,
  )

  pub lookup-erase :
      (j k : K) (m : Entries K V) → lookup j (erase k m) ≡ at_key j k none (lookup j m)
  unfolding lookup erase
  lookup-erase j k [] = ground arith
  lookup-erase j k ((i, w) ∷ m) = ground (
    arith,
    lookup-erase j k m,
    o.eq_of_cmp j k,
    o.eq_of_cmp k i,
    o.eq_of_cmp j i,
    o.cmp_refl i,
    o.cmp_refl k,
  )
