-- ===== src/Blockchain/Full/Waiting.antt =====
-- code/Blockchain.cpp: the table `waiting_for_full_blocks`.
use ohie.Base.{
  ℕ, ◌≡◌, ◌≢◌, refl, true, false, Bool, List, [], ◌∷◌, none, some, Option, arith, is_some, ◌∙◌,
  Bool-cases, inl, inr, if◌then◌else◌, ltb, not, ◌==◌,
}
use ohie.Config.{Config, sub64}
use ohie.StdMap.{Entries, lookup, insert, erase, nat_order, lookup-assign, lookup-erase}
use ohie.Blockchain.Full.{still_waiting_for_full_block, expired, erase_all, remove_waiting_blocks}

-- After a call of `still_waiting_for_full_block` for one hash, a call for the same hash is told
-- not to ask, and a call for another hash is told to ask exactly if that was not waited for
-- before.
pub still_waiting_once :
    (m : Entries ℕ ℕ) (h q t t' : ℕ)
    → (still_waiting_for_full_block (still_waiting_for_full_block m h t).0 q t').1
      ≡ (if h == q then false else not (is_some (lookup q m)))
unfolding still_waiting_for_full_block insert
still_waiting_once m h q t t' = ground (arith, lookup-assign q h t m, lookup-assign q q t m)

-- An entry for a hash that is not expired.
abbrev pub fresh : Config → ℕ → Option ℕ → Option ℕ
fresh cfg now none = none
fresh cfg now (some since) =
    if ltb cfg.max_wait_for_full_block_millseconds (sub64 now since) then none else some since

-- The keys of the map fall off its front.
abbrev pub NotKey : ℕ → Entries ℕ ℕ → Type 0
NotKey k [] = Unit
NotKey k ((j, v) ∷ m) = (k ≢ j) × NotKey k m

abbrev pub DistinctKeys : Entries ℕ ℕ → Type 0
DistinctKeys [] = Unit
DistinctKeys ((j, v) ∷ m) = NotKey j m × DistinctKeys m

lookup-NotKey : (k : ℕ) (m : Entries ℕ ℕ) → NotKey k m → lookup k m ≡ none
unfolding lookup
lookup-NotKey k [] n = refl
lookup-NotKey k ((j, v) ∷ m) n = ground (arith, lookup-NotKey k m n.1)

abbrev pub member : ℕ → List ℕ → Bool
member q [] = false
member q (h ∷ hs) = if q == h then true else member q hs

lookup-erase_all :
    (hs : List ℕ) (q : ℕ) (m : Entries ℕ ℕ)
    → lookup q (erase_all hs m) ≡ (if member q hs then none else lookup q m)
unfolding erase_all
lookup-erase_all [] q m = refl
lookup-erase_all (h ∷ hs) q m =
    ground (arith, lookup-erase_all hs q (erase h m), lookup-erase q h m)

lookup-nil : (q : ℕ) → lookup {V = ℕ} q [] ≡ none
unfolding lookup
lookup-nil q = refl

lookup-cons :
    (q j v : ℕ) (m : Entries ℕ ℕ) → lookup q ((j, v) ∷ m) ≡ (if q == j then some v else lookup q m)
unfolding lookup
lookup-cons q j v m = ground arith

member-expired_cons :
    (cfg : Config) (now q j v : ℕ) (m : Entries ℕ ℕ)
    → member q (expired cfg now ((j, v) ∷ m)) ≡ (
        if ltb cfg.max_wait_for_full_block_millseconds (sub64 now v)
        then (if q == j then true else member q (expired cfg now m))
        else member q (expired cfg now m))
unfolding expired
member-expired_cons cfg now q j v m =
    elim (Bool-cases (ltb cfg.max_wait_for_full_block_millseconds (sub64 now v))) [
      | inl e ↦ rw e
      | inr e ↦ rw e
    ]

member-expired_absent :
    (cfg : Config) (now q : ℕ) (m : Entries ℕ ℕ) → NotKey q m → member q (expired cfg now m) ≡ false
unfolding expired
member-expired_absent cfg now q [] n = refl
member-expired_absent cfg now q ((j, v) ∷ m) n =
    rw member-expired_cons (ground (arith, member-expired_absent cfg now q m n.1))

member-expired :
    (cfg : Config) (now : ℕ) (m : Entries ℕ ℕ) (q : ℕ)
    → DistinctKeys m
    → (if member q (expired cfg now m) then none else lookup q m) ≡ fresh cfg now (lookup q m)
unfolding expired
member-expired cfg now [] q d = rw lookup-nil
member-expired cfg now ((j, v) ∷ m) q d =
    rw (member-expired_cons, lookup-cons)
      (ground (arith, member-expired cfg now m q d.1, member-expired_absent cfg now j m d.0))

-- In a map with distinct keys exactly the hashes that are waited for longer than the limit go.
pub lookup-remove_waiting_blocks :
    (cfg : Config) (now : ℕ) (m : Entries ℕ ℕ) (q : ℕ)
    → DistinctKeys m
    → lookup q (remove_waiting_blocks cfg now m) ≡ fresh cfg now (lookup q m)
unfolding remove_waiting_blocks
lookup-remove_waiting_blocks cfg now m q d =
    lookup-erase_all (expired cfg now m) q m ∙ member-expired cfg now m q d
