-- ===== src/Blockchain/Full/Asking.antt =====
-- code/Blockchain.cpp: `get_non_full_blocks`, the full blocks that the node asks its peers for.
use ohie.Base.{
  ℕ, ◌+◌, ◌≤◌, ◌<◌, ◌≡◌, refl, false, List, [], ◌∷◌, ◌++◌, Option, none, some, arith, All, length,
  length-append, ltb, leb, Bool-cases, inl, inr, Bool, ◌>>=◌,
}
use ohie.Config.{Config, sub64}
use ohie.StdMap.{Entries}
use ohie.Blockchain.State.{Store, Chain, Blockchain}
use ohie.Blockchain.Full.{Scan, block_status, scan_non_full, with_missing, get_non_full_blocks}

-- A block to ask for is in its chain, and is not full.
abbrev pub Missing : Store → List Chain → ℕ × ℕ → Type 0
Missing s chains b = block_status s chains b.1 b.0 ≡ some (some false)

All-snoc {ℓ κ} :
    {A : Type ℓ} (P : A → Type κ) (xs : List A) (x : A) → All P xs → P x → All P (xs ++ x ∷ [])
All-snoc P [] x h p = (p, tt)
All-snoc P (y ∷ xs) x h p = (h.0, All-snoc P xs x h.1 p)

module _ (cfg : Config) (s : Store) (chains : List Chain) (now : ℕ) where
  abbrev Good : List (ℕ × ℕ) → Type 0
  Good l = (length l ≤ cfg.max_ask_non_full_in_one_go) × All (Missing s chains) l

  abbrev Finds : Option Scan → Type 0
  Finds none = Unit
  Finds (some r) = Good r.nfb

  Finds-map :
      (o : Option Scan) (f : Scan → Scan)
      → ((r : Scan) → (f r).nfb ≡ r.nfb)
      → Finds o
      → Finds (o >>= λ r. some (f r))
  Finds-map none f e h = tt
  Finds-map (some r) f e h = rw (e r) h

  Finds-bind {ℓ} :
      {A : Type ℓ} (o : Option A) (f : A → Option Scan)
      → ((a : A) → o ≡ some a → Finds (f a))
      → Finds (o >>= f)
  Finds-bind none f h = tt
  Finds-bind (some a) f h = h a refl

  with_missing-Missing :
      (status : Option Bool) (hash chain_id : ℕ) (nfb : List (ℕ × ℕ))
      → block_status s chains chain_id hash ≡ some status
      → All (Missing s chains) nfb
      → All (Missing s chains) (with_missing status hash chain_id nfb)
  unfolding with_missing
  with_missing-Missing (some false) hash chain_id nfb e a =
      All-snoc (Missing s chains) nfb (hash, chain_id) a e
  with_missing-Missing _ hash chain_id nfb e a = a

  length-with_missing :
      (status : Option Bool) (hash chain_id : ℕ) (nfb : List (ℕ × ℕ))
      → length (with_missing status hash chain_id nfb) ≤ length nfb + 1
  unfolding with_missing
  length-with_missing (some false) hash chain_id nfb =
      omega (arith, length-append {0} nfb ((hash, chain_id) ∷ []))
  length-with_missing _ hash chain_id nfb = omega arith

  scan-Finds :
      (m : Entries ℕ (ℕ × ℕ)) (nfb : List (ℕ × ℕ))
      → length nfb < cfg.max_ask_non_full_in_one_go
      → All (Missing s chains) nfb
      → Finds (scan_non_full cfg s chains now m nfb)
  unfolding scan_non_full
  scan-Finds [] nfb h a = (omega arith, a)
  scan-Finds ((hash, (chain_id, asked)) ∷ m) nfb h a =
      elim (Bool-cases
        (ltb cfg.ask_for_full_blocks_individual_each_milliseconds (sub64 now asked))) [
          | inr early ↦ rw early (
              Finds-map (scan_non_full cfg s chains now m nfb) _ (λ r. refl) (scan-Finds m nfb h a))
          | inl late ↦ rw late (
              Finds-bind (block_status s chains chain_id hash) _ λ status e.
                let nfb' = with_missing status hash chain_id nfb in
                let a' = with_missing-Missing status hash chain_id nfb e a in
                let size = length-with_missing status hash chain_id nfb in
                elim (Bool-cases (leb cfg.max_ask_non_full_in_one_go (length nfb'))) [
                  | inl enough ↦ rw enough (omega arith, a')
                  | inr few ↦ rw few (
                      Finds-map (scan_non_full cfg s chains now m nfb') _ (λ r. refl)
                        (scan-Finds m nfb' (ground arith) a'))
                ])
        ]

-- One round asks for at most MAX_ASK_NON_FULL_IN_ONE_GO blocks, where that is not 0, and only for
-- blocks that are in their chains and are not full.
pub get_non_full_blocks_lem :
    (cfg : Config) (bc bc' : Blockchain) (now : ℕ) (nfb : List (ℕ × ℕ))
    → 0 < cfg.max_ask_non_full_in_one_go
    → get_non_full_blocks cfg bc now ≡ some (bc', nfb)
    → (length nfb ≤ cfg.max_ask_non_full_in_one_go) × All (Missing bc.store bc.chains) nfb
unfolding get_non_full_blocks
get_non_full_blocks_lem cfg bc bc' now nfb h e =
    from (scan_non_full cfg bc.store bc.chains now bc.received_non_full_blocks []) refl
      (scan-Finds cfg bc.store bc.chains now bc.received_non_full_blocks [] h tt)
  where
    from :
        (o : Option Scan)
        → scan_non_full cfg bc.store bc.chains now bc.received_non_full_blocks [] ≡ o
        → Finds cfg bc.store bc.chains now o
        → Good cfg bc.store bc.chains now nfb
    from none p f = absurd (ground arith)
    from (some r) p f = let q : r.nfb ≡ nfb = ground arith in rw (← q) f
