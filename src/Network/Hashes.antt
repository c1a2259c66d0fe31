-- ===== src/Network/Hashes.antt =====
-- code/MyServer.cpp: "Store blockchain hash" in `run_network`, the file of the hashes of the first chain that
-- WRITE_HASH_TO_HDD asks for. A depth is below 2^31 here.
use ohie.Base.{
  ℕ, zero, suc, ◌%◌, ◌≡◌, ◌≤◌, ◌<◌, List, [], ◌∷◌, ◌++◌, true, false, Option, none, some, ltb, ◌==◌,
  ==_iff, if◌then◌else◌, ◌>>=◌, get_elem?, All, All-++, All-mono, is_some, true≢false, sym, ap, ◌∙◌,
  Option-cases, Holds-mono, Holds, Holds-bind, Holds-case, Holds-bool, Holds-some, arith,
  Bool-cases, inl, inr,
}
use ohie.StdMap.{Entries}
use ohie.Text.{Text, codes}
use ohie.Text.Number.{to_string, to_digits}
use ohie.Blockchain.Links.{ancestors}
use ohie.Blockchain.State.{NetworkBlock, Store, Chain, Blockchain}
use ohie.Server.{Server}
use ohie.Connection.{append_file}

-- The loop that goes STORE_HASH_MINUS blocks up, but not past the first block of the chain.
unfoldable pub climb : ℕ → List ℕ → List ℕ
climb zero path = path
climb (suc n) [] = []
climb (suc n) (b ∷ []) = b ∷ []
climb (suc n) (b ∷ parent ∷ up) = climb n (parent ∷ up)

-- The loop that goes on upwards while blocks are not stored yet: the depth and the hash of each that is
-- kept, the highest depth last. `next` is `last_stored_hash_depth + 1`. A frequency of 0 is a division by 0.
unfoldable pub collect_hashes : ℕ → ℕ → Store → List ℕ → Option (List (ℕ × ℕ))
collect_hashes store_hash_freq next s [] = some []
collect_hashes store_hash_freq next s (b ∷ up) = do
  nb ← (s.cell b).nb
  elim (ltb nb.depth next) [
    | true ↦ some []
    | false ↦ elim (store_hash_freq == 0) [
      | true ↦ none
      | false ↦ (do
        vals ← collect_hashes store_hash_freq next s up
        some (
            if nb.depth % store_hash_freq == 0
            then vals ++ (nb.depth, (s.cell b).hash) ∷ []
            else vals))
    ]
  ]

-- One line: the depth, and the hash in hexadecimal digits.
unfoldable pub hash_line : ℕ × ℕ → Text
hash_line v = to_string v.0 ++ b':' ∷ to_digits 16 16 v.1

unfoldable pub hash_lines : List (ℕ × ℕ) → Text
hash_lines [] = []
hash_lines (v ∷ vs) = (hash_line v ++ 10 ∷ []) ++ hash_lines vs

unfoldable pub hash_file : Server → Text
hash_file s = codes "_Hashes/" ++ (s.my_ip ++ to_string s.my_port)

-- What is stored, and the new `last_stored_hash_depth + 1`; `some none` where there is no block with data.
unfoldable pub new_hashes : ℕ → ℕ → ℕ → Blockchain → Option (Option (List (ℕ × ℕ) × ℕ))
new_hashes store_hash_minus store_hash_freq next bc = do
  c ← get_elem? bc.chains 0
  elim (climb store_hash_minus (ancestors c.chain.links c.deepest)) [
    | [] ↦ some none
    | ◌∷◌ b up ↦ elim (bc.store.cell b).nb [
      | none ↦ some none
      | some nb ↦ do
        vals ← collect_hashes store_hash_freq next bc.store (b ∷ up)
        some (some (vals, suc nb.depth))
    ]
  ]

-- The files, and the new `last_stored_hash_depth + 1`.
unfoldable pub store_hashes :
    ℕ → ℕ → Server → Blockchain → Entries Text Text × ℕ → Option (Entries Text Text × ℕ)
store_hashes store_hash_minus store_hash_freq server bc (files, next) = do
  r ← new_hashes store_hash_minus store_hash_freq next bc
  some (elim r [
    | none ↦ (files, next)
    | some q ↦ (append_file (hash_file server) (hash_lines q.0) files, q.1)
  ])

-- The blocks of the path are above the depth `d`, each above the one before it.
abbrev pub Rising : Store → ℕ → List ℕ → Type 0
Rising s d [] = Unit
Rising s d (b ∷ up) =
    Holds (λ (nb : NetworkBlock). (nb.depth < d) × Rising s nb.depth up) ((s.cell b).nb)

Rising-mono : (s : Store) (d e : ℕ) (path : List ℕ) → d ≤ e → Rising s d path → Rising s e path
Rising-mono s d e [] l h = tt
Rising-mono s d e (b ∷ up) l h =
    Holds-mono _ _ ((s.cell b).nb) (λ nb k. (omega (arith, l, k.0), k.1)) h

-- Every block of the path has its data.
abbrev pub HasAll : Store → List ℕ → Type 0
HasAll s path = All (λ b. is_some (s.cell b).nb ≡ true) path

Rising-climb :
    (s : Store) (n d : ℕ) (path : List ℕ)
    → HasAll s path
    → Rising s d path
    → Rising s d (climb n path)
unfolding climb
Rising-climb s zero d path a h = h
Rising-climb s (suc n) d [] a h = tt
Rising-climb s (suc n) d (b ∷ []) a h = h
Rising-climb s (suc n) d (b ∷ p ∷ up) a h = elim (Option-cases ((s.cell b).nb)) [
  | inl e ↦ absurd (true≢false (sym a.0 ∙ ap is_some e))
  | inr (nb, e) ↦
      let k = Holds-some _ _ e h in
      Rising-climb s n d (p ∷ up) a.1 (Rising-mono s nb.depth d (p ∷ up) (omega (arith, k.0)) k.1)
]

-- A block that is kept: not stored before, above the depth `d`, and at a depth that is asked for.
abbrev pub IsKept : (freq next d : ℕ) → ℕ × ℕ → Type 0
IsKept freq next d v = (next ≤ v.0) × (v.0 < d) × (v.0 % freq ≡ 0)

collect-IsKept :
    (freq next d : ℕ) (s : Store) (path : List ℕ)
    → Rising s d path
    → Holds (All (IsKept freq next d)) (collect_hashes freq next s path)
unfolding collect_hashes
collect-IsKept freq next d s [] h = tt
collect-IsKept freq next d s (b ∷ up) h = Holds-bind _ ((s.cell b).nb) _ (λ nb e.
    let k : (nb.depth < d) × Rising s nb.depth up = Holds-some _ _ e h in
    Holds-bool _ (ltb nb.depth next) _ _ (λ t. tt)
      (λ t.
        Holds-bool _ (freq == 0) _ _ (λ z. tt)
          (λ z. Holds-bind _ (collect_hashes freq next s up) _ (λ vals q.
            let older : All (IsKept freq next d) vals =
              All-mono _ _ vals (λ v m. (m.0, omega (arith, m.1, k.0), m.2))
                (Holds-some _ _ q (collect-IsKept freq next nb.depth s up k.1)) in
            elim (Bool-cases (nb.depth % freq == 0)) [
              | inl r ↦ rw r (
                  All-++ (IsKept freq next d) vals _ older
                    ((ground (arith, t), k.0, (==_iff (nb.depth % freq) 0).0 r), tt))
              | inr r ↦ rw r older
            ]))))

module _ (freq next d : ℕ) (s : Store) where
  -- The last part of `new_hashes`.
  abbrev kept_on : List ℕ → Option (Option (List (ℕ × ℕ) × ℕ))
  kept_on path = elim path [
    | [] ↦ some none
    | ◌∷◌ b up ↦ elim (s.cell b).nb [
      | none ↦ some none
      | some nb ↦ do vals ← collect_hashes freq next s (b ∷ up); some (some (vals, suc nb.depth))
    ]
  ]

  -- What is stored is kept.
  abbrev AllKept : List (ℕ × ℕ) × ℕ → Type 0
  AllKept q = All (IsKept freq next q.1) q.0

  path-IsKept : (path : List ℕ) → Rising s d path → Holds (Holds AllKept) (kept_on path)
  path-IsKept [] h = tt
  path-IsKept (b ∷ up) h =
      Holds-case _ ((s.cell b).nb) _ _ (λ e. tt)
        (λ nb e. Holds-bind _ (collect_hashes freq next s (b ∷ up)) _ (λ vals q.
          let k : (nb.depth < d) × Rising s nb.depth up = Holds-some _ _ e h in
          let top : Rising s (suc nb.depth) (b ∷ up) = rw e (omega arith, k.1) in
          Holds-some _ _ q (collect-IsKept freq next (suc nb.depth) s (b ∷ up) top)))

-- What is written in one call, where each block on the way up from the deepest has its data and
-- is above the one before it: only depths from the first depth after the last call's, below the
-- first depth for the next call, and only multiples of STORE_HASH_FREQ.
pub new_hashes-IsKept :
    (store_hash_minus freq next d next' : ℕ) (bc : Blockchain) (c : Chain) (vals : List (ℕ × ℕ))
    → get_elem? bc.chains 0 ≡ some c
    → HasAll bc.store (ancestors c.chain.links c.deepest)
    → Rising bc.store d (ancestors c.chain.links c.deepest)
    → new_hashes store_hash_minus freq next bc ≡ some (some (vals, next'))
    → All (IsKept freq next next') vals
unfolding new_hashes
new_hashes-IsKept store_hash_minus freq next d next' bc c vals e a h r =
    Holds-some (Holds (AllKept freq next d bc.store)) _ r (
      rw (e, new_hashes)
        (path-IsKept freq next d bc.store
          (climb store_hash_minus (ancestors c.chain.links c.deepest))
          (Rising-climb bc.store store_hash_minus d _ a h)))
