-- ===== src/Blockchain/Commit/Bar.antt =====
-- code/Blockchain.cpp: the bar under which `update_blocks_commited_time` confirms blocks.
use ohie.Base.{
  ℕ, ◌≤◌, ◌≡◌, ◌⊎◌, inl, inr, refl, List, [], ◌∷◌, Option, none, some, arith, ltb, Bool-cases,
  if◌then◌else◌,
}
use ohie.Blockchain.State.{NetworkBlock, Store, Chain}
use ohie.Blockchain.Commit.{settled, confirm_bar, no_bar}

-- The newest settled block of the chain has data, and its next_rank satisfies `P`.
pub data Head (s : Store) (d : ℕ) (P : ℕ → Type 0) (c : Chain) : Type 0 where
  head :
      (t : ℕ) (up : List ℕ) (nb : NetworkBlock)
      → settled d c ≡ t ∷ up
      → (s.cell t).nb ≡ some nb
      → P nb.next_rank
      → Head s d P c

abbrev pub Every : (Chain → Type 0) → List Chain → Type 0
Every P [] = Unit
Every P (c ∷ cs) = P c × Every P cs

abbrev pub Any : (Chain → Type 0) → List Chain → Type 0
Any P [] = ⊥
Any P (c ∷ cs) = P c ⊎ Any P cs

abbrev Goes : Store → ℕ → Chain → List Chain → ℕ → ℕ → Type 0
Goes s d c cs bar b = Head s d (λ r. confirm_bar s d cs (if ltb r bar then r else bar) ≡ some b) c

confirm_bar-head :
    (s : Store) (d : ℕ) (c : Chain) (cs : List Chain) (bar b : ℕ)
    → confirm_bar s d (c ∷ cs) bar ≡ some b
    → Goes s d c cs bar b
unfolding confirm_bar
confirm_bar-head s d c cs bar b e = on_path (settled d c) refl
  where
    on_data :
        (t : ℕ) (up : List ℕ) (o : Option NetworkBlock)
        → settled d c ≡ t ∷ up
        → (s.cell t).nb ≡ o
        → Goes s d c cs bar b
    on_data t up none p q = absurd (ground arith)
    on_data t up (some nb) p q = head t up nb p q (ground arith)

    on_path : (l : List ℕ) → settled d c ≡ l → Goes s d c cs bar b
    on_path [] p = absurd (ground arith)
    on_path (t ∷ up) p = on_data t up (s.cell t).nb p refl

Head-map :
    (s : Store) (d : ℕ) (P Q : ℕ → Type 0) (c : Chain)
    → ((r : ℕ) → P r → Q r)
    → Head s d P c
    → Head s d Q c
Head-map s d P Q c f (head t up nb p q h) = head t up nb p q (f nb.next_rank h)

confirm_bar_le :
    (s : Store) (d : ℕ) (cs : List Chain) (bar b : ℕ)
    → confirm_bar s d cs bar ≡ some b
    → (b ≤ bar) × Every (Head s d (λ r. b ≤ r)) cs
unfolding confirm_bar
confirm_bar_le s d [] bar b e = (ground arith, tt)
confirm_bar_le s d (c ∷ cs) bar b e =
    from (confirm_bar-head s d c cs bar b e) (confirm_bar_le s d cs)
  where
    from :
        Goes s d c cs bar b
        → ((m k : ℕ) → confirm_bar s d cs m ≡ some k → (k ≤ m) × Every (Head s d (λ r. k ≤ r)) cs)
        → (b ≤ bar) × Every (Head s d (λ r. b ≤ r)) (c ∷ cs)
    from (head t up nb p q h) ih =
        let r = ih (if ltb nb.next_rank bar then nb.next_rank else bar) b h in
        (ground arith, (head t up nb p q (ground arith), r.1))

confirm_bar_attained :
    (s : Store) (d : ℕ) (cs : List Chain) (bar b : ℕ)
    → confirm_bar s d cs bar ≡ some b
    → (b ≡ bar) ⊎ Any (Head s d (λ r. r ≡ b)) cs
unfolding confirm_bar
confirm_bar_attained s d [] bar b e = inl (ground arith)
confirm_bar_attained s d (c ∷ cs) bar b e =
    from (confirm_bar-head s d c cs bar b e) (confirm_bar_attained s d cs)
  where
    from :
        Goes s d c cs bar b
        → ((m k : ℕ) → confirm_bar s d cs m ≡ some k → (k ≡ m) ⊎ Any (Head s d (λ r. r ≡ k)) cs)
        → (b ≡ bar) ⊎ Any (Head s d (λ r. r ≡ b)) (c ∷ cs)
    from (head t up nb p q h) ih =
        elim (ih (if ltb nb.next_rank bar then nb.next_rank else bar) b h) [
          | inr later ↦ inr (inr later)
          | inl here ↦ elim (Bool-cases (ltb nb.next_rank bar)) [
            | inl less ↦ inr (inl (head t up nb p q (ground arith)))
            | inr more ↦ inl (ground arith)
          ]
        ]

-- The bar is a lower bound of the next_rank of each chain's newest settled block, all of which
-- are there with data; and it is one of these ranks, or the initial value 2 ^ 32 - 1.
pub confirm_bar_least :
    (s : Store) (d : ℕ) (cs : List Chain) (b : ℕ)
    → confirm_bar s d cs no_bar ≡ some b
    → Every (Head s d (λ r. b ≤ r)) cs × ((b ≡ no_bar) ⊎ Any (Head s d (λ r. r ≡ b)) cs)
confirm_bar_least s d cs b e =
    ((confirm_bar_le s d cs no_bar b e).1, confirm_bar_attained s d cs no_bar b e)
