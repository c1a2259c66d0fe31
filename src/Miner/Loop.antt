-- ===== src/Miner/Loop.antt =====
-- code/miner.cpp: `miner`, the thread that mines until MAX_MINE_BLOCKS blocks are made. It calls itself for the
-- next block, and also where its sleep is interrupted.
use ohie.Base.{
  ℕ, zero, suc, ◌≡◌, ◌≤◌, ◌∙◌, refl, ap, List, [], ◌∷◌, Bool, true, false, ◌&&◌, Option, none, some,
  leb, ◌>>=◌, length, arith, Bool-cases, inl, inr, Holds, Holds-bind, Holds-bool,
}

-- One sleep of the miner: whether a block of a peer interrupts it, and what the other threads do in
-- the meantime.
pub record Nap {ℓ} (S : Type ℓ) : Type ℓ where
  pub interrupted : Bool
  pub others : S → S

-- `total_mined`, the state of the node, and the sleeps to come.
pub record Mining {ℓ} (S : Type ℓ) : Type ℓ where
  pub total_mined : ℕ
  pub state : S
  pub naps : List (Nap S)

-- Two continuations that agree.
>>=-ext {ℓ κ} :
    {A : Type ℓ} {B : Type κ} (m : Option A) (f g : A → Option B)
    → ((a : A) → f a ≡ g a)
    → (m >>= f) ≡ (m >>= g)
>>=-ext none f g h = refl
>>=-ext (some a) f g h = h a

module _ {ℓ} {S : Type ℓ} (mine_new_block : S → Option S) (can_interrupt : Bool)
    (max_mine_blocks : ℕ) where
  -- `none` is a fault in `mine_new_block`, a call of it that does not come back, or a sleep after the last
  -- one that is given. The fuel bounds the
  -- calls. A sleep that is interrupted starts a miner of its own, after which this one goes on.
  unfoldable pub miner : ℕ → Mining S → Option (Mining S)
  miner zero m = none
  miner (suc fuel) m = elim m.naps [
    | [] ↦ none
    | ◌∷◌ nap naps ↦ (do
      let slept : Mining S = record m { state = nap.others m.state; naps = naps }
      m1 ← elim (can_interrupt && nap.interrupted) [ true ↦ miner fuel slept | false ↦ some slept ]
      elim (leb max_mine_blocks m1.total_mined) [
        | true ↦ some m1
        | false ↦ (do
          s ← mine_new_block m1.state
          miner fuel (record m1 { total_mined = suc m1.total_mined; state = s }))
      ])
  ]

  -- The same as a plain loop: a sleep that is interrupted is passed over.
  unfoldable pub mine_loop : List (Nap S) → ℕ → S → Option (Mining S)
  mine_loop [] total s = none
  mine_loop (nap ∷ naps) total s = elim (can_interrupt && nap.interrupted) [
    | true ↦ mine_loop naps total (nap.others s)
    | false ↦ elim (leb max_mine_blocks total) [
      | true ↦ some (record { total_mined = total; state = nap.others s; naps = naps })
      | false ↦ (do s' ← mine_new_block (nap.others s); mine_loop naps (suc total) s')
    ]
  ]

  -- The plain loop only ends with enough blocks.
  mine_loop-total :
      (naps : List (Nap S)) (total : ℕ) (s : S)
      → Holds (λ (m : Mining S). leb max_mine_blocks m.total_mined ≡ true) (mine_loop naps total s)
  unfolding mine_loop
  mine_loop-total [] total s = tt
  mine_loop-total (nap ∷ naps) total s =
      Holds-bool _ (can_interrupt && nap.interrupted) _ _
        (λ i. mine_loop-total naps total (nap.others s))
        (λ i.
          Holds-bool _ (leb max_mine_blocks total) _ _ (λ e. e)
            (λ e.
              Holds-bind _ (mine_new_block (nap.others s)) _
                (λ s' q. mine_loop-total naps (suc total) s')))

  -- A miner that comes back from an interruption has nothing left to do.
  after_inner :
      (o : Option (Mining S)) (more : Mining S → Option (Mining S))
      → Holds (λ (m : Mining S). leb max_mine_blocks m.total_mined ≡ true) o
      → (do m1 ← o; elim (leb max_mine_blocks m1.total_mined) [ true ↦ some m1 | false ↦ more m1 ])
        ≡ o
  after_inner none more h = refl
  after_inner (some m) more h = ap (λ b. elim b [ true ↦ some m | false ↦ more m ]) h

  goes_on :
      (m : Mining S) (more : Mining S → Option (Mining S))
      → leb max_mine_blocks m.total_mined ≡ false
      → (do
        m1 ← some m
        elim (leb max_mine_blocks m1.total_mined) [ true ↦ some m1 | false ↦ more m1 ])
        ≡ more m
  goes_on m more h = ap (λ b. elim b [ true ↦ some m | false ↦ more m ]) h

  -- The end of `miner`.
  abbrev next_block : ℕ → Mining S → Option (Mining S)
  next_block fuel m1 = do
    s' ← mine_new_block m1.state
    miner fuel (record m1 { total_mined = suc m1.total_mined; state = s' })

  miner_step :
      (fuel : ℕ) (naps : List (Nap S)) (total : ℕ) (s : S)
      → length naps ≤ fuel
      → miner fuel (record { total_mined = total; state = s; naps = naps }) ≡ mine_loop naps total s
  unfolding miner mine_loop
  miner_step zero [] total s h = refl
  miner_step zero (nap ∷ naps) total s h = absurd (omega (arith, h))
  miner_step (suc fuel) [] total s h = refl
  miner_step (suc fuel) (nap ∷ naps) total s h =
      elim (Bool-cases (can_interrupt && nap.interrupted)) [
        | inl i ↦
            rw (i, miner, mine_loop)
              (rw (miner_step fuel naps total (nap.others s) (omega (arith, h))) (
                after_inner (mine_loop naps total (nap.others s)) (next_block fuel)
                  (mine_loop-total naps total (nap.others s))))
        | inr i ↦
            rw (i, miner, mine_loop)
              (elim (Bool-cases (leb max_mine_blocks total)) [
                | inl e ↦ rw e (
                    after_inner
                      (some (record { total_mined = total; state = nap.others s; naps = naps }))
                      (next_block fuel) e)
                | inr e ↦ rw e (
                    goes_on (record { total_mined = total; state = nap.others s; naps = naps })
                      (next_block fuel) e
                    ∙ >>=-ext (mine_new_block (nap.others s)) _ _
                        (λ s'. miner_step fuel naps (suc total) s' (omega (arith, h))))
              ])
      ]

  -- `miner`, which calls itself for the next block, and also for each sleep that is interrupted
  -- and then goes on, does what a plain loop does that passes over the sleeps that are
  -- interrupted, if the fuel is at least the number of the sleeps: the miners that interruptions
  -- start make no block too many and none too few, and a fault of `mine_new_block` is one of
  -- both.
  pub miner-mine_loop :
      (fuel : ℕ) (m : Mining S)
      → length m.naps ≤ fuel
      → miner fuel m ≡ mine_loop m.naps m.total_mined m.state
  miner-mine_loop fuel m h = miner_step fuel m.naps m.total_mined m.state h

module _ {ℓ} {S : Type ℓ} (mine_new_block : S → Option S) (can_interrupt : Bool)
    (max_mine_blocks : ℕ) where
  -- The first call of `miner`, with the sleep of IDLE_START_TIME. No handler stands around that sleep: an
  -- interruption ends the thread.
  unfoldable pub miner_thread : ℕ → Nap S → Mining S → Option (Mining S)
  miner_thread fuel idle m =
      let woken : Mining S = record m { state = idle.others m.state } in
      elim (can_interrupt && idle.interrupted) [
        | true ↦ some woken
        | false ↦ miner mine_new_block can_interrupt max_mine_blocks fuel woken
      ]
