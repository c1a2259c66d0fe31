-- ===== src/Blockchain/Commit/Once.antt =====
-- code/Blockchain.cpp: the second phase of `update_blocks_commited_time`, block by block.
use ohie.Base.{
  ℕ, ◌≡◌, refl, List, [], ◌∷◌, Bool, true, false, ◌||◌, none, some, arith, ◌==◌, if◌then◌else◌, ap,
}
use ohie.Blockchain.State.{NetworkBlock, Block, Store, Chain, Blockchain, write}
use ohie.Blockchain.Commit.{
  Sweep, is_confirmed, mark_commited, sweep_path, sweep_chains, settled, commit_phase,
}

-- A block that meets the test of the second phase, with the time of its commit.
unfoldable pub commit_block : ℕ → ℕ → Block → Block
unfolding is_confirmed
commit_block bar now b = elim b.nb [
  | none ↦ b
  | some nb ↦
      if is_confirmed bar now b nb
      then record b { nb = some (record nb { time_commited = now }) }
      else b
]

commit_block_twice :
    (bar now : ℕ) (b : Block)
    → commit_block bar now (commit_block bar now b) ≡ commit_block bar now b
unfolding commit_block
commit_block_twice bar now b = ground arith

-- A block that was committed is left alone at any later bar and time.
commit_block_stays :
    (bar now bar' now' : ℕ) (b : Block) (nb : NetworkBlock)
    → b.nb ≡ some nb
    → is_confirmed bar now b nb ≡ true
    → commit_block bar' now' (commit_block bar now b) ≡ commit_block bar now b
unfolding commit_block
commit_block_stays bar now bar' now' b nb e h = ground arith

abbrev pub contains : ℕ → List ℕ → Bool
contains a [] = false
contains a (t ∷ l) = a == t || contains a l

-- The block stands on the settled path of some chain.
abbrev pub is_settled : ℕ → List Chain → ℕ → Bool
is_settled d [] a = false
is_settled d (c ∷ cs) a = contains a (settled d c) || is_settled d cs a

mark_commited_cell :
    (bar now t : ℕ) (w : Sweep) (a : ℕ)
    → (mark_commited bar now t w).store.cell a
      ≡ (if a == t then commit_block bar now (w.store.cell a) else w.store.cell a)
unfolding mark_commited commit_block write
mark_commited_cell bar now t w a = ground arith

sweep_path_cell :
    (bar now : ℕ) (l : List ℕ) (w : Sweep) (a : ℕ)
    → (sweep_path (mark_commited bar now) l w).store.cell a
      ≡ (if contains a l then commit_block bar now (w.store.cell a) else w.store.cell a)
unfolding sweep_path
sweep_path_cell bar now [] w a = refl
sweep_path_cell bar now (t ∷ l) w a = ground (
  arith,
  sweep_path_cell bar now l (mark_commited bar now t w) a,
  mark_commited_cell bar now t w a,
  commit_block_twice bar now (w.store.cell a),
)

sweep_chains_cell :
    (bar now d : ℕ) (cs : List Chain) (w : Sweep) (a : ℕ)
    → (sweep_chains (mark_commited bar now) d cs w).store.cell a
      ≡ (if is_settled d cs a then commit_block bar now (w.store.cell a) else w.store.cell a)
unfolding sweep_chains
sweep_chains_cell bar now d [] w a = refl
sweep_chains_cell bar now d (c ∷ cs) w a =
    let w' = sweep_path (mark_commited bar now) (settled d c) w in
    ground (
      arith,
      sweep_chains_cell bar now d cs w' a,
      sweep_path_cell bar now (settled d c) w a,
      commit_block_twice bar now (w.store.cell a),
    )

-- The second phase commits exactly the settled blocks that meet its test, and changes no other
-- block: the order of the chains, and blocks passed more than once, make no difference.
pub commit_phase_cell :
    (d bar now : ℕ) (bc : Blockchain) (a : ℕ)
    → (commit_phase d bar now bc).store.cell a ≡ (
        if is_settled d bc.chains a
        then commit_block bar now (bc.store.cell a)
        else bc.store.cell a)
unfolding commit_phase
commit_phase_cell d bar now bc a = sweep_chains_cell bar now d bc.chains _ a

-- A block that one run of the second phase commits keeps its time through any later run on the
-- store that this run left, whatever the bar, the clock, the chains and the number of discarded
-- blocks are then.
pub commit_phase_once :
    (d bar now d' bar' now' : ℕ) (bc bc' : Blockchain) (a : ℕ) (nb : NetworkBlock)
    → is_settled d bc.chains a ≡ true
    → (bc.store.cell a).nb ≡ some nb
    → is_confirmed bar now (bc.store.cell a) nb ≡ true
    → bc'.store ≡ (commit_phase d bar now bc).store
    → (commit_phase d' bar' now' bc').store.cell a ≡ (commit_phase d bar now bc).store.cell a
commit_phase_once d bar now d' bar' now' bc bc' a nb settles e h s = ground (
  arith,
  commit_phase_cell d bar now bc a,
  commit_phase_cell d' bar' now' bc' a,
  commit_block_stays bar now bar' now' (bc.store.cell a) nb e h,
  ap (λ (x : Store). x.cell a) s,
)
