-- ===== src/Blockchain/Commit.antt =====
-- code/Blockchain.cpp: `update_blocks_commited_time`, the rule by which a node of OHIE confirms
-- blocks. The clock is an argument, NO_T_DISCARDS is 1, and the store of timings in a file is left out.
pub mod Bar
pub mod Once
use ohie.Base.{
  ℕ, suc, ◌+◌, ◌-◌, ◌^◌, List, [], ◌∷◌, ◌++◌, Bool, ◌&&◌, Option, none, some, ◌==◌, ltb,
  if◌then◌else◌, drop,
}
use ohie.Blockchain.Links.{ancestors}
use ohie.Blockchain.State.{NetworkBlock, Block, Store, Chain, Blockchain, write}

-- The blocks of the chain from the deepest upwards, the last `T_DISCARD` left out.
unfoldable pub settled : ℕ → Chain → List ℕ
settled t_discard c = drop t_discard (ancestors c.chain.links c.deepest)

-- The store with the two sums of a phase, and the hashes given to `commit_block`, in order.
pub record Sweep : Type 0 where
  pub store : Store
  pub latency : ℕ
  pub total : ℕ
  pub committed : List ℕ

-- The test of the first phase.
unfoldable pub is_partial : ℕ → Block → NetworkBlock → Bool
is_partial now b nb = b.is_full_block && ((nb.time_partial == 0) && ltb nb.time_mined now)

unfoldable pub mark_partial : ℕ → ℕ → Sweep → Sweep
unfolding is_partial write
mark_partial now t w = elim (w.store.cell t).nb [
  | none ↦ w
  | some nb ↦
      if is_partial now (w.store.cell t) nb
      then record w {
        store =
            write w.store t
              (record (w.store.cell t) { nb = some (record nb { time_partial = now }) });
        latency = w.latency + (now - nb.time_mined);
        total = suc w.total;
      }
      else w
]

-- The test of the second phase.
unfoldable pub is_confirmed : ℕ → ℕ → Block → NetworkBlock → Bool
is_confirmed bar now b nb =
    b.is_full_block && (ltb nb.next_rank bar && ((nb.time_commited == 0) && ltb nb.time_mined now))

unfoldable pub mark_commited : ℕ → ℕ → ℕ → Sweep → Sweep
unfolding is_confirmed write
mark_commited bar now t w = elim (w.store.cell t).nb [
  | none ↦ w
  | some nb ↦
      if is_confirmed bar now (w.store.cell t) nb
      then record w {
        store =
            write w.store t
              (record (w.store.cell t) { nb = some (record nb { time_commited = now }) });
        latency = w.latency + (now - nb.time_mined);
        total = suc w.total;
        committed = w.committed ++ (w.store.cell t).hash ∷ [];
      }
      else w
]

-- `while (t != NULL) { …; t = t->parent }`.
unfoldable pub sweep_path : (ℕ → Sweep → Sweep) → List ℕ → Sweep → Sweep
sweep_path mark [] w = w
sweep_path mark (t ∷ up) w = sweep_path mark up (mark t w)

unfoldable pub sweep_chains : (ℕ → Sweep → Sweep) → ℕ → List Chain → Sweep → Sweep
sweep_chains mark t_discard [] w = w
sweep_chains mark t_discard (c ∷ cs) w =
    sweep_chains mark t_discard cs (sweep_path mark (settled t_discard c) w)

-- "Find the minimal next_rank": `none` is `stop_this_j`, where a chain is too short, or its block
-- has no data. `confirm_bar` begins at `uint32_t(-1)`.
unfoldable pub confirm_bar : Store → ℕ → List Chain → ℕ → Option ℕ
confirm_bar s t_discard [] bar = some bar
confirm_bar s t_discard (c ∷ cs) bar = elim (settled t_discard c) [
  | [] ↦ none
  | t ∷ up ↦ elim (s.cell t).nb [
    | none ↦ none
    | some nb ↦ confirm_bar s t_discard cs (if ltb nb.next_rank bar then nb.next_rank else bar)
  ]
]

abbrev pub no_bar : ℕ
no_bar = 2 ^ 32 - 1

unfoldable pub partial_phase : ℕ → ℕ → Blockchain → Sweep
partial_phase t_discard now bc = sweep_chains (mark_partial now) t_discard bc.chains (record {
  store = bc.store;
  latency = bc.partially_latency;
  total = bc.partially_total;
  committed = [];
})

unfoldable pub commit_phase : ℕ → ℕ → ℕ → Blockchain → Sweep
commit_phase t_discard bar now bc =
    sweep_chains (mark_commited bar now) t_discard bc.chains (record {
      store = bc.store;
      latency = bc.commited_latency;
      total = bc.commited_total;
      committed = [];
    })

-- The state afterwards, and the hashes of the blocks that are committed. The source's test
-- `confirm_bar < 0` of an unsigned number never holds.
unfoldable pub update_blocks_commited_time : ℕ → ℕ → Blockchain → Blockchain × List ℕ
update_blocks_commited_time t_discard now bc =
    let p = partial_phase t_discard now bc in
    let bc' = record bc {
      store = p.store;
      partially_latency = p.latency;
      partially_total = p.total;
    } in
    elim (confirm_bar bc'.store t_discard bc'.chains no_bar) [
      | none ↦ (bc', [])
      | some bar ↦
          let w = commit_phase t_discard bar now bc' in
          (
            record bc' { store = w.store; commited_latency = w.latency; commited_total = w.total },
            w.committed,
          )
    ]
