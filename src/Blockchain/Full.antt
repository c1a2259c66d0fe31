-- ===== src/Blockchain/Full.antt =====
-- code/Blockchain.cpp: what the node still asks its peers for, and the arrival of full blocks. Times
-- of the clock are arguments; the store of timings in a file is left out.
pub mod Waiting
pub mod Asking
pub mod Arrival
use ohie.Base.{
  ℕ, suc, ◌+◌, ◌-◌, List, [], ◌∷◌, ◌++◌, Bool, true, false, not, Option, none, some, is_some, ltb,
  leb, if◌then◌else◌, ◌>>=◌, get_elem?, length,
}
use ohie.Config.{Config, sub64}
use ohie.StdMap.{Entries, lookup, insert, erase, nat_order}
use ohie.Blockchain.HashTree.{find_block_by_hash}
use ohie.Blockchain.State.{NetworkBlock, Store, Incomplete, Chain, Blockchain, write}

-- True for the first caller that asks for the block: the hash is noted with the time.
unfoldable pub still_waiting_for_full_block : Entries ℕ ℕ → ℕ → ℕ → Entries ℕ ℕ × Bool
still_waiting_for_full_block m hash time_of_now =
    if is_some (lookup hash m) then (m, false) else (insert hash time_of_now m, true)

-- Each entry that was not asked for lately: asked once more, or dropped after too many times.
-- The list afterwards and the hashes to ask for.
unfoldable pub get_incomplete_chain_hashes :
    Config → Store → ℕ → List Incomplete → List Incomplete × List ℕ
get_incomplete_chain_hashes cfg s now [] = ([], [])
get_incomplete_chain_hashes cfg s now (t ∷ rest) =
    let (rest', hashes) = get_incomplete_chain_hashes cfg s now rest in
    if ltb cfg.ask_for_incomplete_individual_milliseconds (sub64 now t.last_asked)
    then (if ltb cfg.no_asks_before_removing (suc t.no_asks) then (rest', hashes) else (
      record t { last_asked = now; no_asks = suc t.no_asks } ∷ rest',
      (s.cell t.b.root).hash ∷ hashes,
    ))
    else (t ∷ rest', hashes)

-- What the scan of `get_non_full_blocks` keeps: the map, the blocks to ask for, the hashes to drop.
pub record Scan : Type 0 where
  pub entries : Entries ℕ (ℕ × ℕ)
  pub nfb : List (ℕ × ℕ)
  pub to_remove : List ℕ

-- The chain's block with that hash: is there, and is full.
unfoldable pub block_status : Store → List Chain → ℕ → ℕ → Option (Option Bool)
block_status s chains chain_id hash = do
  c ← get_elem? chains chain_id
  some (elim (find_block_by_hash c.chain.index hash) [
    | none ↦ none
    | some bz ↦ some (s.cell bz).is_full_block
  ])

-- A block that is there and not full is asked for.
unfoldable pub with_missing : Option Bool → ℕ → ℕ → List (ℕ × ℕ) → List (ℕ × ℕ)
with_missing (some false) hash chain_id nfb = nfb ++ (hash, chain_id) ∷ []
with_missing _ hash chain_id nfb = nfb

-- A block that is there and full is dropped.
unfoldable pub to_drop : Option Bool → ℕ → List ℕ
to_drop (some true) hash = hash ∷ []
to_drop _ hash = []

-- `nfb` is what the earlier rounds found: the loop ends once that is enough.
unfoldable pub scan_non_full :
    Config → Store → List Chain → ℕ → Entries ℕ (ℕ × ℕ) → List (ℕ × ℕ) → Option Scan
scan_non_full cfg s chains now [] nfb = some (record { entries = []; nfb = nfb; to_remove = [] })
scan_non_full cfg s chains now ((hash, (chain_id, asked)) ∷ rest) nfb =
    if not (ltb cfg.ask_for_full_blocks_individual_each_milliseconds (sub64 now asked))
    then (do
      r ← scan_non_full cfg s chains now rest nfb
      some (record r { entries = (hash, (chain_id, asked)) ∷ r.entries }))
    else (do
      status ← block_status s chains chain_id hash
      let nfb' = with_missing status hash chain_id nfb
      let dropped = to_drop status hash
      elim (leb cfg.max_ask_non_full_in_one_go (length nfb')) [
        | true ↦
            some
              (record { entries = (hash, (chain_id, now)) ∷ rest; nfb = nfb'; to_remove = dropped })
        | false ↦ do
          r ← scan_non_full cfg s chains now rest nfb'
          some (record {
            entries = (hash, (chain_id, now)) ∷ r.entries;
            nfb = r.nfb;
            to_remove = dropped ++ r.to_remove;
          })
      ])

-- `erase` for each hash of the list; a hash that is not there changes nothing.
unfoldable pub erase_all {ℓ} : {V : Type ℓ} → List ℕ → Entries ℕ V → Entries ℕ V
erase_all [] m = m
erase_all (h ∷ hs) m = erase_all hs (erase h m)

unfoldable pub get_non_full_blocks : Config → Blockchain → ℕ → Option (Blockchain × List (ℕ × ℕ))
get_non_full_blocks cfg bc now = do
  r ← scan_non_full cfg bc.store bc.chains now bc.received_non_full_blocks []
  some (record bc { received_non_full_blocks = erase_all r.to_remove r.entries }, r.nfb)

-- The hashes that are waited for too long.
unfoldable pub expired : Config → ℕ → Entries ℕ ℕ → List ℕ
expired cfg now [] = []
expired cfg now ((hash, since) ∷ rest) =
    if ltb cfg.max_wait_for_full_block_millseconds (sub64 now since)
    then hash ∷ expired cfg now rest
    else expired cfg now rest

unfoldable pub remove_waiting_blocks : Config → ℕ → Entries ℕ ℕ → Entries ℕ ℕ
unfolding expired erase_all
remove_waiting_blocks cfg now m = erase_all (expired cfg now m) m

-- "Define time_received": never before the block was mined.
unfoldable pub receive_time : ℕ → NetworkBlock → NetworkBlock
receive_time now nb = record nb {
  time_received = if ltb nb.time_mined now then now else nb.time_mined;
}

-- The block `bz` is full: its timing, and the sums of the latencies.
unfoldable pub mark_full : Blockchain → ℕ → ℕ → Blockchain
unfolding write receive_time
mark_full bc bz now =
    let cell = bc.store.cell bz in
    elim cell.nb [
      | none ↦ record bc {
        store = write bc.store bz (record cell { is_full_block = true });
        processed_full_blocks = suc bc.processed_full_blocks;
      }
      | some nb ↦ record bc {
        store =
            write bc.store bz
              (record cell { nb = some (receive_time now nb); is_full_block = true });
        processed_full_blocks = suc bc.processed_full_blocks;
        receving_total = if ltb nb.time_mined now then suc bc.receving_total else bc.receving_total;
        receiving_latency =
            if ltb nb.time_mined now
            then bc.receiving_latency + (now - nb.time_mined)
            else bc.receiving_latency;
      }
    ]

unfoldable pub set_block_full : Blockchain → ℕ → ℕ → ℕ → Option Blockchain
set_block_full bc chain_id hash now = do
  c ← get_elem? bc.chains chain_id
  let bc' = record bc {
    received_non_full_blocks = erase hash bc.received_non_full_blocks;
    waiting_for_full_blocks = erase hash bc.waiting_for_full_blocks;
  }
  some
      (elim (find_block_by_hash c.chain.index hash) [ none ↦ bc' | some bz ↦ mark_full bc' bz now ])

unfoldable pub add_mined_block : Blockchain → Blockchain
add_mined_block bc = record bc { mined_blocks = suc bc.mined_blocks }
