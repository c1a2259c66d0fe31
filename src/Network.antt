-- ===== src/Network.antt =====
-- code/MyServer.cpp: `run_network`, which a timer calls over and over with the mutex of the blockchain
-- held: the requests, the confirmation and the pings. Round has the whole call.
-- `none` is `exit`, a fault, or a wait for a mutex that is never unlocked.
pub mod Quiet
pub mod Reach
pub mod Hashes
pub mod Round
mod Examples
use ohie.Base.{
  ℕ, suc, ◌+◌, ◌-◌, ◌*◌, ◌%◌, ◌^◌, List, [], ◌∷◌, ◌++◌, Bool, true, false, not, ◌&&◌, Option, none,
  some, ltb, ◌==◌, if◌then◌else◌, ◌>>=◌, map,
}
use ohie.Config.{Config, sub64}
use ohie.StdMap.{lookup, nat_order}
use ohie.Text.{Text}
use ohie.Text.Number.{to_string}
use ohie.Text.Split.{split}
use ohie.Blockchain.State.{Store, Chain}
use ohie.Blockchain.Full.{get_incomplete_chain_hashes, get_non_full_blocks, remove_waiting_blocks}
use ohie.Blockchain.Commit.{update_blocks_commited_time}
use ohie.Server.{add_ping, peer_key}
use ohie.Transactions.Receive.{Mutex, aged_transactions_mtx, lock}
use ohie.Transactions.Promise.{commit_block}
use ohie.Requests.{Node, create__ask_block, create__got_full_block, create__ping}
use ohie.Handler.State.{Send, to_all_peers, World, send}

-- The variables of the configuration that only the timers read.
pub record Periods : Type 0 where
  pub ask_for_incomplete_each_milliseconds : ℕ
  pub ask_for_full_blocks_each_milliseconds : ℕ
  pub update_commited_time_each_milliseconds : ℕ
  pub ping_repeat : ℕ
  pub ping_min_wait : ℕ
  pub ping_max_wait : ℕ

-- The fields of `tcp_server` that remember when things were done.
pub record Timers : Type 0 where
  pub last_ask_for_incomplete : ℕ
  pub last_ask_for_full : ℕ
  pub last_update_commited : ℕ
  pub next_ping : ℕ
  pub no_pings : ℕ

abbrev pub Run : Type 0
Run = World × Timers

-- The lines of a file, as `getline` reads them.
unfoldable pub file_lines : Text → List Text
file_lines [] = []
file_lines (c ∷ cs) = split (c ∷ cs) 10

module _ (cfg : Config) (periods : Periods) (node : Node) (now : ℕ) where
  -- The loop over the chains, from the chain `i`: their incomplete parts, and the messages.
  unfoldable pub ask_incomplete_chains : Store → ℕ → List Chain → List Chain × List Send
  ask_incomplete_chains s i [] = ([], [])
  ask_incomplete_chains s i (c ∷ cs) =
      let (inchain', hashes) = get_incomplete_chain_hashes cfg s now c.inchain in
      let (cs', ms) = ask_incomplete_chains s (suc i) cs in
      (
        record c { inchain = inchain' } ∷ cs',
        map (λ h. to_all_peers (create__ask_block node i h 0 cfg.max_ask_blocks)) hashes ++ ms,
      )

  -- "Get incomplete chains".
  unfoldable pub ask_for_incomplete : Run → Run
  ask_for_incomplete (w, t) =
      let bc = w.blockchain in
      let (chains', ms) = ask_incomplete_chains bc.store 0 bc.chains in
      if ltb periods.ask_for_incomplete_each_milliseconds (sub64 now t.last_ask_for_incomplete)
      then (
        record w { blockchain = record bc { chains = chains' }; sent = w.sent ++ ms },
        record t { last_ask_for_incomplete = now },
      )
      else (w, t)

  -- "Get full blocks".
  unfoldable pub ask_for_full : Run → Option Run
  ask_for_full (w, t) =
      elim (ltb periods.ask_for_full_blocks_each_milliseconds (sub64 now t.last_ask_for_full)) [
        | true ↦ (do
          r ← get_non_full_blocks cfg w.blockchain now
          let bc = r.0
          some (
            record w {
              blockchain = record bc {
                waiting_for_full_blocks = remove_waiting_blocks cfg now bc.waiting_for_full_blocks;
              };
              sent =
                  w.sent
                  ++ map (λ (b : ℕ × ℕ). to_all_peers (create__got_full_block node b.1 b.0)) r.1;
            },
            record t { last_ask_for_full = now },
          ))
        | false ↦ some (w, t)
      ]

  -- `commit_block` for each hash: a block that is not stored ends the program.
  unfoldable pub commit_blocks : List ℕ → World → Option World
  commit_blocks [] w = some w
  commit_blocks (hash ∷ hs) w = do
    free ← lock aged_transactions_mtx w.held
    text ← lookup hash w.files
    p ← commit_block w.pool (file_lines text)
    commit_blocks hs (record w { pool = p })

  -- "Update commited".
  unfoldable pub update_commited : Run → Option Run
  update_commited (w, t) =
      elim (ltb periods.update_commited_time_each_milliseconds (sub64 now t.last_update_commited)) [
        | true ↦ (do
          let (bc, hashes) = update_blocks_commited_time cfg.t_discard now w.blockchain
          w' ← commit_blocks hashes (record w { blockchain = bc })
          some (w', record t { last_update_commited = now }))
        | false ↦ some (w, t)
      ]

  -- "Pings", with the random number drawn. A range of 0 is a division by 0.
  unfoldable pub send_ping : ℕ → Run → Option Run
  send_ping random (w, t) =
      let n = suc t.no_pings in
      let name = peer_key w.server.my_ip w.server.my_port ++ b':' ∷ to_string n in
      let mode = n % 2 in
      let range = (periods.ping_max_wait + 2 ^ 32 - periods.ping_min_wait) % 2 ^ 32 in
      let pinged = add_ping w.server name 0 (mode == 1) in
      let sent_ping : Run = (
        send (to_all_peers (create__ping node name 0 now mode)) (record w { server = pinged.0 }),
        record t {
          no_pings = n;
          next_ping = (now + 1000 * (periods.ping_min_wait + random % range)) % 2 ^ 64;
        },
      ) in
      if ltb t.no_pings periods.ping_repeat && ltb t.next_ping now
      then (if range == 0 then none else some sent_ping)
      else some (w, t)

  unfoldable pub run_network : ℕ → Run → Option Run
  unfolding ask_for_incomplete
  run_network random r = do
    r1 ← ask_for_full (ask_for_incomplete r)
    r2 ← update_commited r1
    send_ping random r2
