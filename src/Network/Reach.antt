-- ===== src/Network/Reach.antt =====
-- code/MyServer.cpp: `run_network` takes the blockchain through its own calls only.
use ohie.Base.{
  ℕ, ◌≡◌, refl, sym, ap, subst, List, [], ◌∷◌, map, suc, Bool, true, false, some, Holds, Holds-bind,
  Holds-some, Holds-bool, Holds-if, ltb, if◌then◌else◌, ◌==◌, ◌%◌, ◌+◌, ◌-◌, ◌^◌, ◌&&◌,
}
use ohie.Config.{Config, sub64}
use ohie.StdMap.{lookup, nat_order}
use ohie.Blockchain.State.{NetworkBlock, Store, Chain}
use ohie.Blockchain.Full.{get_non_full_blocks}
use ohie.Blockchain.Commit.{update_blocks_commited_time}
use ohie.Blockchain.Reach.{Reachable, forget, ask_parents, ask, commit, asked}
use ohie.Transactions.Receive.{lock, aged_transactions_mtx}
use ohie.Transactions.Promise.{commit_block}
use ohie.Requests.{Node}
use ohie.Handler.State.{World, send}
use ohie.Handler.Reach.{Good}
use ohie.Network.{
  Periods, Run, file_lines, ask_incomplete_chains, ask_for_incomplete, ask_for_full, commit_blocks,
  update_commited, send_ping, run_network,
}

module _ (fresh : ℕ → NetworkBlock) (s : Store) (hashes : List ℕ) where
  module _ (cfg : Config) (periods : Periods) (node : Node) (now : ℕ) where
    ask_incomplete_chains-asked :
        (u : Store) (i : ℕ) (cs : List Chain)
        → (ask_incomplete_chains cfg periods node now u i cs).0 ≡ map (asked cfg u now) cs
    unfolding ask_incomplete_chains
    ask_incomplete_chains-asked u i [] = refl
    ask_incomplete_chains-asked u i (c ∷ cs) =
        ap (◌∷◌ (asked cfg u now c)) (ask_incomplete_chains-asked u (suc i) cs)

    RunGood : Run → Type 0
    RunGood r = Good fresh s hashes r.0

    RunGood-if : (b : Bool) (r q : Run) → RunGood r → RunGood q → RunGood (if b then r else q)
    RunGood-if true r q h k = h
    RunGood-if false r q h k = k

    ask_for_incomplete-RunGood :
        (r : Run) → RunGood r → RunGood (ask_for_incomplete cfg periods node now r)
    unfolding ask_for_incomplete RunGood
    ask_for_incomplete-RunGood (w, t) good =
        let bc = w.blockchain in
        RunGood-if
          (ltb periods.ask_for_incomplete_each_milliseconds (sub64 now t.last_ask_for_incomplete)) _
          _
          (subst (λ cs. Reachable fresh s hashes (record bc { chains = cs }))
            (sym (ask_incomplete_chains-asked bc.store 0 bc.chains)) (ask_parents cfg now good))
          good

    ask_for_full-RunGood :
        (r : Run) → RunGood r → Holds RunGood (ask_for_full cfg periods node now r)
    unfolding ask_for_full RunGood
    ask_for_full-RunGood (w, t) good =
        Holds-bool _
          (ltb periods.ask_for_full_blocks_each_milliseconds (sub64 now t.last_ask_for_full)) _ _
          (λ _.
            Holds-bind _ (get_non_full_blocks cfg w.blockchain now) _
              λ r e. forget cfg now (ask cfg now r.1 good e))
          (λ _. good)

    commit_blocks-blockchain :
        (hs : List ℕ) (w : World)
        → Holds (λ w'. w'.blockchain ≡ w.blockchain) (commit_blocks cfg periods node now hs w)
    unfolding commit_blocks
    commit_blocks-blockchain [] w = refl
    commit_blocks-blockchain (h ∷ hs) w =
        Holds-bind _ (lock aged_transactions_mtx w.held) _ λ free _.
          Holds-bind _ (lookup h w.files) _ λ text _.
            Holds-bind _ (commit_block w.pool (file_lines text)) _
              λ p _. commit_blocks-blockchain hs (record w { pool = p })

    update_commited-RunGood :
        (r : Run) → RunGood r → Holds RunGood (update_commited cfg periods node now r)
    unfolding update_commited RunGood
    update_commited-RunGood (w, t) good =
        let u = update_blocks_commited_time cfg.t_discard now w.blockchain in
        let v = record w { blockchain = u.0 } in
        Holds-bool _
          (ltb periods.update_commited_time_each_milliseconds (sub64 now t.last_update_commited)) _
          _
          (λ _. Holds-bind _ (commit_blocks cfg periods node now u.1 v) _ λ w' e.
            subst (Reachable fresh s hashes)
              (sym (Holds-some _ _ e (commit_blocks-blockchain u.1 v)))
              (commit cfg.t_discard now good))
          (λ _. good)

    send_ping-RunGood :
        (random : ℕ) (r : Run) → RunGood r → Holds RunGood (send_ping cfg periods node now random r)
    unfolding send_ping send RunGood
    send_ping-RunGood random (w, t) good =
        Holds-if _ (ltb t.no_pings periods.ping_repeat && ltb t.next_ping now) _ _
          (Holds-if _ ((periods.ping_max_wait + 2 ^ 32 - periods.ping_min_wait) % 2 ^ 32 == 0) _ _
            tt good)
          good

    pub run_network-Reachable :
        (random : ℕ) (r r' : Run)
        → run_network cfg periods node now random r ≡ some r'
        → Reachable fresh s hashes r.0.blockchain
        → Reachable fresh s hashes r'.0.blockchain
    unfolding run_network RunGood
    run_network-Reachable random r r' h good =
        let r0 = ask_for_incomplete cfg periods node now r in
        Holds-some RunGood _ h (
          Holds-bind RunGood (ask_for_full cfg periods node now r0) _ λ r1 e.
            let g1 =
              Holds-some _ _ e (ask_for_full-RunGood r0 (ask_for_incomplete-RunGood r good)) in
            Holds-bind RunGood (update_commited cfg periods node now r1) _ λ r2 f.
              send_ping-RunGood random r2 (Holds-some _ _ f (update_commited-RunGood r1 g1)))
