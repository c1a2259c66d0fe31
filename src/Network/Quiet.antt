-- ===== src/Network/Quiet.antt =====
-- code/MyServer.cpp: how often `run_network` does its work.
use ohie.Base.{
  ℕ, ◌+◌, ◌-◌, ◌^◌, ◌≤◌, ◌<◌, ◌≡◌, refl, sym, ap, ◌∙◌, Bool, true, false, ◌&&◌, ◌==◌, ◌%◌, some,
  arith, ltb, Holds, Holds-bind, Holds-some, Holds-bool, Holds-if, true≢false,
}
use ohie.Config.{Config, sub64, sub64_le}
use ohie.Blockchain.Full.{get_non_full_blocks}
use ohie.Blockchain.Commit.{update_blocks_commited_time}
use ohie.Requests.{Node}
use ohie.Handler.State.{World}
use ohie.Network.{
  Periods, Timers, ask_for_incomplete, ask_for_full, commit_blocks, update_commited, send_ping,
  run_network,
}

-- The time of the last work, `period` ago or longer.
abbrev pub Due : ℕ → ℕ → ℕ → Type 0
Due now last period = ltb period (sub64 now last) ≡ true

-- The three pieces of work that repeat were last done at `now`.
abbrev Done : ℕ → Timers → Type 0
Done now t =
    (t.last_ask_for_incomplete ≡ now) × (t.last_ask_for_full ≡ now) × (t.last_update_commited ≡ now)

&&-false : (b : Bool) → (b && false) ≡ false
&&-false true = refl
&&-false false = refl

pub idle_test :
    (period now now' last : ℕ)
    → last ≡ now
    → now ≤ now'
    → now' < 2 ^ 64
    → now' ≤ now + period
    → ltb period (sub64 now' last) ≡ false
idle_test period now now' last e le lt h =
    let d = sub64_le now' now le lt in
    ap (λ (x : ℕ). ltb period (sub64 now' x)) e ∙ ap (ltb period) d ∙ ground arith

module _ (cfg : Config) (periods : Periods) (node : Node) (now : ℕ) where
  ask_for_incomplete_timers :
      (w : World) (t : Timers)
      → Due now t.last_ask_for_incomplete periods.ask_for_incomplete_each_milliseconds
      → (ask_for_incomplete cfg periods node now (w, t)).1
        ≡ record t { last_ask_for_incomplete = now }
  unfolding ask_for_incomplete
  ask_for_incomplete_timers w t h = rw h refl

  ask_for_full_timers :
      (w : World) (t : Timers)
      → Due now t.last_ask_for_full periods.ask_for_full_blocks_each_milliseconds
      → Holds
          (λ r. r.1 ≡ record t { last_ask_for_full = now })
          (ask_for_full cfg periods node now (w, t))
  unfolding ask_for_full
  ask_for_full_timers w t h =
      Holds-bool _
        (ltb periods.ask_for_full_blocks_each_milliseconds (sub64 now t.last_ask_for_full)) _ _
        (λ _. Holds-bind _ (get_non_full_blocks cfg w.blockchain now) _ λ r e. refl)
        (λ k. absurd (true≢false (sym h ∙ k)))

  update_commited_timers :
      (w : World) (t : Timers)
      → Due now t.last_update_commited periods.update_commited_time_each_milliseconds
      → Holds
          (λ r. r.1 ≡ record t { last_update_commited = now })
          (update_commited cfg periods node now (w, t))
  unfolding update_commited
  update_commited_timers w t h =
      let u = update_blocks_commited_time cfg.t_discard now w.blockchain in
      Holds-bool _
        (ltb periods.update_commited_time_each_milliseconds (sub64 now t.last_update_commited)) _ _
        (λ _.
          Holds-bind _ (commit_blocks cfg periods node now u.1 (record w { blockchain = u.0 })) _
            λ r e. refl)
        (λ k. absurd (true≢false (sym h ∙ k)))

  send_ping_timers :
      (random : ℕ) (w : World) (t : Timers)
      → Done now t
      → Holds (λ r. Done now r.1) (send_ping cfg periods node now random (w, t))
  unfolding send_ping
  send_ping_timers random w t h =
      Holds-if _ (ltb t.no_pings periods.ping_repeat && ltb t.next_ping now) _ _
        (Holds-if _ ((periods.ping_max_wait + 2 ^ 32 - periods.ping_min_wait) % 2 ^ 32 == 0) _ _ tt
          h)
        h

  ask_for_incomplete_idle :
      (w : World) (t : Timers)
      → ltb periods.ask_for_incomplete_each_milliseconds (sub64 now t.last_ask_for_incomplete)
        ≡ false
      → ask_for_incomplete cfg periods node now (w, t) ≡ (w, t)
  unfolding ask_for_incomplete
  ask_for_incomplete_idle w t h = rw h refl

  ask_for_full_idle :
      (w : World) (t : Timers)
      → ltb periods.ask_for_full_blocks_each_milliseconds (sub64 now t.last_ask_for_full) ≡ false
      → ask_for_full cfg periods node now (w, t) ≡ some (w, t)
  unfolding ask_for_full
  ask_for_full_idle w t h = rw (ask_for_full, h) refl

  update_commited_idle :
      (w : World) (t : Timers)
      → ltb periods.update_commited_time_each_milliseconds (sub64 now t.last_update_commited)
        ≡ false
      → update_commited cfg periods node now (w, t) ≡ some (w, t)
  unfolding update_commited
  update_commited_idle w t h = rw (update_commited, h) refl

  send_ping_idle :
      (random : ℕ) (w : World) (t : Timers)
      → ltb t.next_ping now ≡ false
      → send_ping cfg periods node now random (w, t) ≡ some (w, t)
  unfolding send_ping
  send_ping_idle random w t h = rw (h, &&-false) refl

  run_network-Done :
      (random : ℕ) (w : World) (t : Timers)
      → Due now t.last_ask_for_incomplete periods.ask_for_incomplete_each_milliseconds
      → Due now t.last_ask_for_full periods.ask_for_full_blocks_each_milliseconds
      → Due now t.last_update_commited periods.update_commited_time_each_milliseconds
      → Holds (λ r. Done now r.1) (run_network cfg periods node now random (w, t))
  unfolding run_network
  run_network-Done random w t a b c =
      let r0 = ask_for_incomplete cfg periods node now (w, t) in
      let e0 = ask_for_incomplete_timers w t a in
      Holds-bind _ (ask_for_full cfg periods node now r0) _ λ r1 f.
        let e1 = Holds-some _ _ f (ask_for_full_timers r0.0 r0.1 (rw e0 b)) in
        Holds-bind _ (update_commited cfg periods node now r1) _ λ r2 g.
          let e2 = Holds-some _ _ g (update_commited_timers r1.0 r1.1 (rw (e1, e0) c)) in
          send_ping_timers random r2.0 r2.1 (rw (e2, e1, e0) (refl, refl, refl))

-- After a run of `run_network` in which all three of its repeated pieces of work were due, no
-- later run does anything until more than one of the three periods has passed, or the time of the
-- next ping: the state, whatever it has become in between, stays as it is and nothing is sent.
-- The clock does not run backwards, and stays below 2^64.
pub run_network_quiet :
    (cfg : Config) (periods : Periods) (node : Node) (now now' random random' : ℕ) (w w' u : World)
    (t t' : Timers)
    → run_network cfg periods node now random (w, t) ≡ some (w', t')
    → Due now t.last_ask_for_incomplete periods.ask_for_incomplete_each_milliseconds
    → Due now t.last_ask_for_full periods.ask_for_full_blocks_each_milliseconds
    → Due now t.last_update_commited periods.update_commited_time_each_milliseconds
    → now ≤ now'
    → now' < 2 ^ 64
    → now' ≤ now + periods.ask_for_incomplete_each_milliseconds
    → now' ≤ now + periods.ask_for_full_blocks_each_milliseconds
    → now' ≤ now + periods.update_commited_time_each_milliseconds
    → now' ≤ t'.next_ping
    → run_network cfg periods node now' random' (u, t') ≡ some (u, t')
unfolding run_network
run_network_quiet cfg periods node now now' random random' w w' u t t' e a b c le lt i f k p =
    let (d1, d2, d3) = Holds-some _ _ e (run_network-Done cfg periods node now random w t a b c) in
    let p1 =
      idle_test periods.ask_for_incomplete_each_milliseconds now now' t'.last_ask_for_incomplete d1
        le lt i in
    let p2 =
      idle_test periods.ask_for_full_blocks_each_milliseconds now now' t'.last_ask_for_full d2 le lt
        f in
    let p3 =
      idle_test periods.update_commited_time_each_milliseconds now now' t'.last_update_commited d3
        le lt k in
    let p4 : ltb t'.next_ping now' ≡ false = ground arith in
    rw
      (
        ask_for_incomplete_idle cfg periods node now' u t' p1,
        ask_for_full_idle cfg periods node now' u t' p2,
        update_commited_idle cfg periods node now' u t' p3,
      )
      (send_ping_idle cfg periods node now' random' u t' p4)
