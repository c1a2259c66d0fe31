-- ===== src/Network/Round.antt =====
-- code/MyServer.cpp: a whole call of `run_network`, with the connections to peers before the work on the
-- blockchain, and the print-out and the hash file behind it.
use ohie.Base.{
  ℕ, ◌+◌, ◌^◌, ◌≤◌, ◌<◌, ◌≡◌, refl, sym, ap, ◌∙◌, List, [], ◌∷◌, ◌++◌, Bool, true, false, Option,
  some, ltb, ◌>>=◌, Holds, Holds-bind, Holds-some, Holds-bool, true≢false,
}
use ohie.Config.{Config, sub64}
use ohie.StdMap.{Entries}
use ohie.Text.{Text}
use ohie.Blockchain.Totals.{Totals, specific_print_blockchain}
use ohie.Requests.{Node}
use ohie.Handler.State.{World}
use ohie.Server.{Server}
use ohie.Server.Connect.{connect_to_peers}
use ohie.Network.{Periods, Timers, Run, run_network}
use ohie.Network.Hashes.{store_hashes}
use ohie.Network.Quiet.{Due, idle_test, run_network_quiet}

-- The settings of these parts.
pub record Outer : Type 0 where
  pub connect_to_peers_milliseconds : ℕ
  pub print_blockchain_each_milliseconds : ℕ
  pub write_hash_to_hdd : Bool
  pub store_hash_minus : ℕ
  pub store_hash_freq : ℕ

-- `printed`: the numbers of blocks that were printed; `next_hash_depth`: `last_stored_hash_depth + 1`.
pub record Round : Type 0 where
  pub run : Run
  pub last_peer_connect : ℕ
  pub last_print_blockchain : ℕ
  pub printed : List Totals
  pub hash_files : Entries Text Text
  pub next_hash_depth : ℕ

module _ (cfg : Config) (periods : Periods) (outer : Outer) (node : Node)
    (is_address : Text → Bool) where
  -- The hash file, and `last_stored_hash_depth + 1`.
  unfoldable pub save_hashes : Round → Option (Entries Text Text × ℕ)
  save_hashes r =
      let old : Entries Text Text × ℕ = (r.hash_files, r.next_hash_depth) in
      elim outer.write_hash_to_hdd [
        | false ↦ some old
        | true ↦
            store_hashes outer.store_hash_minus outer.store_hash_freq r.run.0.server
              r.run.0.blockchain old
      ]

  -- "Print blockchain".
  unfoldable pub print_blockchain : ℕ → Round → Option Round
  print_blockchain now r =
      elim (ltb outer.print_blockchain_each_milliseconds (sub64 now r.last_print_blockchain)) [
        | false ↦ some r
        | true ↦ (do
          totals ← specific_print_blockchain r.run.0.blockchain
          h ← save_hashes r
          some (record r {
            last_print_blockchain = now;
            printed = r.printed ++ totals ∷ [];
            hash_files = h.0;
            next_hash_depth = h.1;
          }))
      ]

  -- The new state, and the peers that a connection is tried to.
  unfoldable pub network_round : ℕ → ℕ → Round → Option (Round × List ℕ)
  network_round now random r = do
    let w = r.run.0
    let c =
        connect_to_peers is_address outer.connect_to_peers_milliseconds now r.last_peer_connect
          w.server
    run' ← run_network cfg periods node now random (record w { server = c.0 }, r.run.1)
    r' ← print_blockchain now (record r { run = run'; last_peer_connect = c.1 })
    some (r', c.2)

  connect_to_peers-Due :
      (now last : ℕ) (s : Server)
      → Due now last outer.connect_to_peers_milliseconds
      → (connect_to_peers is_address outer.connect_to_peers_milliseconds now last s).1 ≡ now
  unfolding connect_to_peers
  connect_to_peers-Due now last s h = rw (h, connect_to_peers) refl

  connect_to_peers_idle :
      (now last : ℕ) (s : Server)
      → ltb outer.connect_to_peers_milliseconds (sub64 now last) ≡ false
      → connect_to_peers is_address outer.connect_to_peers_milliseconds now last s ≡ (s, last, [])
  unfolding connect_to_peers
  connect_to_peers_idle now last s h = rw (h, connect_to_peers) refl

  -- What a print-out leaves as it is.
  abbrev Printed : ℕ → Round → Round → Type 0
  Printed now r q =
      (q.run ≡ r.run)
      × (q.last_peer_connect ≡ r.last_peer_connect)
      × (q.last_print_blockchain ≡ now)

  print_blockchain-Due :
      (now : ℕ) (r : Round)
      → Due now r.last_print_blockchain outer.print_blockchain_each_milliseconds
      → Holds (Printed now r) (print_blockchain now r)
  unfolding print_blockchain
  print_blockchain-Due now r h =
      Holds-bool _
        (ltb outer.print_blockchain_each_milliseconds (sub64 now r.last_print_blockchain)) _ _
        (λ _.
          Holds-bind _ (specific_print_blockchain r.run.0.blockchain) _
            λ totals e. Holds-bind _ (save_hashes r) _ λ h g. (refl, refl, refl))
        (λ k. absurd (true≢false (sym h ∙ k)))

  print_blockchain_idle :
      (now : ℕ) (r : Round)
      → ltb outer.print_blockchain_each_milliseconds (sub64 now r.last_print_blockchain) ≡ false
      → print_blockchain now r ≡ some r
  unfolding print_blockchain
  print_blockchain_idle now r h = rw (h, print_blockchain) refl

  -- After a round in which everything was due: what the next one starts from.
  abbrev Came : ℕ → ℕ → Timers → Round → Type 0
  Came now random t q =
      (q.last_peer_connect ≡ now)
      × (q.last_print_blockchain ≡ now)
      × (w : World) × (run_network cfg periods node now random (w, t) ≡ some (q.run.0, q.run.1))

  network_round-Came :
      (now random : ℕ) (r : Round)
      → Due now r.last_peer_connect outer.connect_to_peers_milliseconds
      → Due now r.last_print_blockchain outer.print_blockchain_each_milliseconds
      → Holds (λ (q : Round × List ℕ). Came now random r.run.1 q.0) (network_round now random r)
  unfolding network_round
  network_round-Came now random r a b =
      let w = r.run.0 in
      let c =
        connect_to_peers is_address outer.connect_to_peers_milliseconds now r.last_peer_connect
          w.server in
      let d = connect_to_peers-Due now r.last_peer_connect w.server a in
      let w1 = record w { server = c.0 } in
      Holds-bind _ (run_network cfg periods node now random (w1, r.run.1)) _ λ run' e.
        Holds-bind _ (print_blockchain now (record r { run = run'; last_peer_connect = c.1 })) _
          λ r' f.
            let (same, last, now_printed) =
              Holds-some _ _ f
                (print_blockchain-Due now (record r { run = run'; last_peer_connect = c.1 }) b) in
            (last ∙ d, now_printed, w1, e ∙ ap some (sym same))

-- After a call of `run_network` in which the connections, the print-out and the three repeated
-- pieces of work between them were due, no later call does anything until more than one of the
-- five periods has passed, or the time of the next ping: the state, whatever it has become in
-- between, stays as it is, nothing is sent, printed or stored, and no connection is tried. The
-- clock does not run backwards, and stays below 2^64.
pub network_round_quiet :
    (cfg : Config) (periods : Periods) (outer : Outer) (node : Node) (is_address : Text → Bool)
    (now now' random random' : ℕ) (r r' : Round) (tried : List ℕ) (u : World)
    → network_round cfg periods outer node is_address now random r ≡ some (r', tried)
    → Due now r.last_peer_connect outer.connect_to_peers_milliseconds
    → Due now r.last_print_blockchain outer.print_blockchain_each_milliseconds
    → Due now r.run.1.last_ask_for_incomplete periods.ask_for_incomplete_each_milliseconds
    → Due now r.run.1.last_ask_for_full periods.ask_for_full_blocks_each_milliseconds
    → Due now r.run.1.last_update_commited periods.update_commited_time_each_milliseconds
    → now ≤ now'
    → now' < 2 ^ 64
    → now' ≤ now + outer.connect_to_peers_milliseconds
    → now' ≤ now + outer.print_blockchain_each_milliseconds
    → now' ≤ now + periods.ask_for_incomplete_each_milliseconds
    → now' ≤ now + periods.ask_for_full_blocks_each_milliseconds
    → now' ≤ now + periods.update_commited_time_each_milliseconds
    → now' ≤ r'.run.1.next_ping
    → network_round cfg periods outer node is_address now' random'
        (record r' { run = (u, r'.run.1) })
      ≡ some (record r' { run = (u, r'.run.1) }, [])
unfolding network_round
network_round_quiet cfg periods outer node is_address now now' random random' r r' tried u e a b c d
      f le lt i j k l m p =
    let (l1, l2, w, g) =
      Holds-some _ _ e (network_round-Came cfg periods outer node is_address now random r a b) in
    let p1 =
      idle_test outer.connect_to_peers_milliseconds now now' r'.last_peer_connect l1 le lt i in
    let p2 =
      idle_test outer.print_blockchain_each_milliseconds now now' r'.last_print_blockchain l2 le lt
        j in
    rw
      (
        connect_to_peers_idle cfg periods outer node is_address now' r'.last_peer_connect u.server
            p1,
        run_network_quiet cfg periods node now now' random random' w r'.run.0 u r.run.1 r'.run.1 g c
            d f le lt k l m p,
        print_blockchain_idle cfg periods outer node is_address now'
            (record r' { run = (u, r'.run.1) }) p2,
      )
      refl
