-- ===== src/Startup/Start.antt =====
-- code/node.cpp: the state in which the threads of a node start.
use ohie.Base.{
  ℕ, zero, suc, ◌-◌, ◌%◌, ◌^◌, ◌==◌, ap, ◌∙◌, ◌+◌, ◌*◌, ◌≡◌, ◌<◌, ◌≤◌, refl, List, [], ◌∷◌, false,
  some, get_elem?, Holds, Holds-bind, Holds-bool, Holds-some, Holds-case, Holds-if, some-inj, sym,
  subst, arith, ltb, Bool-cases, inl, inr,
}
use ohie.Text.{Text, codes}
use ohie.Text.Order.{text_order}
use ohie.Config.Reader.{default_settings, value_of, set_configuration}
use ohie.Blockchain.State.{NetworkBlock, Store}
use ohie.Server.{Peer, Server, add_peer}
use ohie.Server.Peers.{PeersOk, add_peer-PeersOk}
use ohie.Network.{Timers, file_lines}
use ohie.Node.{Life, begin}
use ohie.Startup.{
  Machine, Options, read_arguments, count_up, initial_hashes, tcp_server, get_server_folder,
  read_peers,
}
use ohie.Startup.Peers.{is_self, is_done, select_peers}
use ohie.Startup.Main.{Started, main, signatures_work, allowed_ips}

select_peers-PeersOk :
    (o : Options) (max_peers : ℕ) (draws : List ℕ) (tmp : List Peer) (s : Server)
    → PeersOk s
    → Holds PeersOk (select_peers o max_peers draws tmp s)
unfolding select_peers
select_peers-PeersOk o max_peers [] tmp s h = Holds-if PeersOk (is_done max_peers tmp s) _ _ h tt
select_peers-PeersOk o max_peers (random ∷ draws) tmp s h =
    Holds-bool PeersOk (is_done max_peers tmp s) _ _ (λ d. h)
      (λ d.
        Holds-case PeersOk (get_elem? tmp _) _ _ (λ e. tt)
          (λ p e.
            Holds-bool PeersOk (is_self o p) _ _
              (λ i. select_peers-PeersOk o max_peers draws tmp s h)
              (λ i.
                select_peers-PeersOk o max_peers draws _ (add_peer s p false)
                  (add_peer-PeersOk s p false h))))

tcp_server-PeersOk :
    (ping_repeat min max now random : ℕ) (memory : Timers) (ip : Text) (port : ℕ)
    → Holds
        (λ (r : Server × Timers). PeersOk r.0)
        (tcp_server ping_repeat min max now random memory ip port)
unfolding tcp_server
tcp_server-PeersOk ping_repeat min max now random memory ip port =
    elim (Bool-cases (ltb 0 ping_repeat)) [
      | inr e ↦ rw e (tt, tt, tt)
      | inl e ↦ rw e (elim (Bool-cases ((max + 2 ^ 32 - min) % 2 ^ 32 == 0)) [
        | inl f ↦ rw f tt
        | inr f ↦ rw f (tt, tt, tt)
      ])
    ]

count_up-get : (i n j : ℕ) → j < n → get_elem? (count_up i n) j ≡ some (i + j)
unfolding count_up
count_up-get i zero j h = absurd (omega (arith, h))
count_up-get i (suc n) zero h = ap some (omega arith)
count_up-get i (suc n) (suc j) h =
    count_up-get (suc i) n j (omega (arith, h)) ∙ ap some (omega arith)

-- The blocks at the start of the chains have the numbers of the chains as hashes, up to MAX_CHAINS.
abbrev Numbered : List ℕ → ℕ → Type 0
Numbered hashes chains = (chains ≤ 8 * 1024) × ((i : ℕ) → i < chains → get_elem? hashes i ≡ some i)

initial_hashes-Numbered :
    (chains : ℕ) → Holds (λ hashes. Numbered hashes chains) (initial_hashes chains)
unfolding initial_hashes
initial_hashes-Numbered chains = elim (Bool-cases (ltb (8 * 1024) chains)) [
  | inl e ↦ rw e tt
  | inr e ↦ rw e (ground arith, λ i h. count_up-get 0 chains i h ∙ ap some (omega arith))
]

module _ (host : Machine) (fresh : ℕ → NetworkBlock) (memory : Store) (timers : Timers) where
  abbrev Good : Started → Type 0
  Good st =
      Life fresh memory st.hashes st.run
      × PeersOk st.run.0.server
      × ((chains : ℕ)
          → value_of (codes "CHAINS") st.settings ≡ some chains
          → Numbered st.hashes chains)

  main-Good :
      (argv : List Text) (now random : ℕ) (draws : List ℕ)
      → Holds Good (main host fresh memory timers argv now random draws)
  unfolding main
  main-Good argv now random draws = Holds-bind Good (read_arguments host argv) _ (λ o e1.
      Holds-bind Good
        (set_configuration host.trim (file_lines (host.file (codes "_configuration")))
          default_settings)
        _
        (λ settings e2. Holds-bind Good (value_of (codes "CHAINS") settings) _ (λ chains e3.
          Holds-bind Good (initial_hashes chains) _ (λ hashes e4.
            Holds-bind Good (value_of (codes "PING_REPEAT") settings) _ (λ ping_repeat e5.
              Holds-bind Good (value_of (codes "PING_MIN_WAIT") settings) _ (λ min e6.
                Holds-bind Good (value_of (codes "PING_MAX_WAIT") settings) _ (λ max e7.
                  Holds-bind Good (tcp_server ping_repeat min max now random timers o.ip o.port) _
                    (λ server e8.
                      Holds-bind Good (value_of (codes "MAX_PEERS") settings) _ (λ max_peers e9.
                        Holds-bind Good (signatures_work host settings) _ (λ works e10.
                          Holds-bool Good (host.create_folder (get_server_folder server.0)) _ _
                            (λ made.
                              Holds-bool Good works _ _
                                (λ checked.
                                  Holds-bind Good
                                    (select_peers o max_peers draws
                                      (read_peers host o (file_lines (host.file o.file_peers)))
                                      server.0)
                                    _
                                    (λ s e11.
                                      Holds-bind Good (allowed_ips host settings) _ (λ peer_ips e12.
                                        (
                                          begin _ server.1 refl,
                                          Holds-some PeersOk _ e11 (
                                              select_peers-PeersOk o max_peers draws _ server.0 (
                                                Holds-some (λ (r : Server × Timers). PeersOk r.0) _
                                                  e8
                                                  (tcp_server-PeersOk ping_repeat min max now random
                                                    timers o.ip o.port))),
                                          λ n e. subst (Numbered hashes) (some-inj (sym e3 ∙ e)) (
                                              Holds-some (λ hs. Numbered hs chains) _ e4
                                                (initial_hashes-Numbered chains)),
                                        ))))
                                (λ checked. tt))
                            (λ made. tt)))))))))))

  -- When the threads of a node start: the run of the node begins, its peers have different keys,
  -- each of them noted, and none is the node itself, there are at most MAX_CHAINS chains, as more
  -- are a fault, and the first block of each chain has the number of the chain as its hash.
  pub main-Life :
      (argv : List Text) (now random : ℕ) (draws : List ℕ) (st : Started) (chains i : ℕ)
      → main host fresh memory timers argv now random draws ≡ some st
      → value_of (codes "CHAINS") st.settings ≡ some chains
      → i < chains
      → Life fresh memory st.hashes st.run
        × PeersOk st.run.0.server
        × (chains ≤ 8 * 1024)
        × (get_elem? st.hashes i ≡ some i)
  main-Life argv now random draws st chains i e f h =
      let (life, peers, numbered) = Holds-some Good _ e (main-Good argv now random draws) in
      (life, peers, (numbered chains f).0, (numbered chains f).1 i h)
