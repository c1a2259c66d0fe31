-- ===== src/Server/Examples.antt =====
-- Witnesses for code/MyServer.cpp: a node that knows one ping and meets one peer.
use ohie.Base.{All, none, refl, [], ◌∷◌, true, false, some}
use ohie.StdMap.{lookup, insert}
use ohie.Text.{codes, text_eq}
use ohie.Text.Order.{text_order, text_compare}
use ohie.Server.{Peer, Server, peer_key, add_peer, strand_write, strand_proceed}
use ohie.Server.Connect.{
  connect_peer, connect_loop, connect_to_peers, on_connect, Connecting, begin, add, attempt, finish,
  IsLinked, Connecting-IsLinked,
}
use ohie.Text.Number.{to_string, to_digits, digit_char}
use ohie.Base.{arith}
use ohie.Server.Queue.{Strand, Step, Reachable, GoesOn, queue-GoesOn}

abbrev server : Server
server = record {
  my_ip = codes "10.0.0.1";
  my_port = 8001;
  peers = [];
  speers = [];
  pings = (codes "p", 7) ∷ [];
}

abbrev peer : Peer
peer = record { ip = codes "10.0.0.2"; port = 8001; connected = false; is_open = false }

-- A connection is made, and a message is posted before `strand_proceed` runs, and another one after it.
abbrev waiting : Strand
waiting = record {
  line =
      strand_write
        (strand_proceed (
          strand_write (record { queue = []; is_open = true; started = []; writes = 0 })
            (codes "a")))
        (codes "b");
  posted = 0;
}

waiting-Reachable : Reachable waiting
waiting-Reachable =
    Reachable.step _ _
      (Reachable.step _ _
        (Reachable.step _ _ (Reachable.step _ _ Reachable.start (Step.connect _))
          (Step.post _ (codes "a")))
        (Step.proceed _ (omega arith)))
      (Step.post _ (codes "b"))

queue-GoesOn_example : GoesOn waiting
queue-GoesOn_example = queue-GoesOn waiting waiting-Reachable

-- The peer is added, a connection is tried, and made.
abbrev alone : Server
alone = record server { pings = [] }

abbrev connected : Server
connected =
    elim (on_connect ((connect_to_peers (λ t. true) 10 100 0 (add_peer alone peer false)).0) 0
      false) [ none ↦ alone | some r ↦ r.0 ]

connected-Connecting : Connecting alone connected
unfolding on_connect connect_to_peers connect_loop connect_peer add_peer text_eq lookup insert
    text_order text_compare peer_key to_string to_digits digit_char
connected-Connecting = finish 0 false (0 ∷ []) (attempt (λ t. true) 10 100 0 (add peer begin)) refl

Connecting-IsLinked_example : All IsLinked connected.peers
Connecting-IsLinked_example = Connecting-IsLinked alone connected tt connected-Connecting
