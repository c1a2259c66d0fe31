-- ===== src/Server/Writes.antt =====
-- code/MyServer.cpp: which queues a message goes to. What is posted to a strand is put into its queue at once.
use ohie.Base.{ℕ, List, [], ◌∷◌, Bool, ◌&&◌, ◌==◌, if◌then◌else◌}
use ohie.Text.{Text, text_eq}
use ohie.Blockchain.State.{NetworkBlock}
use ohie.Requests.{Node, create__process_block}
use ohie.Server.{Peer, Line, strand_write}

-- A peer with its queue.
pub record Session : Type 0 where
  pub peer : Peer
  pub line : Line

unfoldable pub is_at : Text → ℕ → Session → Bool
is_at peer_ip peer_port s = text_eq s.peer.ip peer_ip && s.peer.port == peer_port

-- Only where there is a strand.
unfoldable pub post : Text → Session → Session
post message s = if s.peer.is_open then record s { line = strand_write s.line message } else s

unfoldable pub write_to_all_peers : Text → List Session → List Session
write_to_all_peers message [] = []
write_to_all_peers message (s ∷ ss) = post message s ∷ write_to_all_peers message ss

unfoldable pub write_to_all_peers_except : Text → Text → ℕ → List Session → List Session
write_to_all_peers_except message peer_ip peer_port [] = []
write_to_all_peers_except message peer_ip peer_port (s ∷ ss) =
    (if is_at peer_ip peer_port s then s else post message s)
    ∷ write_to_all_peers_except message peer_ip peer_port ss

-- The first peer with that address, and no other.
unfoldable pub write_to_one_peer : Text → ℕ → Text → List Session → List Session
write_to_one_peer peer_ip peer_port message [] = []
write_to_one_peer peer_ip peer_port message (s ∷ ss) =
    let rest = write_to_one_peer peer_ip peer_port message ss in
    if is_at peer_ip peer_port s then post message s ∷ ss else s ∷ rest

unfoldable pub send_block_to_peers : Node → NetworkBlock → List Session → List Session
send_block_to_peers node nb ss = write_to_all_peers (create__process_block node nb) ss

unfoldable pub send_block_to_one_peer : Node → Text → ℕ → NetworkBlock → List Session → List Session
send_block_to_one_peer node sender_ip sender_port nb ss =
    write_to_one_peer sender_ip sender_port (create__process_block node nb) ss
