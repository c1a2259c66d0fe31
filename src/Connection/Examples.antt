-- ===== src/Connection/Examples.antt =====
-- Witnesses for code/MyServer.cpp: a file with one address.
use ohie.Base.{◌≡◌, ◌↔◌, [], ◌∷◌, true, false, is_some}
use ohie.Text.{codes}
use ohie.Connection.{tcp_connection}
use ohie.Connection.Accept.{handle_accept, load_peer_ips, Listed, handle_accept-Listed}

handle_accept-Listed_example :
    (is_some (
        (handle_accept true
          (load_peer_ips (λ t. t) (codes "10.0.0.2" ∷ codes "localhost" ∷ []) [])
          5
          (tcp_connection 4)
          false
          (codes "10.0.0.2")).0)
      ≡ true)
    ↔ Listed (λ t. t) (codes "10.0.0.2") (codes "10.0.0.2" ∷ codes "localhost" ∷ [])
handle_accept-Listed_example =
    handle_accept-Listed (λ t. t) (codes "10.0.0.2") (codes "10.0.0.2" ∷ codes "localhost" ∷ []) 5
      (tcp_connection 4)
