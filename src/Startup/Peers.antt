-- ===== src/Startup/Peers.antt =====
-- code/node.cpp: the choice of the first peers, at random from the file of peers.
use ohie.Base.{
  ℕ, zero, suc, ◌%◌, List, [], ◌∷◌, Bool, true, false, ◌&&◌, Option, none, some, leb, ◌==◌,
  if◌then◌else◌, length, get_elem?,
}
use ohie.Text.{text_eq}
use ohie.Server.{Peer, Server, add_peer}
use ohie.Startup.{Options}

-- The test of the loop, the other way round: the address and the port of the node itself.
unfoldable pub is_self : Options → Peer → Bool
is_self o p = text_eq p.ip o.my_ip_or_hostname && p.port == o.port

-- `tmp.erase(tmp.begin() + t)`.
unfoldable pub erase_at {ℓ} : {A : Type ℓ} → ℕ → List A → List A
erase_at t [] = []
erase_at zero (x ∷ xs) = xs
erase_at (suc t) (x ∷ xs) = x ∷ erase_at t xs

-- No entry is left, or there are MAX_PEERS peers. The counter `tr` of the source stays 0.
unfoldable pub is_done : ℕ → List Peer → Server → Bool
is_done max_peers [] s = true
is_done max_peers (p ∷ tmp) s = leb max_peers (length s.peers)

-- The loop on the numbers that `rng` draws; `none` is a loop that needs more of them.
unfoldable pub select_peers : Options → ℕ → List ℕ → List Peer → Server → Option Server
select_peers o max_peers [] tmp s = if is_done max_peers tmp s then some s else none
select_peers o max_peers (random ∷ draws) tmp s =
    let t = random % length tmp in
    elim (is_done max_peers tmp s) [
      | true ↦ some s
      | false ↦ elim (get_elem? tmp t) [
        | none ↦ none
        | some p ↦ elim (is_self o p) [
          | true ↦ select_peers o max_peers draws tmp s
          | false ↦ select_peers o max_peers draws (erase_at t tmp) (add_peer s p false)
        ]
      ]
    ]
