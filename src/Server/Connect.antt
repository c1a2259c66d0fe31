-- ===== src/Server/Connect.antt =====
-- code/MyServer.cpp: the connections that a node opens to its peers, `get_ip`, and the first step of `run_network`. The resolver
-- and the parser of addresses are parameters. Memory for a session or a strand does not run out here.
use ohie.Base.{
  ℕ, zero, suc, ◌≡◌, ◌∙◌, refl, ap, List, [], ◌∷◌, Bool, true, false, Option, none, some, ltb, ◌==◌,
  if◌then◌else◌, get_elem?, set, length, All, All-++, arith, Bool-cases, Option-cases, inl, inr,
  ◌⊎◌, is_some, Holds, Holds-case, Holds-bool, Holds-some, ◌&&◌, ◌<◌, ◌+◌,
}
use ohie.Config.{sub64}
use ohie.StdMap.{lookup}
use ohie.Text.{Text, text_eq}
use ohie.Text.Order.{text_order}
use ohie.Text.Split.{split}
use ohie.Server.{Peer, Server, peer_key, add_peer, close_peer_connection}

-- A name is resolved until that succeeds; `resolve i` is the i-th attempt. `none`: not within `fuel`.
unfoldable pub resolve_loop : (ℕ → Option Text) → ℕ → ℕ → Option Text
resolve_loop resolve zero i = none
resolve_loop resolve (suc fuel) i =
    let again = resolve_loop resolve fuel (suc i) in
    elim (resolve i) [ none ↦ again | some ip ↦ some ip ]

unfoldable pub get_ip : (ℕ → Option Text) → ℕ → Text → Option Text
get_ip resolve fuel ip_or_hostname =
    if length (split ip_or_hostname b'.') == 1
    then resolve_loop resolve fuel 0
    else some ip_or_hostname

-- A peer without a connection gets a session and a strand; whether the connection is tried.
unfoldable pub connect_peer : (Text → Bool) → Peer → Peer × Bool
connect_peer is_address p =
    if p.connected then (p, false) else (record p { is_open = true }, is_address p.ip)

-- The loop over the peers, from the peer `i`: the peers, and those that are tried.
unfoldable pub connect_loop : (Text → Bool) → ℕ → List Peer → List Peer × List ℕ
connect_loop is_address i [] = ([], [])
connect_loop is_address i (p ∷ ps) =
    let (q, tried) = connect_peer is_address p in
    let (qs, is) = connect_loop is_address (suc i) ps in (q ∷ qs, if tried then i ∷ is else is)

-- "connecting to peers": the server, `last_peer_connect`, and the peers that are tried.
unfoldable pub connect_to_peers :
    (Text → Bool)
    → (connect_to_peers_milliseconds now last_peer_connect : ℕ) → Server
    → Server × ℕ × List ℕ
connect_to_peers is_address period now last s =
    let (ps, is) = connect_loop is_address 0 s.peers in
    if ltb period (sub64 now last) then (record s { peers = ps }, now, is) else (s, last, [])

-- The end of an attempt: the server, and the peers for which `strand_proceed` is posted. A strand that was
-- closed in the meantime is a fault.
unfoldable pub on_connect : Server → ℕ → Bool → Option (Server × List ℕ)
on_connect s i error = elim error [
  | true ↦ some (close_peer_connection s i, [])
  | false ↦ elim (get_elem? s.peers i) [
    | none ↦ some (s, [])
    | some p ↦ elim p.is_open [
      | false ↦ none
      | true ↦ some (record s { peers = set s.peers i (record p { connected = true }) }, i ∷ [])
    ]
  ]
]

-- What happens to the table of peers, in any order.
pub data Connecting (s0 : Server) : Server → Type 0 where
  begin : Connecting s0 s0
  add : {s : Server} (p : Peer) → Connecting s0 s → Connecting s0 (add_peer s p false)
  close : {s : Server} (i : ℕ) → Connecting s0 s → Connecting s0 (close_peer_connection s i)
  attempt :
      {s : Server} (is_address : Text → Bool) (period now last : ℕ)
      → Connecting s0 s
      → Connecting s0 ((connect_to_peers is_address period now last s).0)
  finish :
      {s s' : Server} (i : ℕ) (error : Bool) (posted : List ℕ)
      → Connecting s0 s
      → on_connect s i error ≡ some (s', posted)
      → Connecting s0 s'

-- A connected peer has a session and a strand.
abbrev pub IsLinked : Peer → Type 0
IsLinked p = (p.connected ≡ false) ⊎ (p.is_open ≡ true)

set-All {ℓ κ} :
    {A : Type ℓ} (P : A → Type κ) (xs : List A) (i : ℕ) (v : A)
    → All P xs
    → P v
    → All P (set xs i v)
set-All P [] i v h k = tt
set-All P (x ∷ xs) zero v h k = (k, h.1)
set-All P (x ∷ xs) (suc i) v h k = (h.0, set-All P xs i v h.1 k)

abbrev picked : Bool → Bool → Peer → Peer × Bool
picked b v p = if b then (p, false) else (record p { is_open = true }, v)

opened-IsLinked : (b v : Bool) (p : Peer) → IsLinked p → IsLinked ((picked b v p).0)
opened-IsLinked true v p h = h
opened-IsLinked false v p h = inr refl

connect_loop-IsLinked :
    (is_address : Text → Bool) (i : ℕ) (ps : List Peer)
    → All IsLinked ps
    → All IsLinked ((connect_loop is_address i ps).0)
unfolding connect_loop connect_peer
connect_loop-IsLinked is_address i [] h = tt
connect_loop-IsLinked is_address i (p ∷ ps) h = (
  opened-IsLinked p.connected (is_address p.ip) p h.0,
  connect_loop-IsLinked is_address (suc i) ps h.1,
)

close-IsLinked :
    (s : Server) (i : ℕ) → All IsLinked s.peers → All IsLinked (close_peer_connection s i).peers
unfolding close_peer_connection
close-IsLinked s i h = elim (Option-cases (get_elem? s.peers i)) [
  | inl e ↦ rw (e, close_peer_connection) h
  | inr (p, e) ↦ rw (e, close_peer_connection) (set-All IsLinked s.peers i _ h (inl refl))
]

add-IsLinked :
    (s : Server) (p : Peer) → All IsLinked s.peers → All IsLinked (add_peer s p false).peers
unfolding add_peer
add-IsLinked s p h = elim (Bool-cases (text_eq p.ip s.my_ip && p.port == s.my_port)) [
  | inl e ↦ rw (e, add_peer) h
  | inr e ↦ elim (Bool-cases (is_some (lookup (peer_key p.ip p.port) s.speers))) [
    | inl f ↦ rw (e, f, add_peer) h
    | inr f ↦ rw (e, f, add_peer) (All-++ IsLinked s.peers _ h (inl refl, tt))
  ]
]

finish-IsLinked :
    (s : Server) (i : ℕ) (error : Bool)
    → All IsLinked s.peers
    → Holds (λ (r : Server × List ℕ). All IsLinked r.0.peers) (on_connect s i error)
unfolding on_connect
finish-IsLinked s i true h = close-IsLinked s i h
finish-IsLinked s i false h =
    Holds-case _ (get_elem? s.peers i) _ _ (λ e. h)
      (λ p e. Holds-bool _ p.is_open _ _ (λ o. set-All IsLinked s.peers i _ h (inr o)) (λ o. tt))

-- After peers are added, connections closed, attempts made, and attempts that ended, in any order
-- and without a fault: each peer that counts as connected has a session and a strand, if that was
-- so at the start.
pub Connecting-IsLinked :
    (s0 s : Server) → All IsLinked s0.peers → Connecting s0 s → All IsLinked s.peers
unfolding connect_to_peers
Connecting-IsLinked s0 s h begin = h
Connecting-IsLinked s0 s h (add {s = r} p c) = add-IsLinked r p (Connecting-IsLinked s0 r h c)
Connecting-IsLinked s0 s h (close {s = r} i c) = close-IsLinked r i (Connecting-IsLinked s0 r h c)
Connecting-IsLinked s0 s h (attempt {s = r} is_address period now last c) =
    elim (Bool-cases (ltb period (sub64 now last))) [
      | inl e ↦
          rw (e, connect_to_peers)
            (connect_loop-IsLinked is_address 0 r.peers (Connecting-IsLinked s0 r h c))
      | inr e ↦ rw (e, connect_to_peers) (Connecting-IsLinked s0 r h c)
    ]
Connecting-IsLinked s0 s h (finish {s = r} i error posted c e) =
    Holds-some (λ (q : Server × List ℕ). All IsLinked q.0.peers) _ e
      (finish-IsLinked r i error (Connecting-IsLinked s0 r h c))

-- If the k-th attempt is the first that succeeds, the loop gives its result, with more fuel than k.
pub resolve_loop_enough :
    (resolve : ℕ → Option Text) (fuel i k : ℕ) (ip : Text)
    → ((j : ℕ) → j < k → resolve (i + j) ≡ none)
    → resolve (i + k) ≡ some ip
    → k < fuel
    → resolve_loop resolve fuel i ≡ some ip
unfolding resolve_loop
resolve_loop_enough resolve zero i k ip h e l = absurd (omega (arith, l))
resolve_loop_enough resolve (suc fuel) i zero ip h e l =
    let e' : resolve i ≡ some ip = ap resolve (omega arith) ∙ e in rw (e', resolve_loop) refl
resolve_loop_enough resolve (suc fuel) i (suc k) ip h e l =
    let first : resolve i ≡ none = ap resolve (omega arith) ∙ h 0 (omega arith) in
    rw (first, resolve_loop)
      (resolve_loop_enough resolve fuel (suc i) k ip
        (λ j m. ap resolve (omega arith) ∙ h (suc j) (omega (arith, m)))
        (ap resolve (omega arith) ∙ e) (omega (arith, l)))
