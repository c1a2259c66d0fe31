-- ===== src/Server/Peers.antt =====
-- code/MyServer.cpp: the table of peers.
use ohie.Base.{
  All-mono, ℕ, ◌≡◌, ◌≢◌, ◌∙◌, refl, sym, ap, List, [], ◌∷◌, ◌++◌, Bool, true, false, true≢false,
  ◌&&◌, Option, some, is_some, All, arith, Bool-cases, inl, inr, Option-cases, if◌then◌else◌, ◌==◌,
}
use ohie.StdMap.{Entries, lookup, insert, lookup-assign, at_key}
use ohie.Text.{Text, text_eq}
use ohie.Text.Order.{text_order, text_compare_refl}
use ohie.Server.{Peer, Server, peer_key, add_peer}

abbrev key : Peer → Text
key p = peer_key p.ip p.port

abbrev Distinct : List Peer → Type 0
Distinct [] = Unit
Distinct (p ∷ ps) = All (λ q. key p ≢ key q) ps × Distinct ps

-- The peers have different keys, each of them is in the table of keys, and none is the node itself.
abbrev pub PeersOk : Server → Type 0
PeersOk s =
    Distinct s.peers
    × All (λ p. is_some (lookup (key p) s.speers) ≡ true) s.peers
    × All (λ p. (text_eq p.ip s.my_ip && p.port == s.my_port) ≡ false) s.peers

All-append {ℓ κ} :
    {A : Type ℓ} (P : A → Type κ) (xs : List A) (a : A) → All P xs → P a → All P (xs ++ a ∷ [])
All-append P [] a h k = (k, tt)
All-append P (x ∷ xs) a h k = (h.0, All-append P xs a h.1 k)

Distinct-append :
    (ps : List Peer) (p : Peer)
    → Distinct ps
    → All (λ q. key q ≢ key p) ps
    → Distinct (ps ++ p ∷ [])
Distinct-append [] p h k = (tt, tt)
Distinct-append (x ∷ xs) p h k = (All-append _ xs p h.0 k.0, Distinct-append xs p h.1 k.1)

at_key-some :
    (j k : Text) (old : Option ℕ) → is_some old ≡ true → is_some (at_key j k (some 1) old) ≡ true
at_key-some j k old h = ground arith

pub lookup-insert_other :
    (j k : Text) (m : Entries Text ℕ)
    → is_some (lookup j m) ≡ true
    → is_some (lookup j (insert k 1 m)) ≡ true
unfolding insert
lookup-insert_other j k m h = elim (Option-cases (lookup k m)) [
  | inl e ↦ rw (e, insert) (rw (lookup-assign j k 1 m) (at_key-some j k (lookup j m) h))
  | inr (v, e) ↦ rw (e, insert) h
]

pub lookup-insert_self : (k : Text) (m : Entries Text ℕ) → is_some (lookup k (insert k 1 m)) ≡ true
unfolding insert text_order
lookup-insert_self k m = elim (Option-cases (lookup k m)) [
  | inl e ↦ rw (e, insert) (rw (lookup-assign k k 1 m, at_key, text_compare_refl k) refl)
  | inr (v, e) ↦ rw (e, insert, e) refl
]

-- One more peer, with a key that is new.
added :
    (s : Server) (p : Peer)
    → PeersOk s
    → (text_eq p.ip s.my_ip && p.port == s.my_port) ≡ false
    → is_some (lookup (key p) s.speers) ≡ false
    → PeersOk (record s { peers = s.peers ++ p ∷ []; speers = insert (key p) 1 s.speers })
added s p (d, k, n) o f = (
  Distinct-append s.peers p d (
      All-mono _ _ s.peers
        (λ q h e. true≢false (sym h ∙ ap (λ x. is_some (lookup x s.speers)) e ∙ f)) k),
  All-append _ s.peers p
      (All-mono _ _ s.peers (λ q h. lookup-insert_other (key q) (key p) s.speers h) k)
      (lookup-insert_self (key p) s.speers),
  All-append _ s.peers p n o,
)

added_if :
    (s : Server) (p : Peer) (b : Bool)
    → PeersOk s
    → (text_eq p.ip s.my_ip && p.port == s.my_port) ≡ false
    → is_some (lookup (key p) s.speers) ≡ false
    → PeersOk (record s {
      peers = s.peers ++ (if b then p else record p { connected = false; is_open = false }) ∷ [];
      speers = insert (key p) 1 s.speers;
    })
added_if s p true h o f = added s p h o f
added_if s p false h o f = added s (record p { connected = false; is_open = false }) h o f

-- Adding a peer to a table in which all peers have different keys, each noted, and none is the
-- node itself, gives such a table again.
pub add_peer-PeersOk :
    (s : Server) (p : Peer) (is_connected : Bool) → PeersOk s → PeersOk (add_peer s p is_connected)
unfolding add_peer
add_peer-PeersOk s p b h = elim (Bool-cases (text_eq p.ip s.my_ip && p.port == s.my_port)) [
  | inl e ↦ rw (e, add_peer) h
  | inr e ↦ elim (Bool-cases (is_some (lookup (key p) s.speers))) [
    | inl f ↦ rw (e, f, add_peer) h
    | inr f ↦ rw (e, f, add_peer) (added_if s p b h e f)
  ]
]
