-- ===== src/Connection/Accept.antt =====
-- code/MyServer.cpp: `start_accept` and `handle_accept`, and the list of allowed peers that code/node.cpp
-- reads from the file FILE_PEER_IPS. `trim` of Boost is a parameter.
use ohie.Base.{
  ℕ, ◌≡◌, ◌↔◌, ◌⊎◌, inl, inr, refl, sym, ◌∙◌, ap, List, [], ◌∷◌, Bool, true, false, not, ◌&&◌,
  Option, none, some, is_some, if◌then◌else◌, ◌==◌, length, arith, Bool-cases, ==_iff, subst,
  true≢false,
}
use ohie.Text.{Text, text_eq, eq_of_text_eq, text_eq_refl}
use ohie.Text.Split.{split}
use ohie.Transactions.State.{contains_text}
use ohie.Connection.{Connection, tcp_connection}

-- `peer_ips` is a `std::set`.
unfoldable pub add_peers_ip : Text → List Text → List Text
add_peers_ip ip peer_ips = if contains_text ip peer_ips then peer_ips else ip ∷ peer_ips

-- "Load allowed IP for connecting peers": the lines that have four parts, without the blanks around.
unfoldable pub load_peer_ips : (Text → Text) → List Text → List Text → List Text
load_peer_ips trim [] peer_ips = peer_ips
load_peer_ips trim (l ∷ ls) peer_ips =
    let ip = trim l in
    load_peer_ips trim ls
      (if length (split ip b'.') == 4 then add_peers_ip ip peer_ips else peer_ips)

-- The connection that `start_accept` makes for the next peer.
unfoldable pub start_accept : ℕ → Connection
start_accept random = tcp_connection random

-- The connection of a peer, if it is taken up, and the next one that waits for a peer.
unfoldable pub handle_accept :
    Bool → List Text → ℕ → Connection → Bool → Text → Option Connection × Connection
handle_accept reject_connections_from_unknowns peer_ips random c error connecting_ip = (
  if error
      then none
      else if reject_connections_from_unknowns && not (contains_text connecting_ip peer_ips)
      then none
      else some (record c { is_reading = true }),
  start_accept random,
)

-- A line of the file allows the address.
abbrev pub Listed : (Text → Text) → Text → List Text → Type 0
Listed trim ip [] = ⊥
Listed trim ip (l ∷ ls) = ((trim l ≡ ip) × (length (split (trim l) b'.') ≡ 4)) ⊎ Listed trim ip ls

contains-add_self : (ip : Text) (ips : List Text) → contains_text ip (add_peers_ip ip ips) ≡ true
unfolding contains_text add_peers_ip
contains-add_self ip ips = elim (Bool-cases (contains_text ip ips)) [
  | inl h ↦ rw (h, h) refl
  | inr h ↦ rw (h, text_eq_refl ip) refl
]

contains-add_mono :
    (ip a : Text) (ips : List Text)
    → contains_text ip ips ≡ true
    → contains_text ip (add_peers_ip a ips) ≡ true
unfolding contains_text add_peers_ip
contains-add_mono ip a ips h = ground (arith, h)

contains-add :
    (ip a : Text) (ips : List Text)
    → contains_text ip (add_peers_ip a ips) ≡ true
    → (a ≡ ip) ⊎ (contains_text ip ips ≡ true)
unfolding contains_text add_peers_ip
contains-add ip a ips h = elim (Bool-cases (contains_text a ips)) [
  | inl k ↦ inr (sym (ap (λ b. contains_text ip (if b then ips else a ∷ ips)) k) ∙ h)
  | inr k ↦ elim (Bool-cases (text_eq a ip)) [
    | inl q ↦ inl (eq_of_text_eq a ip q)
    | inr q ↦ inr (ground (arith, k, q, h))
  ]
]

module _ (trim : Text → Text) (ip : Text) where
  load-keeps :
      (ls : List Text) (ips : List Text)
      → contains_text ip ips ≡ true
      → contains_text ip (load_peer_ips trim ls ips) ≡ true
  unfolding load_peer_ips
  load-keeps [] ips h = h
  load-keeps (l ∷ ls) ips h = elim (Bool-cases (length (split (trim l) b'.') == 4)) [
    | inl k ↦ rw k (load-keeps ls _ (contains-add_mono ip (trim l) ips h))
    | inr k ↦ rw k (load-keeps ls ips h)
  ]

  load-Listed :
      (ls : List Text) (ips : List Text)
      → Listed trim ip ls
      → contains_text ip (load_peer_ips trim ls ips) ≡ true
  unfolding load_peer_ips
  load-Listed [] ips h = elim h [ ]
  load-Listed (l ∷ ls) ips (inl (e, k)) = rw ((==_iff (length (split (trim l) b'.')) 4).1 k) (
      load-keeps ls _ (
        subst (λ a. contains_text ip (add_peers_ip a ips) ≡ true) (sym e)
          (contains-add_self ip ips)))
  load-Listed (l ∷ ls) ips (inr h) = load-Listed ls _ h

  Listed-load :
      (ls : List Text) (ips : List Text)
      → contains_text ip (load_peer_ips trim ls ips) ≡ true
      → Listed trim ip ls ⊎ (contains_text ip ips ≡ true)
  unfolding load_peer_ips
  Listed-load [] ips h = inr h
  Listed-load (l ∷ ls) ips h = elim (Bool-cases (length (split (trim l) b'.') == 4)) [
    | inr k ↦ elim (Listed-load ls _ h) [
      | inl q ↦ inl (inr q)
      | inr q ↦
          inr (
            subst (λ b. contains_text ip (if b then add_peers_ip (trim l) ips else ips) ≡ true) k q)
    ]
    | inl k ↦ elim (Listed-load ls _ h) [
      | inl q ↦ inl (inr q)
      | inr q ↦
          elim (contains-add ip (trim l) ips (
            subst (λ b. contains_text ip (if b then add_peers_ip (trim l) ips else ips) ≡ true) k
              q)) [
                | inl e ↦ inl (inl (e, (==_iff (length (split (trim l) b'.')) 4).0 k))
                | inr q' ↦ inr q'
              ]
    ]
  ]

  nothing-Listed :
      (ls : List Text) → contains_text ip (load_peer_ips trim ls []) ≡ true → Listed trim ip ls
  unfolding contains_text
  nothing-Listed ls h = elim (Listed-load ls [] h) [
    | inl q ↦ q
    | inr q ↦ absurd (true≢false (sym q))
  ]

  -- With REJECT_CONNECTIONS_FROM_UNKNOWNS a connection is taken up, in the absence of an error,
  -- exactly if the file has a line that is the address of the peer, up to the blanks around, in
  -- four parts.
  pub handle_accept-Listed :
      (ls : List Text) (random : ℕ) (c : Connection)
      → (is_some ((handle_accept true (load_peer_ips trim ls []) random c false ip).0) ≡ true)
        ↔ Listed trim ip ls
  unfolding handle_accept
  handle_accept-Listed ls random c =
      let found : Bool = contains_text ip (load_peer_ips trim ls []) in
      elim (Bool-cases found) [
        | inl k ↦ (λ h. nothing-Listed ls k, λ h. rw k refl)
        | inr k ↦ (
          λ h. absurd (true≢false (sym h ∙ rw k refl)),
          λ h. absurd (true≢false (sym (load-Listed ls [] h) ∙ k)),
        )
      ]
