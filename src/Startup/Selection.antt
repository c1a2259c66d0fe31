-- ===== src/Startup/Selection.antt =====
-- code/node.cpp: whether the choice of the first peers ends, and with which peers.
use ohie.Base.{
  ℕ, zero, suc, ◌%◌, ◌≡◌, ◌<◌, ◌≤◌, refl, ap, subst, List, [], ◌∷◌, Bool, true, false, ◌&&◌, ◌||◌,
  none, some, is_some, leb→le, ◌==◌, length, get_elem?, All, arith, Bool-cases, ◌⊎◌, inl, inr,
}
use native.Mathlib.Nat.{mod-lt}
use ohie.StdMap.{lookup}
use ohie.Text.{text_eq}
use ohie.Text.Order.{text_order}
use ohie.Server.{Peer, Server, peer_key, add_peer}
use ohie.Server.Peers.{lookup-insert_self, lookup-insert_other}
use ohie.Startup.{Options}
use ohie.Startup.Peers.{is_self, erase_at, is_done, select_peers}

-- The server has an entry for this peer, or it is the server itself.
unfoldable pub known : Server → Peer → Bool
known s p =
    (text_eq p.ip s.my_ip && p.port == s.my_port)
    || is_some (lookup (peer_key p.ip p.port) s.speers)

abbrev pub Known : Server → Peer → Type 0
Known s p = known s p ≡ true

Known-add_self : (s : Server) (p : Peer) → Known (add_peer s p false) p
unfolding add_peer known
Known-add_self s p = elim (Bool-cases (text_eq p.ip s.my_ip && p.port == s.my_port)) [
  | inl e ↦ rw (e, add_peer, e) refl
  | inr e ↦ elim (Bool-cases (is_some (lookup (peer_key p.ip p.port) s.speers))) [
    | inl f ↦ rw (e, f, add_peer, e) f
    | inr f ↦ rw (e, f, add_peer, e) (lookup-insert_self (peer_key p.ip p.port) s.speers)
  ]
]

Known-add : (s : Server) (p q : Peer) → Known s q → Known (add_peer s p false) q
unfolding add_peer known
Known-add s p q h = elim (Bool-cases (text_eq p.ip s.my_ip && p.port == s.my_port)) [
  | inl e ↦ rw (e, add_peer) h
  | inr e ↦ elim (Bool-cases (is_some (lookup (peer_key p.ip p.port) s.speers))) [
    | inl f ↦ rw (e, f, add_peer) h
    | inr f ↦ elim (Bool-cases (text_eq q.ip s.my_ip && q.port == s.my_port)) [
      | inl g ↦ rw (e, f, add_peer, g) refl
      | inr g ↦
          rw (e, f, add_peer, g)
            (lookup-insert_other (peer_key q.ip q.port) (peer_key p.ip p.port) s.speers (rw g at h))
    ]
  ]
]

get_elem?-some {ℓ} :
    {A : Type ℓ} (xs : List A) (i : ℕ) → i < length xs → (a : A) × (get_elem? xs i ≡ some a)
get_elem?-some [] i h = absurd (omega (arith, h))
get_elem?-some (x ∷ xs) zero h = (x, refl)
get_elem?-some (x ∷ xs) (suc i) h = get_elem?-some xs i (omega (arith, h))

module _ {ℓ κ} {A : Type ℓ} (P : A → Type κ) where
  All-get : (xs : List A) (i : ℕ) {a : A} → All P xs → get_elem? xs i ≡ some a → P a
  All-get [] i h e = cc
  All-get (x ∷ xs) zero {a = a} h e = let q : x ≡ a = cc in subst P q h.0
  All-get (x ∷ xs) (suc i) h e = All-get xs i h.1 e

  All-erase : (xs : List A) (i : ℕ) → All P xs → All P (erase_at i xs)
  unfolding erase_at
  All-erase [] i h = tt
  All-erase (x ∷ xs) zero h = h.1
  All-erase (x ∷ xs) (suc i) h = (h.0, All-erase xs i h.1)

  All-restore :
      (xs : List A) (i : ℕ) {a : A}
      → get_elem? xs i ≡ some a
      → P a
      → All P (erase_at i xs)
      → All P xs
  unfolding erase_at
  All-restore [] i e p h = tt
  All-restore (x ∷ xs) zero {a = a} e p h = let q : a ≡ x = cc in (subst P q p, h)
  All-restore (x ∷ xs) (suc i) e p h = (h.0, All-restore xs i e p h.1)

length-erase_at {ℓ} :
    {A : Type ℓ} (xs : List A) (i : ℕ) → i < length xs → suc (length (erase_at i xs)) ≡ length xs
unfolding erase_at
length-erase_at [] i h = absurd (omega (arith, h))
length-erase_at (x ∷ xs) zero h = refl
length-erase_at (x ∷ xs) (suc i) h = ap suc (length-erase_at xs i (omega (arith, h)))

-- All that is left is known, or there are enough peers.
abbrev pub Chosen : ℕ → List Peer → Server → Type 0
Chosen max_peers tmp s = (max_peers ≤ length s.peers) ⊎ All (Known s) tmp

done-Chosen :
    (max_peers : ℕ) (tmp : List Peer) (s : Server)
    → is_done max_peers tmp s ≡ true
    → Chosen max_peers tmp s
unfolding is_done
done-Chosen max_peers [] s h = inr tt
done-Chosen max_peers (p ∷ tmp) s h = inl (leb→le max_peers (length s.peers) h)

nothing_left : (max_peers : ℕ) (s : Server) → is_done max_peers [] s ≡ true
unfolding is_done
nothing_left max_peers s = refl

not_done-length :
    (max_peers : ℕ) (tmp : List Peer) (s : Server)
    → is_done max_peers tmp s ≡ false
    → 0 < length tmp
unfolding is_done
not_done-length max_peers [] s h = cc
not_done-length max_peers (p ∷ tmp) s h = omega arith

module _ (o : Options) (max_peers : ℕ) where
  abbrev pub NotSelf : Peer → Type 0
  NotSelf p = is_self o p ≡ false

  choose :
      (draws : List ℕ) (tmp : List Peer) (s : Server)
      → All NotSelf tmp
      → length tmp ≤ length draws
      → (s' : Server) × (select_peers o max_peers draws tmp s ≡ some s')
        × Chosen max_peers tmp s'
        × ((q : Peer) → Known s q → Known s' q)
  unfolding select_peers
  choose [] [] s h k = (s, rw (nothing_left max_peers s) refl, inr tt, λ q e. e)
  choose [] (p ∷ tmp) s h k = absurd (omega (arith, k))
  choose (random ∷ draws) tmp s h k = elim (Bool-cases (is_done max_peers tmp s)) [
    | inl d ↦ (s, rw (d, select_peers) refl, done-Chosen max_peers tmp s d, λ q e. e)
    | inr d ↦
        let t = random % length tmp in
        let small : t < length tmp = mod-lt random (not_done-length max_peers tmp s d) in
        let (p, e) = get_elem?-some tmp t small in
        let (s', r, chosen, keeps) =
          choose draws (erase_at t tmp) (add_peer s p false) (All-erase NotSelf tmp t h)
            (omega (arith, k, length-erase_at tmp t small)) in
        (
          s',
          rw (d, e, All-get NotSelf tmp t h e, select_peers) r,
          elim chosen [
            | inl m ↦ inl m
            | inr a ↦ inr (All-restore (Known s') tmp t e (keeps p (Known-add_self s p)) a)
          ],
          λ q f. keeps q (Known-add s p q f),
        )
  ]

  -- If no entry of the file has the address and the port of the node itself, the loop ends after
  -- at most as many random numbers as there are entries. Then there are MAX_PEERS peers, or the
  -- server has all entries of the file.
  pub select_peers-Chosen :
      (draws : List ℕ) (tmp : List Peer) (s : Server)
      → All NotSelf tmp
      → length tmp ≤ length draws
      → (s' : Server) × (select_peers o max_peers draws tmp s ≡ some s') × Chosen max_peers tmp s'
  select_peers-Chosen draws tmp s h k =
      let (s', r, chosen, keeps) = choose draws tmp s h k in (s', r, chosen)

  -- If each entry that is left has the address and the port of the node itself, there is one, and
  -- there are fewer than MAX_PEERS peers, then the loop does not end, whatever is drawn.
  pub select_peers_stuck :
      (draws : List ℕ) (tmp : List Peer) (s : Server)
      → All (λ p. is_self o p ≡ true) tmp
      → is_done max_peers tmp s ≡ false
      → select_peers o max_peers draws tmp s ≡ none
  unfolding select_peers
  select_peers_stuck [] tmp s h d = rw (d, select_peers) refl
  select_peers_stuck (random ∷ draws) tmp s h d =
      let t = random % length tmp in
      let (p, e) = get_elem?-some tmp t (mod-lt random (not_done-length max_peers tmp s d)) in
      rw (d, e, All-get (λ q. is_self o q ≡ true) tmp t h e, select_peers)
        (select_peers_stuck draws tmp s h d)
