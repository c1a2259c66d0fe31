-- ===== src/Blockchain/Receive/Again.antt =====
-- code/Blockchain.cpp: blocks that a main chain has, under any messages that arrive later.
use ohie.Base.{
  ℕ, ◌≡◌, ◌∙◌, refl, sym, ap, List, [], ◌∷◌, Bool, true, false, true≢false, Option, some, some-inj,
  Holds, Holds-bind, Holds-some, get_elem?, All, if◌then◌else◌, ◌>>=◌,
}
use ohie.Blockchain.HashTree.{find_block_by_hash}
use ohie.Blockchain.State.{NetworkBlock, Chain, Blockchain}
use ohie.Blockchain.Receive.{Outcome, add_received_block}
use ohie.Blockchain.Receive.Extend.{add_received_block_known}
use ohie.Blockchain.Receive.Keeps.{add_received_block_keeps}

-- The arguments of one call of `add_received_block`.
pub record Message : Type 0 where
  pub chain_id : ℕ
  pub parent : ℕ
  pub hash : ℕ
  pub nb : NetworkBlock

-- The messages in order: the state, and the chain and the hash of each block that is spread.
abbrev pub receive_messages : List Message → Blockchain → Option (Blockchain × List (ℕ × ℕ))
receive_messages [] bc = some (bc, [])
receive_messages (m ∷ ms) bc = do
  o ← add_received_block bc m.chain_id m.parent m.hash m.nb
  r ← receive_messages ms o.state
  some (r.0, if o.added then (m.chain_id, m.hash) ∷ r.1 else r.1)

-- A main chain finds a block under the hash.
abbrev pub Has : ℕ → ℕ → Blockchain → Type 0
Has i hash bc =
    (c : Chain) × (a : ℕ) × (get_elem? bc.chains i ≡ some c)
    × (find_block_by_hash c.chain.index hash ≡ some a)

abbrev pub IsOther : ℕ → ℕ → ℕ × ℕ → Type 0
IsOther i hash s = ¬ ((s.0 ≡ i) × (s.1 ≡ hash))

pair_eq : {a b c d : ℕ} → a ≡ b → c ≡ d → ◌≡◌ {A = ℕ × ℕ} (a, c) (b, d)
pair_eq h k = cc

module _ (i hash : ℕ) where
  known_again :
      (bc : Blockchain) (parent : ℕ) (nb : NetworkBlock)
      → Has i hash bc
      → add_received_block bc i parent hash nb
        ≡ some (record { state = bc; need_parent = false; added = false })
  known_again bc parent nb (c, a, e, f) = add_received_block_known bc i parent hash a nb c e f

  spread-IsOther :
      (bc : Blockchain) (m : Message) (o : Outcome)
      → Has i hash bc
      → add_received_block bc m.chain_id m.parent m.hash m.nb ≡ some o
      → o.added ≡ true
      → IsOther i hash (m.chain_id, m.hash)
  spread-IsOther bc m o h e t (k, l) =
      let e' : add_received_block bc i m.parent hash m.nb ≡ some o =
        ap (λ (s : ℕ × ℕ). add_received_block bc s.0 m.parent s.1 m.nb) (sym (pair_eq k l)) ∙ e in
      let same = some-inj (sym (known_again bc m.parent m.nb h) ∙ e') in
      true≢false (sym t ∙ sym (ap (λ (x : Outcome). x.added) same))

  spread_cons :
      (b : Bool) (s : ℕ × ℕ) (rest : List (ℕ × ℕ))
      → (b ≡ true → IsOther i hash s)
      → All (IsOther i hash) rest
      → All (IsOther i hash) (if b then s ∷ rest else rest)
  spread_cons true s rest h k = (h refl, k)
  spread_cons false s rest h k = k

  messages-Has :
      (ms : List Message) (bc : Blockchain)
      → Has i hash bc
      → Holds
          (λ (r : Blockchain × List (ℕ × ℕ)). Has i hash r.0 × All (IsOther i hash) r.1)
          (receive_messages ms bc)
  messages-Has [] bc h = (h, tt)
  messages-Has (m ∷ ms) bc h =
      Holds-bind _ (add_received_block bc m.chain_id m.parent m.hash m.nb) _ λ o e.
        let (c', d, f) =
          add_received_block_keeps bc m.chain_id m.parent m.hash m.nb o i h.0 hash h.1 e h.2 h.3 in
        Holds-bind _ (receive_messages ms o.state) _ λ r g.
          let (j, k) = Holds-some _ _ g (messages-Has ms o.state (c', h.1, d, f)) in
          (j, spread_cons o.added (m.chain_id, m.hash) r.1 (spread-IsOther bc m o h e) k)

-- Once a main chain has a block under a hash, whatever messages arrive and whichever chains they
-- are for: none of them makes the node spread a block of that chain with that hash, and a message
-- for it afterwards changes nothing, and is neither spread nor asks for its parent.
pub add_received_block_again :
    (bc bc' : Blockchain) (i hash a parent : ℕ) (c : Chain) (nb : NetworkBlock) (ms : List Message)
    (spread : List (ℕ × ℕ))
    → get_elem? bc.chains i ≡ some c
    → find_block_by_hash c.chain.index hash ≡ some a
    → receive_messages ms bc ≡ some (bc', spread)
    → All (IsOther i hash) spread
      × (add_received_block bc' i parent hash nb
          ≡ some (record { state = bc'; need_parent = false; added = false }))
add_received_block_again bc bc' i hash a parent c nb ms spread e f g =
    let (h, k) = Holds-some _ _ g (messages-Has i hash ms bc (c, a, e, f)) in
    (k, known_again i hash bc' parent nb h)
