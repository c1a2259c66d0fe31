-- ===== src/Handler/Stream.antt =====
-- code/process_buffer.cpp: the messages of a stream, `#…!` each, and the loop over them.
pub mod Frames
pub mod Messages
use ohie.Base.{
  ℕ, List, [], ◌∷◌, ◌++◌, Bool, true, false, Option, none, some, ◌==◌, if◌then◌else◌, ◌>>=◌,
}
use ohie.Config.{Config}
use ohie.StdMap.{Entries}
use ohie.Text.{Text, codes, text_eq}
use ohie.Text.Split.{split, cons_head}
use ohie.Blockchain.State.{NetworkBlock}
use ohie.Requests.{Node}
use ohie.Handler.State.{World, Handled}
use ohie.Handler.Blocks.{
  handle_ping, handle_ask_block, handle_process_block, handle_got_full_block,
  handle_have_full_block, handle_ask_full_block,
}
use ohie.Handler.Gossip.{handle_transactions}
use ohie.Handler.Full.{handle_full_block}

-- A text that begins with `#`, cut before each `#`.
unfoldable pub pieces : Text → List Text
pieces [] = []
pieces (c ∷ []) = (c ∷ []) ∷ []
pieces (c ∷ x ∷ xs) =
    let rest = pieces (x ∷ xs) in if x == b'#' then (c ∷ []) ∷ rest else cons_head c rest

-- A message without its `!`, if it is complete.
unfoldable pub complete : Text → Option Text
complete [] = none
complete (c ∷ []) = if c == b'!' then some [] else none
complete (c ∷ x ∷ xs) = do rest ← complete (x ∷ xs); some (c ∷ rest)

abbrev pub concat : List Text → Text
concat [] = []
concat (t ∷ ts) = t ++ concat ts

abbrev pub is_none : List Text → Bool
is_none [] = true
is_none (t ∷ ts) = false

module _ {ℓ} {S : Type ℓ} (handler : Text → Bool → S → Option (S × Bool)) where
  -- The messages one by one: the state, and what stays in the buffer.
  unfoldable pub process_pieces : List Text → S → Option (S × Text)
  process_pieces [] s = some (s, [])
  process_pieces (w ∷ ws) s = elim (complete w) [
    | none ↦ some (s, concat (w ∷ ws))
    | some m ↦ do
      r ← handler m (is_none ws) s
      elim r.1 [ true ↦ some (r.0, concat (w ∷ ws)) | false ↦ process_pieces ws r.0 ]
  ]

  -- A buffer that does not begin with `#` is thrown away.
  unfoldable pub process_stream : Bool → Text → S → Option (S × Text)
  process_stream print_transmission_errors [] s =
      if print_transmission_errors then none else some (s, [])
  process_stream print_transmission_errors (c ∷ cs) s =
      let rest = process_pieces (pieces (c ∷ cs)) s in
      if c == b'#' then rest else if print_transmission_errors then none else some (s, [])

-- What a node knows beside its state: `blank` is what a new `network_block` on the stack holds.
pub record Environment : Type 0 where
  pub cfg : Config
  pub node : Node
  pub sha256 : Text → Text
  pub get_ip : Text → Text
  pub atoi : Text → ℕ
  pub mpl : ℕ
  pub now : ℕ
  pub clock : ℕ → ℕ
  pub blank : NetworkBlock

-- The first field says which message it is; others are passed over.
unfoldable pub dispatch : Environment → List Text → Entries Text ℕ → Bool → World → Handled
dispatch e [] passed is_last w = some (w, passed, false)
dispatch e (name ∷ fields) passed is_last w =
    let sp = name ∷ fields in
    if text_eq name (codes "#ping")
    then handle_ping e.cfg e.node e.get_ip e.atoi sp passed is_last w
    else if text_eq name (codes "#ask_block")
    then handle_ask_block e.cfg e.node e.get_ip e.atoi sp passed is_last w
    else if text_eq name (codes "#process_block")
    then handle_process_block e.cfg e.node e.get_ip e.atoi e.blank sp passed is_last w
    else if text_eq name (codes "#got_full_block")
    then handle_got_full_block e.cfg e.node e.get_ip e.atoi sp passed is_last w
    else if text_eq name (codes "#have_full_block")
    then handle_have_full_block e.cfg e.node e.get_ip e.atoi e.now sp passed is_last w
    else if text_eq name (codes "#ask_full_block")
    then handle_ask_full_block e.cfg e.node e.get_ip e.atoi e.now sp passed is_last w
    else if text_eq name (codes "#full_block")
    then handle_full_block e.cfg e.node e.sha256 e.now e.get_ip e.mpl sp passed is_last w
    else if text_eq name (codes "#transactions")
    then handle_transactions e.cfg e.node e.get_ip e.atoi e.clock sp passed is_last w
    else some (w, passed, false)

unfoldable pub handle_message :
    Environment → Text → Bool → World × Entries Text ℕ → Option ((World × Entries Text ℕ) × Bool)
handle_message e m is_last (w, passed) = do
  r ← dispatch e (split m b',') passed is_last w
  some ((r.0, r.1), r.2)

-- The state, and what stays in the buffer of the connection. The keys that passed are forgotten.
unfoldable pub process_buffer : Environment → Text → World → Option (World × Text)
process_buffer e m w = do
  r ← process_stream (handle_message e) e.cfg.print_transmission_errors m (w, [])
  some (r.0.0, r.1)
