-- ===== src/Handler/Stream/Frames.antt =====
-- code/process_buffer.cpp: which messages are taken from a stream.
use ohie.Base.{
  ℕ, ◌≡◌, ◌≢◌, ◌∙◌, refl, sym, ap, List, [], ◌∷◌, ◌++◌, append_assoc, append-nil, Bool, false,
  Option, none, some, arith, All,
}
use ohie.Text.{Text}
use ohie.Text.Split.{Without}
use ohie.Handler.Stream.{pieces, complete, process_pieces, process_stream}

-- `#` and a text without `#`.
abbrev pub Message : Text → Type 0
Message [] = ⊥
Message (c ∷ cs) = (c ≡ b'#') × Without b'#' cs

-- What is on the wire: each message with `!` behind it.
abbrev pub wire : List Text → Text
wire [] = []
wire (m ∷ ms) = (m ++ b'!' ∷ []) ++ wire ms

-- The beginning of a message, not complete yet.
abbrev pub Partial : Text → Type 0
Partial [] = Unit
Partial (c ∷ cs) = Message (c ∷ cs) × (complete (c ∷ cs) ≡ none)

-- A text that is empty or begins with `#`.
abbrev pub Starts : Text → Type 0
Starts [] = Unit
Starts (c ∷ cs) = c ≡ b'#'

pub complete_message : (m : Text) → complete (m ++ b'!' ∷ []) ≡ some m
unfolding complete
complete_message [] = ground arith
complete_message (c ∷ []) = ground arith
complete_message (c ∷ x ∷ xs) = rw (complete_message (x ∷ xs), complete) refl

-- A message is one piece, before any text that begins with `#`.
pub pieces-append :
    (c : ℕ) (cs rest : Text)
    → Without b'#' cs
    → Starts rest
    → pieces ((c ∷ cs) ++ rest) ≡ (c ∷ cs) ∷ pieces rest
unfolding pieces
pieces-append c [] [] h k = refl
pieces-append c [] (x ∷ xs) h k = ground (arith, k)
pieces-append c (d ∷ ds) rest h k = ground (arith, h.0, pieces-append d ds rest h.1 k)

pub wire-Starts : (ms : List Text) (p : Text) → All Message ms → Partial p → Starts (wire ms ++ p)
wire-Starts [] [] h k = tt
wire-Starts [] (c ∷ cs) h k = k.0.0
wire-Starts ([] ∷ ms) p h k = elim h.0 [ ]
wire-Starts ((c ∷ cs) ∷ ms) p h k = h.0.0

-- The messages handled in order.
abbrev pub handle_all {ℓ} : {S : Type ℓ} → (Text → S → S) → List Text → S → S
handle_all f [] s = s
handle_all f (m ∷ ms) s = handle_all f ms (f m s)

bang-ne-hash : ◌≢◌ {A = ℕ} b'!' b'#'
bang-ne-hash e = omega (arith, e)

pub Without-append : (cs : Text) → Without b'#' cs → Without b'#' (cs ++ b'!' ∷ [])
Without-append [] h = (bang-ne-hash, tt)
Without-append (c ∷ cs) h = (h.0, Without-append cs h.1)

module _ {ℓ} {S : Type ℓ} (f : Text → S → S) where
  -- A handler that goes on after each message.
  abbrev pub handler : Text → Bool → S → Option (S × Bool)
  handler m is_last s = some (f m s, false)

  pieces-Partial :
      (p : Text) (s : S) → Partial p → process_pieces handler (pieces p) s ≡ some (s, p)
  unfolding process_pieces pieces
  pieces-Partial [] s h = refl
  pieces-Partial (c ∷ cs) s h =
      ap (λ ps. process_pieces handler ps s)
        (ap pieces (sym (append-nil (c ∷ cs))) ∙ pieces-append c cs [] h.0.1 tt)
      ∙ rw (h.1, process_pieces) (ap (λ t. some (s, t)) (append-nil (c ∷ cs)))

  pieces-wire :
      (ms : List Text) (p : Text) (s : S)
      → All Message ms
      → Partial p
      → process_pieces handler (pieces (wire ms ++ p)) s ≡ some (handle_all f ms s, p)
  unfolding process_pieces
  pieces-wire [] p s h k = pieces-Partial p s k
  pieces-wire ([] ∷ ms) p s h k = elim h.0 [ ]
  pieces-wire ((c ∷ cs) ∷ ms) p s h k =
      ap (λ ps. process_pieces handler ps s)
        (ap pieces (append_assoc ((c ∷ cs) ++ b'!' ∷ []) (wire ms) p)
          ∙ pieces-append c (cs ++ b'!' ∷ []) (wire ms ++ p) (Without-append cs h.0.1)
              (wire-Starts ms p h.1 k))
      ∙ rw (complete_message (c ∷ cs), process_pieces) (pieces-wire ms p (f (c ∷ cs) s) h.1 k)

  nonempty_stream :
      (b : Bool) (t : Text) (s : S)
      → Starts t
      → t ≢ []
      → process_stream handler b t s ≡ process_pieces handler (pieces t) s
  unfolding process_stream
  nonempty_stream b [] s h ne = absurd (ne refl)
  nonempty_stream b (c ∷ cs) s h ne = rw (h, process_stream) refl

  -- From a stream of complete messages, `#` and a text without `#` each and `!` behind it, and
  -- perhaps the beginning of one more, exactly the complete messages are handled, in order, and
  -- the beginning stays in the buffer, where the next read goes on. This is for a handler that
  -- goes on after each message, and a stream that is not empty.
  pub process_stream-wire :
      (print_transmission_errors : Bool) (ms : List Text) (p : Text) (s : S)
      → All Message ms
      → Partial p
      → wire ms ++ p ≢ []
      → process_stream handler print_transmission_errors (wire ms ++ p) s
        ≡ some (handle_all f ms s, p)
  process_stream-wire b ms p s h k ne =
      nonempty_stream b (wire ms ++ p) s (wire-Starts ms p h k) ne ∙ pieces-wire ms p s h k
