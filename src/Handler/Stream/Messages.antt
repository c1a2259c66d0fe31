-- ===== src/Handler/Stream/Messages.antt =====
-- code/process_buffer.cpp: a stream of complete messages, for any handler of a message.
use ohie.Base.{
  ℕ, ◌≡◌, ◌≢◌, ◌∙◌, refl, sym, ap, List, [], ◌∷◌, ◌++◌, append_assoc, append-nil, Bool, true, false,
  ◌&&◌, Option, none, some, All, ◌>>=◌, Bool-cases, inl, inr, Holds, Holds-bind, ◌==◌,
}
use ohie.Text.{Text}
use ohie.Text.Split.{cons_head}
use ohie.Handler.Stream.{pieces, concat, is_none, process_pieces, process_stream}
use ohie.Handler.Stream.Frames.{
  Message, wire, Partial, Starts, complete_message, pieces-append, wire-Starts, Without-append,
}

-- A stream is cut into pieces without a loss.
concat-cons_head : (c : ℕ) (ts : List Text) → concat (cons_head c ts) ≡ c ∷ concat ts
concat-cons_head c [] = refl
concat-cons_head c (t ∷ ts) = refl

is_none-cons_head : (c : ℕ) (ts : List Text) → is_none (cons_head c ts) ≡ false
is_none-cons_head c [] = refl
is_none-cons_head c (t ∷ ts) = refl

concat-pieces : (t : Text) → concat (pieces t) ≡ t
unfolding pieces
concat-pieces [] = refl
concat-pieces (c ∷ []) = refl
concat-pieces (c ∷ x ∷ xs) = elim (Bool-cases (x == b'#')) [
  | inl e ↦ rw (e, pieces) (ap (◌∷◌ c) (concat-pieces (x ∷ xs)))
  | inr e ↦
      rw (e, pieces) (concat-cons_head c (pieces (x ∷ xs)) ∙ ap (◌∷◌ c) (concat-pieces (x ∷ xs)))
]

is_none-pieces : (c : ℕ) (t : Text) → is_none (pieces (c ∷ t)) ≡ false
unfolding pieces
is_none-pieces c [] = refl
is_none-pieces c (x ∷ xs) = elim (Bool-cases (x == b'#')) [
  | inl e ↦ rw (e, pieces) refl
  | inr e ↦ rw (e, pieces) (is_none-cons_head c (pieces (x ∷ xs)))
]

abbrev pub is_empty : Text → Bool
is_empty [] = true
is_empty (c ∷ cs) = false

-- Whether a message is the last piece: none is behind it, and none has begun.
is_none-wire :
    (ms : List Text) (u : Text)
    → All Message ms
    → is_none (pieces (wire ms ++ u)) ≡ (is_none ms && is_empty u)
unfolding pieces
is_none-wire [] [] h = refl
is_none-wire [] (c ∷ u) h = is_none-pieces c u
is_none-wire ([] ∷ ms) u h = elim h.0 [ ]
is_none-wire ((c ∷ cs) ∷ ms) u h = is_none-pieces c (((cs ++ b'!' ∷ []) ++ wire ms) ++ u)

module _ {ℓ} {S : Type ℓ} (handler : Text → Bool → S → Option (S × Bool)) where
  -- The messages in order, up to one that stops the reader: the state, and the messages from that one on.
  -- `last`: nothing has begun behind them.
  abbrev pub handle_messages : Bool → List Text → S → Option (S × List Text)
  handle_messages last [] s = some (s, [])
  handle_messages last (m ∷ ms) s = do
    r ← handler m (is_none ms && last) s
    elim r.1 [ true ↦ some (r.0, m ∷ ms) | false ↦ handle_messages last ms r.0 ]

  -- The result with the text that the messages left are.
  abbrev pub unread : Text → Option (S × List Text) → Option (S × Text)
  unread u o = do r ← o; some (r.0, wire r.1 ++ u)

  process_pieces-Partial :
      (u : Text) (s : S) → Partial u → process_pieces handler (pieces u) s ≡ some (s, u)
  unfolding process_pieces pieces
  process_pieces-Partial [] s h = refl
  process_pieces-Partial (c ∷ cs) s h =
      ap (λ ps. process_pieces handler ps s)
        (ap pieces (sym (append-nil (c ∷ cs))) ∙ pieces-append c cs [] h.0.1 tt)
      ∙ rw (h.1, process_pieces) (ap (λ t. some (s, t)) (append-nil (c ∷ cs)))

  after_one :
      (o : Option (S × Bool)) (left u : Text) (more : S → Option (S × Text))
      (more' : S → Option (S × List Text)) (ms : List Text)
      → left ≡ wire ms ++ u
      → ((s : S) → more s ≡ unread u (more' s))
      → (do r ← o; elim r.1 [ true ↦ some (r.0, left) | false ↦ more r.0 ])
        ≡ unread u (do r ← o; elim r.1 [ true ↦ some (r.0, ms) | false ↦ more' r.0 ])
  after_one none left u more more' ms e h = refl
  after_one (some (s, true)) left u more more' ms e h = ap (λ t. some (s, t)) e
  after_one (some (s, false)) left u more more' ms e h = h s

  process_pieces-messages :
      (ms : List Text) (u : Text) (s : S)
      → All Message ms
      → Partial u
      → process_pieces handler (pieces (wire ms ++ u)) s
        ≡ unread u (handle_messages (is_empty u) ms s)
  unfolding process_pieces
  process_pieces-messages [] u s h k = process_pieces-Partial u s k
  process_pieces-messages ([] ∷ ms) u s h k = elim h.0 [ ]
  process_pieces-messages ((c ∷ cs) ∷ ms) u s h k =
      ap (λ ps. process_pieces handler ps s)
        (ap pieces (append_assoc ((c ∷ cs) ++ b'!' ∷ []) (wire ms) u)
          ∙ pieces-append c (cs ++ b'!' ∷ []) (wire ms ++ u) (Without-append cs h.0.1)
              (wire-Starts ms u h.1 k))
      ∙ rw (complete_message (c ∷ cs), process_pieces)
          (rw (is_none-wire ms u h.1) (
            after_one (handler (c ∷ cs) (is_none ms && is_empty u) s)
              (((c ∷ cs) ++ b'!' ∷ []) ++ concat (pieces (wire ms ++ u))) u
              (process_pieces handler (pieces (wire ms ++ u))) (handle_messages (is_empty u) ms)
              ((c ∷ cs) ∷ ms)
              (ap (λ t. ((c ∷ cs) ++ b'!' ∷ []) ++ t) (concat-pieces (wire ms ++ u))
                ∙ sym (append_assoc ((c ∷ cs) ++ b'!' ∷ []) (wire ms) u))
              (λ s'. process_pieces-messages ms u s' h.1 k)))

  starting_stream :
      (b : Bool) (t : Text) (s : S)
      → Starts t
      → t ≢ []
      → process_stream handler b t s ≡ process_pieces handler (pieces t) s
  unfolding process_stream
  starting_stream b [] s h ne = absurd (ne refl)
  starting_stream b (c ∷ cs) s h ne = rw (h, process_stream) refl

  -- The messages of a stream are handled in order, up to one that stops the reader; what is behind that, or
  -- has begun, stays in the buffer.
  pub process_stream-messages :
      (b : Bool) (ms : List Text) (u : Text) (s : S)
      → All Message ms
      → Partial u
      → wire ms ++ u ≢ []
      → process_stream handler b (wire ms ++ u) s ≡ unread u (handle_messages (is_empty u) ms s)
  process_stream-messages b ms u s h k ne =
      starting_stream b (wire ms ++ u) s (wire-Starts ms u h k) ne
      ∙ process_pieces-messages ms u s h k

  -- The messages left are some of the messages.
  pub handle_messages-All :
      (P : Text → Type 0) (last : Bool) (ms : List Text) (s : S)
      → All P ms
      → Holds (λ r. All P r.1) (handle_messages last ms s)
  handle_messages-All P last [] s h = tt
  handle_messages-All P last (m ∷ ms) s h = Holds-bind _ (handler m (is_none ms && last) s) _ λ r e.
      elim (Bool-cases r.1) [
        | inl k ↦ rw k h
        | inr k ↦ rw k (handle_messages-All P last ms r.0 h.1)
      ]
