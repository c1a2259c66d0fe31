-- ===== src/Connection/Chunks.antt =====
-- code/MyServer.cpp: a stream that arrives in several reads.
use ohie.Base.{
  ℕ, ◌≡◌, ◌≢◌, ◌∙◌, refl, sym, ap, subst, List, [], ◌∷◌, ◌++◌, append_assoc, append-nil, Bool,
  Option, All-mono, none, some, All, All-++, Holds, Holds-bind, Holds-some, ◌>>=◌,
}
use ohie.Text.{Text}
use ohie.StdMap.{Entries}
use ohie.Handler.State.{World}
use ohie.Handler.Stream.{concat, Environment, handle_message, process_buffer}
use ohie.Handler.Stream.Frames.{Message, wire}
use ohie.Handler.Stream.Messages.{
  is_empty, unread, handle_messages, process_stream-messages, handle_messages-All,
}
use ohie.Connection.{receive}
use ohie.Connection.Cuts.{Plain, Begun, IsFull, Begun-Partial, wire-Cut, wire-Without, All-split}

-- The reads of a connection, in order.
unfoldable pub receive_all {ℓ} :
    {S : Type ℓ} → (Text → S → Option (S × Text)) → List Text → S × Text → Option (S × Text)
receive_all process [] r = some r
receive_all process (bytes ∷ reads) r = do
  r' ← receive process bytes r
  receive_all process reads r'

++-IsFull : (q r : Text) → IsFull r → IsFull (q ++ r)
++-IsFull [] r h = h
++-IsFull (c ∷ q) r h = λ e. cc

wire-++ : (xs ys : List Text) → wire (xs ++ ys) ≡ wire xs ++ wire ys
wire-++ [] ys = refl
wire-++ (x ∷ xs) ys =
    ap (λ t. (x ++ b'!' ∷ []) ++ t) (wire-++ xs ys)
    ∙ sym (append_assoc (x ++ b'!' ∷ []) (wire xs) (wire ys))

-- What a read brings: the messages that it makes complete, and what has begun behind them.
abbrev pub Arrival : Type 0
Arrival = List Text × Text

-- The arrivals of reads, from a buffer with the beginning `q` of a message.
abbrev pub Arrives : Text → List Text → List Arrival → Type 0
Arrives q [] [] = Unit
Arrives q [] (a ∷ brought) = ⊥
Arrives q (r ∷ reads) [] = ⊥
Arrives q (r ∷ reads) (a ∷ brought) = (q ++ r ≡ wire a.0 ++ a.1) × Arrives a.1 reads brought

abbrev pub messages_of : List Arrival → List Text
messages_of [] = []
messages_of (a ∷ brought) = a.0 ++ messages_of brought

abbrev pub last_begun : Text → List Arrival → Text
last_begun q [] = q
last_begun q (a ∷ brought) = last_begun a.1 brought

-- The messages of one read, with a map of keys that is empty at first.
abbrev pub read_messages : Environment → Bool → List Text → World → Option (World × List Text)
read_messages e last ms w = do
  r ← handle_messages (handle_message e) last ms (w, [])
  some (r.0.0, r.1)

-- Each read in turn: the messages that are left from the read before, and its own.
abbrev pub deliver : Environment → Text → List Arrival → List Text × World → Option (World × Text)
deliver e q [] (left, w) = some (w, wire left ++ q)
deliver e q (a ∷ brought) (left, w) = do
  r ← read_messages e (is_empty a.1) (left ++ a.0) w
  deliver e a.1 brought (r.1, r.0)

-- The messages are messages, and the beginnings are beginnings.
abbrev Sound : List Arrival → Type 0
Sound brought = All (λ (a : Arrival). All Plain a.0 × Begun a.1) brought

cut_reads :
    (reads : List Text) (q : Text) (ms : List Text) (p : Text)
    → All Plain ms
    → Begun p
    → Begun q
    → q ++ concat reads ≡ wire ms ++ p
    → (brought : List Arrival) × Arrives q reads brought
      × (messages_of brought ≡ ms)
      × (last_begun q brought ≡ p)
      × Sound brought
cut_reads [] q ms p hs kp kq e =
    let e' : q ≡ wire ms ++ p = sym (append-nil q) ∙ e in
    let no_ms : ms ≡ [] = wire-Without ms p (subst Begun e' kq) in
    ([], tt, sym no_ms, e' ∙ ap (λ l. wire l ++ p) no_ms, tt)
cut_reads (r ∷ reads) q ms p hs kp kq e =
    let (ms1, ms2, u, e1, e2, e3, e4) =
      wire-Cut ms p (q ++ r) (concat reads) hs kp (append_assoc q r (concat reads) ∙ e) in
    let (h1, h2) = All-split Plain ms1 ms2 (subst (All Plain) e1 hs) in
    let (brought, b, c, d, s) = cut_reads reads u ms2 p h2 kp e4 e3 in
    ((ms1, u) ∷ brought, (e2, b), ap (◌++◌ ms1) c ∙ sym e1, d, ((h1, e4), s))

module _ (e : Environment) where
  -- The state without the map of keys.
  abbrev worlds : Option ((World × Entries Text ℕ) × List Text) → Option (World × List Text)
  worlds o = do q ← o; some (q.0.0, q.1)

  abbrev worlds_text : Option ((World × Entries Text ℕ) × Text) → Option (World × Text)
  worlds_text o = do q ← o; some (q.0.0, q.1)

  unread-worlds :
      (o : Option ((World × Entries Text ℕ) × List Text)) (u : Text)
      → worlds_text (unread (handle_message e) u o) ≡ (do r ← worlds o; some (r.0, wire r.1 ++ u))
  unread-worlds none u = refl
  unread-worlds (some q) u = refl

  process_buffer-messages :
      (ms : List Text) (u : Text) (w : World)
      → All Plain ms
      → Begun u
      → wire ms ++ u ≢ []
      → process_buffer e (wire ms ++ u) w
        ≡ (do r ← read_messages e (is_empty u) ms w; some (r.0, wire r.1 ++ u))
  unfolding process_buffer
  process_buffer-messages ms u w h k ne =
      ap worlds_text (
        process_stream-messages (handle_message e) e.cfg.print_transmission_errors ms u (w, [])
          (All-mono Plain Message ms (λ m l. l.0) h) (Begun-Partial u k) ne)
      ∙ unread-worlds (handle_messages (handle_message e) (is_empty u) ms (w, [])) u

  read_messages-All :
      (last : Bool) (ms : List Text) (w : World)
      → All Plain ms
      → Holds (λ (r : World × List Text). All Plain r.1) (read_messages e last ms w)
  read_messages-All last ms w h =
      Holds-bind _ (handle_messages (handle_message e) last ms (w, [])) _
        λ r k. Holds-some _ _ k (handle_messages-All (handle_message e) Plain last ms (w, []) h)

  go_on :
      (o : Option (World × List Text)) (reads : List Text) (u : Text) (brought : List Arrival)
      → Holds (λ (r : World × List Text). All Plain r.1) o
      → ((r : World × List Text)
          → All Plain r.1
          → receive_all (process_buffer e) reads (r.0, wire r.1 ++ u)
            ≡ deliver e u brought (r.1, r.0))
      → (do r' ← (do r ← o; some (r.0, wire r.1 ++ u)); receive_all (process_buffer e) reads r')
        ≡ (do r ← o; deliver e u brought (r.1, r.0))
  go_on none reads u brought h k = refl
  go_on (some r) reads u brought h k = k r h

  receive_all-deliver :
      (reads : List Text) (q : Text) (brought : List Arrival) (left : List Text) (w : World)
      → All IsFull reads
      → All Plain left
      → Sound brought
      → Arrives q reads brought
      → receive_all (process_buffer e) reads (w, wire left ++ q) ≡ deliver e q brought (left, w)
  unfolding receive_all receive
  receive_all-deliver [] q [] left w hr hl hs b = refl
  receive_all-deliver [] q (a ∷ brought) left w hr hl hs b = elim b [ ]
  receive_all-deliver (r ∷ reads) q [] left w hr hl hs b = elim b [ ]
  receive_all-deliver (r ∷ reads) q (a ∷ brought) left w hr hl hs b =
      let text : (wire left ++ q) ++ r ≡ wire (left ++ a.0) ++ a.1 =
        append_assoc (wire left) q r
        ∙ ap (λ t. wire left ++ t) b.0
        ∙ sym (append_assoc (wire left) (wire a.0) a.1)
        ∙ ap (λ t. t ++ a.1) (sym (wire-++ left a.0)) in
      let plain : All Plain (left ++ a.0) = All-++ Plain left a.0 hl hs.0.0 in
      let full = subst IsFull text (++-IsFull (wire left ++ q) r hr.0) in
      ap (λ (o : Option (World × Text)). do r' ← o; receive_all (process_buffer e) reads r')
        (ap (λ t. process_buffer e t w) text
          ∙ process_buffer-messages (left ++ a.0) a.1 w plain hs.0.1 full)
      ∙ go_on (read_messages e (is_empty a.1) (left ++ a.0) w) reads a.1 brought
          (read_messages-All (is_empty a.1) (left ++ a.0) w plain)
          (λ r' l. receive_all-deliver reads a.1 brought r'.1 r'.0 hr.1 l hs.1 b.1)

-- However a stream of messages, `#` and a text without `#` and `!` each and `!` behind it, and
-- perhaps the beginning of one more, is cut into reads that are not empty: the messages and the
-- beginning are spread over the reads, in their order and without a loss, and `process_buffer`,
-- run at each read, does what its handler does with the messages of one read after the other,
-- each read with an empty map of keys. A message that stops the reader, with those behind it,
-- stays in the buffer and is handled again at the next read. The result, a fault too, is that of
-- the handler, and the beginning stays in the buffer.
pub receive_all-wire :
    (e : Environment) (reads : List Text) (q : Text) (ms : List Text) (p : Text) (w : World)
    → All IsFull reads
    → All Plain ms
    → Begun p
    → Begun q
    → q ++ concat reads ≡ wire ms ++ p
    → (brought : List Arrival) × Arrives q reads brought
      × (messages_of brought ≡ ms)
      × (last_begun q brought ≡ p)
      × (receive_all (process_buffer e) reads (w, q) ≡ deliver e q brought ([], w))
receive_all-wire e reads q ms p w hr hs kp kq h =
    let (brought, b, c, d, s) = cut_reads reads q ms p hs kp kq h in
    (brought, b, c, d, receive_all-deliver e reads q brought [] w hr tt s b)
