-- ===== src/Server/Queue.antt =====
-- code/MyServer.cpp: the queue of messages to one peer, through all that can happen to it.
use ohie.Base.{
  ℕ, suc, ◌-◌, ◌<◌, ◌≡◌, ◌≢◌, refl, sym, List, [], ◌∷◌, ◌++◌, Bool, true, false, true≢false, ◌⊎◌,
  inl, inr, arith,
}
use ohie.Text.{Text}
use ohie.Server.{Line, write_line, strand_write, handle_write, strand_proceed}

-- A line, and how many calls of `strand_proceed` are posted and have not run.
pub record Strand : Type 0 where
  pub line : Line
  pub posted : ℕ

-- What can happen, in any order: a message that was posted is put into the queue, the socket is done
-- with a message, an attempt to connect succeeds, and `strand_proceed` is posted, such a call runs, or
-- the connection is closed, as by an attempt that fails after another one succeeded.
pub data Step : Strand → Strand → Type 0 where
  post : (s : Strand) (m : Text) → Step s (record s { line = strand_write s.line m })
  done :
      (s : Strand) (error : Bool)
      → 0 < s.line.writes
      → Step s (record s { line = handle_write s.line error })
  connect :
      (s : Strand)
      → Step s (record { line = record (s.line) { is_open = true }; posted = suc s.posted })
  proceed :
      (s : Strand)
      → 0 < s.posted
      → Step s (record { line = strand_proceed s.line; posted = s.posted - 1 })
  close : (s : Strand) → Step s (record s { line = record (s.line) { is_open = false } })

pub data Reachable : Strand → Type 0 where
  start : Reachable (record {
    line = record { queue = []; is_open = false; started = []; writes = 0 };
    posted = 0;
  })
  step : (s t : Strand) → Reachable s → Step s t → Reachable t

-- Messages that wait on an open connection wait for a write, or for a call of `strand_proceed`.
abbrev Moves : Strand → Type 0
Moves s = s.line.is_open ≡ true → s.line.queue ≢ [] → (0 < s.line.writes) ⊎ (0 < s.posted)

-- After `write_line` a write is under way, where messages wait on an open connection.
write_line-Moves :
    (queue : List Text) (is_open : Bool) (started : List Text) (writes posted : ℕ)
    → Moves (record {
      line =
          write_line
            (record { queue = queue; is_open = is_open; started = started; writes = writes });
      posted = posted;
    })
unfolding write_line
write_line-Moves [] is_open started writes posted o q = absurd (q refl)
write_line-Moves (m ∷ ms) true started writes posted o q = inl (omega arith)
write_line-Moves (m ∷ ms) false started writes posted o q = absurd (q refl)

abbrev strand : List Text → Bool → List Text → ℕ → ℕ → Strand
strand q o b w p = record {
  line = record { queue = q; is_open = o; started = b; writes = w };
  posted = p;
}

strand_write-Moves :
    (q : List Text) (o : Bool) (b : List Text) (w p : ℕ) (m : Text)
    → Moves (strand q o b w p)
    → Moves (record { line = strand_write (strand q o b w p).line m; posted = p })
unfolding strand_write
strand_write-Moves [] o b w p m h = write_line-Moves ((m ++ b'!' ∷ []) ∷ []) o b w p
strand_write-Moves (x ∷ q) o b w p m h = λ k n. h k (λ e. cc)

handle_write-Moves :
    (q : List Text) (o : Bool) (b : List Text) (w p : ℕ) (error : Bool)
    → Moves (record { line = handle_write (strand q o b w p).line error; posted = p })
unfolding handle_write
handle_write-Moves [] o b w p error = λ k n. absurd (n refl)
handle_write-Moves (x ∷ q) o b w p true = λ k n. absurd (true≢false (sym k))
handle_write-Moves (x ∷ q) o b w p false = write_line-Moves q o b (w - 1) p

Step-Moves : {s t : Strand} → Step s t → Moves s → Moves t
unfolding strand_proceed
Step-Moves (post s m) h =
    strand_write-Moves s.line.queue s.line.is_open s.line.started s.line.writes s.posted m h
Step-Moves (done s error b) h =
    handle_write-Moves s.line.queue s.line.is_open s.line.started s.line.writes s.posted error
Step-Moves (connect s) h = λ k n. inr (omega arith)
Step-Moves (proceed s b) h =
    write_line-Moves s.line.queue s.line.is_open s.line.started s.line.writes (s.posted - 1)
Step-Moves (close s) h = λ k n. absurd (true≢false (sym k))

Reachable-Moves : (s : Strand) → Reachable s → Moves s
Reachable-Moves s start = λ k n. absurd (n refl)
Reachable-Moves s (step r t reached one) = Step-Moves one (Reachable-Moves r reached)

-- There is no open connection, no message waits, the socket has a write under way, or a call of
-- `strand_proceed` is still to run.
abbrev pub GoesOn : Strand → Type 0
GoesOn s = (s.line.is_open ≡ false) ⊎ (s.line.queue ≡ []) ⊎ (0 < s.line.writes) ⊎ (0 < s.posted)

Moves-cases :
    (q : List Text) (o : Bool) (b : List Text) (w p : ℕ)
    → Moves (strand q o b w p)
    → GoesOn (strand q o b w p)
Moves-cases q false b w p h = inl refl
Moves-cases [] true b w p h = inr (inl refl)
Moves-cases (x ∷ q) true b w p h = inr (inr (h refl (λ e. cc)))

-- In every state that posts, completed writes, attempts to connect that succeed, the calls of
-- `strand_proceed` that these post, and closes lead to, in any order: where messages wait on an
-- open connection, the socket has a write under way or a call of `strand_proceed` is still to
-- run, so that the queue is not stuck.
pub queue-GoesOn : (s : Strand) → Reachable s → GoesOn s
queue-GoesOn s r =
    Moves-cases s.line.queue s.line.is_open s.line.started s.line.writes s.posted
      (Reachable-Moves s r)
