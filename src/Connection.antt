-- ===== src/Connection.antt =====
-- code/MyServer.cpp: the connections that peers open, `tcp_connection`, and what arrives through them.
-- Sockets are not modelled: a read gives bytes, or an error.
pub mod Cuts
pub mod Chunks
pub mod Accept
mod Examples
use ohie.Base.{
  ℕ, ◌+◌, ◌%◌, ◌^◌, List, [], ◌∷◌, ◌++◌, Bool, true, false, Option, none, some, if◌then◌else◌,
  ◌>>=◌, length,
}
use ohie.StdMap.{Entries, lookup, assign}
use ohie.Text.{Text, codes}
use ohie.Text.Number.{to_string}
use ohie.Text.Order.{text_order}
use ohie.Handler.State.{World}
use ohie.Handler.Stream.{Environment, process_buffer}

-- `is_reading`: a read is under way. The connection of the source is dropped when there is none.
pub record Connection : Type 0 where
  pub id : ℕ
  pub full_buffer : Text
  pub is_reading : Bool

-- The constructor, and the number that `start_accept` draws.
unfoldable pub tcp_connection : ℕ → Connection
tcp_connection id = record { id = id; full_buffer = []; is_reading = false }

-- A node and one connection; `session_files` is the folder FOLDER_SESSIONS.
pub record Session : Type 0 where
  pub connection : Connection
  pub world : World
  pub bytes_received : ℕ
  pub session_files : Entries Text Text

-- A file that is opened to append.
unfoldable pub append_file : Text → Text → Entries Text Text → Entries Text Text
append_file name t files =
    assign name (elim (lookup name files) [ none ↦ t | some old ↦ old ++ t ]) files

unfoldable pub session_file : ℕ → Text
session_file id = codes "_Sessions" ++ b'/' ∷ to_string id

-- `full_buffer` with the new bytes behind it goes to the reader of the buffer.
unfoldable pub receive {ℓ} :
    {S : Type ℓ} → (Text → S → Option (S × Text)) → Text → S × Text → Option (S × Text)
receive process bytes (s, full_buffer) = process (full_buffer ++ bytes) s

-- `add_bytes_received`, for the two counters.
unfoldable pub add_bytes_received : ℕ → ℕ → ℕ × ℕ → ℕ × ℕ
add_bytes_received br mbr (bytes, txs) = ((bytes + br) % 2 ^ 64, (txs + mbr) % 2 ^ 64)

-- The end of one read: an error stops the reading, and bytes are processed before the next read.
unfoldable pub start : Environment → Bool → Option Text → Session → Option Session
start e write_sessions_to_hdd read s = elim read [
  | none ↦ some (record s { connection = record s.connection { is_reading = false } })
  | some bytes ↦ do
    let w = s.world
    let counts : ℕ × ℕ =
        add_bytes_received (length bytes) 0 (s.bytes_received, w.bytes_txs_received)
    r ←
        receive (process_buffer e) bytes
          (record w { bytes_txs_received = counts.1 }, s.connection.full_buffer)
    some (record {
      connection = record s.connection { full_buffer = r.1; is_reading = true };
      world = r.0;
      bytes_received = counts.0;
      session_files =
          if write_sessions_to_hdd
          then append_file (session_file s.connection.id) (bytes ++ 10 ∷ []) s.session_files
          else s.session_files;
    })
]

-- One read after the other.
unfoldable pub start_all : Environment → Bool → List (Option Text) → Session → Option Session
start_all e write_sessions_to_hdd [] s = some s
start_all e write_sessions_to_hdd (read ∷ reads) s = do
  s' ← start e write_sessions_to_hdd read s
  start_all e write_sessions_to_hdd reads s'
