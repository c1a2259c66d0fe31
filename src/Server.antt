-- ===== src/Server.antt =====
-- code/MyServer.cpp: the table of peers, the pings that were seen, and the queue of messages to one
-- peer. `atoi` of the C library is a parameter.
mod Examples
pub mod Pings
pub mod Peers
pub mod Queue
pub mod Writes
pub mod Connect
use ohie.Base.{
  ◌-◌, ℕ, suc, ◌+◌, ◌%◌, ◌^◌, List, [], ◌∷◌, ◌++◌, Bool, true, false, not, ◌&&◌, ◌||◌, Option, none,
  some, is_some, ltb, ◌==◌, if◌then◌else◌, length, set, get_elem?,
}
use ohie.StdMap.{Entries, lookup, assign, insert}
use ohie.Text.{Text, text_eq}
use ohie.Text.Number.{to_string}
use ohie.Text.Order.{text_order}

-- A peer, without its queue. `is_open`: the session and the strand are not `NULL`.
pub record Peer : Type 0 where
  pub ip : Text
  pub port : ℕ
  pub connected : Bool
  pub is_open : Bool

pub record Server : Type 0 where
  pub my_ip : Text
  pub my_port : ℕ
  pub peers : List Peer
  pub speers : Entries Text ℕ
  pub pings : Entries Text ℕ

-- `ip + ":" + to_string(port)`.
unfoldable pub peer_key : Text → ℕ → Text
peer_key ip port = ip ++ b':' ∷ to_string port

unfoldable pub add_peer : Server → Peer → Bool → Server
add_peer s p is_connected =
    if text_eq p.ip s.my_ip && p.port == s.my_port
    then s
    else let key = peer_key p.ip p.port in
      if is_some (lookup key s.speers) then s else record s {
        peers =
            s.peers
            ++ (if is_connected then p else record p { connected = false; is_open = false }) ∷ [];
        speers = insert key 1 s.speers;
      }

-- The text before the first `:`, and the text behind it.
unfoldable pub cut : Text → Option (Text × Text)
cut [] = none
cut (c ∷ cs) =
    let more = cut cs in
    if c == b':' then some ([], cs) else elim more [ none ↦ none | some (a, b) ↦ some (c ∷ a, b) ]

-- A text with no `:`, or with one at its start, adds no peer.
unfoldable pub add_indirect_peer_if_doesnt_exist : (Text → ℕ) → Server → Text → Server
add_indirect_peer_if_doesnt_exist atoi s p =
    if is_some (lookup p s.speers) then s else elim (cut p) [
      | none ↦ s
      | some (ip, rest) ↦ elim ip [
        | [] ↦ s
        | ◌∷◌ c cs ↦
            add_peer s
              (record { ip = c ∷ cs; port = atoi rest; connected = false; is_open = false }) false
      ]
    ]

unfoldable pub close_peer_connection : Server → ℕ → Server
close_peer_connection s i = elim (get_elem? s.peers i) [
  | none ↦ s
  | some p ↦ record s { peers = set s.peers i (record p { connected = false; is_open = false }) }
]

unfoldable pub no_connected_peers : List Peer → ℕ
no_connected_peers [] = 0
no_connected_peers (p ∷ ps) = (if p.connected then 1 else 0) + no_connected_peers ps

-- `a < b` on `int`.
unfoldable pub int_lt : ℕ → ℕ → Bool
int_lt a b = ltb ((a + 2 ^ 31) % 2 ^ 32) ((b + 2 ^ 31) % 2 ^ 32)

-- Whether the ping is news. With `overwrite` a smaller distance is news too.
unfoldable pub add_ping : Server → Text → ℕ → Bool → Server × Bool
add_ping s tt' dnext overwrite = elim (lookup tt' s.pings) [
  | none ↦ (record s { pings = assign tt' dnext s.pings }, true)
  | some old ↦
      if overwrite && int_lt dnext old
      then (record s { pings = assign tt' dnext s.pings }, true)
      else (s, false)
]

-- The queue `_m` of one peer. `is_open`: it is connected, with a session and a strand. `started` are the
-- messages given to the socket so far, and `writes` is how many of them it is not yet done with.
pub record Line : Type 0 where
  pub queue : List Text
  pub is_open : Bool
  pub started : List Text
  pub writes : ℕ

-- `write`: the first message is given to the socket; without a connection `handle_write` takes it
-- off, and goes on with the next one, until there is none.
unfoldable pub write_line : Line → Line
write_line l = elim l.queue [
  | [] ↦ l
  | ◌∷◌ m ms ↦
      if l.is_open
      then record l { started = l.started ++ m ∷ []; writes = suc l.writes }
      else record l { queue = [] }
]

-- `strand_write`: a write is started only if the queue was empty.
unfoldable pub strand_write : Line → Text → Line
strand_write l message = elim l.queue [
  | [] ↦ write_line (record l { queue = (message ++ b'!' ∷ []) ∷ [] })
  | ◌∷◌ m ms ↦ record l { queue = l.queue ++ (message ++ b'!' ∷ []) ∷ [] }
]

-- `handle_write`, when the socket is done with a message; an error closes the connection and leaves
-- the rest of the queue.
unfoldable pub handle_write : Line → Bool → Line
handle_write l error = elim l.queue [
  | [] ↦ record l { writes = l.writes - 1 }
  | ◌∷◌ m ms ↦
      if error
      then record l { queue = ms; is_open = false; writes = l.writes - 1 }
      else write_line (record l { queue = ms; writes = l.writes - 1 })
]

-- `strand_proceed`, which is posted when a connection is made.
unfoldable pub strand_proceed : Line → Line
strand_proceed l = write_line l
