-- ===== src/Startup.antt =====
-- code/node.cpp: the start of a node, `main`: its arguments, the file of peers, and the first state of its
-- server. The machine it runs on is a parameter.
pub mod Peers
pub mod Selection
pub mod Main
pub mod Start
mod Examples
use ohie.Base.{
  ℕ, zero, suc, ◌+◌, ◌-◌, ◌*◌, ◌%◌, ◌^◌, List, [], ◌∷◌, ◌++◌, Bool, true, false, not, ◌&&◌, ◌||◌,
  Option, none, some, ltb, ◌==◌, if◌then◌else◌, ◌>>=◌, length, get_elem?,
}
use ohie.Text.{Text, codes, text_eq}
use ohie.Text.Number.{to_string}
use ohie.Text.Split.{split}
use ohie.Server.{Peer, Server, cut}
use ohie.Network.{Timers}

-- `file` is what stands in a file, nothing if there is none; `create_folder` says whether a folder could
-- be made. `stoi` throws where it gives `none`.
pub record Machine : Type 0 where
  pub local_ip : Text
  pub atoi : Text → ℕ
  pub stoi : Text → Option ℕ
  pub strtol : Text → ℕ
  pub trim : Text → Text
  pub get_ip : Text → Text
  pub file : Text → Text
  pub create_folder : Text → Bool
  pub digest : Text → List ℕ
  pub ecdsa_sign : Text → List ℕ
  pub ecdsa_verify : Text → List ℕ → Bool

-- What the arguments say.
pub record Options : Type 0 where
  pub ip : Text
  pub port : ℕ
  pub file_peers : Text
  pub my_ip_or_hostname : Text
  pub private_ip : Text

unfoldable pub has_four_parts : Text → Bool
has_four_parts t = length (split t b'.') == 4

-- The third argument: the public address, or the name of the host.
unfoldable pub set_public_ip : List Text → Options → Option Options
set_public_ip [] o = some o
set_public_ip (some_ip ∷ more) o = do
  name ← get_elem? (split some_ip b':') 0
  some
      (record o { my_ip_or_hostname = name; ip = if has_four_parts some_ip then some_ip else o.ip })

-- The fourth argument, a number of peers that nothing reads.
unfoldable pub read_number_of_peers : (Text → Option ℕ) → List Text → Option ℕ
read_number_of_peers stoi more = elim (get_elem? more 1) [ none ↦ some 0 | some t ↦ stoi t ]

-- The fifth argument.
unfoldable pub set_private_ip : List Text → Options → Options
set_private_ip more o = elim (get_elem? more 2) [
  | none ↦ o
  | some some_ip ↦ if has_four_parts some_ip then record o { private_ip = some_ip } else o
]

-- `argv`, the name of the program first.
unfoldable pub read_arguments : Machine → List Text → Option Options
read_arguments host (program ∷ port ∷ file_peers ∷ more) = do
  o ← set_public_ip more (record {
    ip = host.local_ip;
    port = host.atoi port;
    file_peers = file_peers;
    my_ip_or_hostname = host.local_ip;
    private_ip = [];
  })
  n ← read_number_of_peers host.stoi more
  some (set_private_ip more o)
read_arguments host _ = none

-- `hashes[i] = i`, in an array of MAX_CHAINS entries: with more chains it is written past its end.
unfoldable pub count_up : ℕ → ℕ → List ℕ
count_up i zero = []
count_up i (suc n) = i ∷ count_up (suc i) n

-- The first hashes of the chains. The source makes no test: for more than MAX_CHAINS chains the constructor
-- writes past the end of its arrays, which is a fault here.
unfoldable pub initial_hashes : ℕ → Option (List ℕ)
initial_hashes chains = if ltb (8 * 1024) chains then none else some (count_up 0 chains)

-- One line of the file of peers: an address or a name, `:`, and a port. A line for the node itself is
-- left out.
unfoldable pub read_peer : Machine → Options → Text → Option Peer
read_peer host o l = elim (cut l) [
  | none ↦ none
  | some (ip_or_hostname, rest) ↦ elim ip_or_hostname [
    | [] ↦ none
    | ◌∷◌ c cs ↦
        let pr : Peer = record {
          ip = host.get_ip (c ∷ cs);
          port = host.atoi rest;
          connected = false;
          is_open = false;
        } in
        if (not (text_eq (c ∷ cs) o.my_ip_or_hostname) && not (text_eq pr.ip o.private_ip))
          || not (pr.port == o.port)
        then some pr
        else none
  ]
]

unfoldable pub read_peers : Machine → Options → List Text → List Peer
read_peers host o [] = []
read_peers host o (l ∷ ls) =
    let more = read_peers host o ls in
    elim (read_peer host o l) [ none ↦ more | some pr ↦ pr ∷ more ]

-- The names that `tcp_server` gives to its folder and its file of transactions.
unfoldable pub get_server_folder : Server → Text
get_server_folder s = codes "_Blockchains/_" ++ (s.my_ip ++ b'_' ∷ to_string s.my_port)

unfoldable pub get_transactions_file : Server → Text
get_transactions_file s = codes "_Transactions/" ++ (s.my_ip ++ (codes "_ " ++ to_string s.my_port))

-- The constructor of `tcp_server`, at the time `now` and with the number `random`. It leaves
-- `last_ask_for_full` as it is in memory, and without pings also `next_ping` and `no_pings`.
unfoldable pub tcp_server :
    (ping_repeat min max : ℕ) → ℕ → ℕ → Timers → Text → ℕ → Option (Server × Timers)
tcp_server ping_repeat min max now random memory ip port =
    let range = (max + 2 ^ 32 - min) % 2 ^ 32 in
    let server : Server = record {
      my_ip = ip;
      my_port = port;
      peers = [];
      speers = [];
      pings = [];
    } in
    let timers : Timers = record memory { last_ask_for_incomplete = 0; last_update_commited = 0 } in
    let pinging : Timers = record timers {
      next_ping = (now + min + random % range) % 2 ^ 64;
      no_pings = 0;
    } in
    if ltb 0 ping_repeat
    then (if range == 0 then none else some (server, pinging))
    else some (server, timers)
