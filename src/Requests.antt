-- ===== src/Requests.antt =====
-- code/requests.cpp: the messages between nodes, made and read. `get_ip` asks the resolver for the
-- address of a host name, and is a parameter; `passed` are the keys of the messages handled in one
-- call.
mod Examples
pub mod Numbers
pub mod RoundTrip
pub mod Payload
use Prim.Native.String.{String}
use ohie.Base.{
  ℕ, ◌-◌, ◌^◌, List, [], ◌∷◌, ◌++◌, Bool, true, false, not, ◌&&◌, Option, none, some, is_some, ltb,
  leb, ◌==◌, if◌then◌else◌, length,
}
use ohie.Config.{Config}
use ohie.StdMap.{Entries, lookup, insert}
use ohie.Text.{Text, codes}
use ohie.Text.Number.{to_string, safe_stoi, safe_stoull}
use ohie.Text.Split.{join}
use ohie.Text.Order.{text_order}
use ohie.Blockchain.State.{NetworkBlock}

-- The node itself: `my_ip_or_hostname` and `my_port`.
pub record Node : Type 0 where
  pub ip : Text
  pub port : ℕ

-- A message is its fields with commas between them.
abbrev comma : ℕ
comma = b','

abbrev head_of : String → Node → List Text → List Text
head_of name node rest = codes name ∷ node.ip ∷ to_string node.port ∷ rest

unfoldable pub create__ask_block : Node → ℕ → ℕ → ℕ → ℕ → Text
create__ask_block node chain_id hash my_depth hash_depth =
    join
      (head_of "#ask_block" node (
        to_string chain_id
        ∷ to_string hash
        ∷ to_string (if leb hash_depth my_depth then 1 else hash_depth - my_depth)
        ∷ []))
      comma

unfoldable pub create__process_block : Node → NetworkBlock → Text
create__process_block node nb =
    join
      (head_of "#process_block" node (
        to_string nb.chain_id
        ∷ to_string nb.parent
        ∷ to_string nb.hash
        ∷ to_string nb.no_txs
        ∷ to_string nb.depth
        ∷ to_string nb.rank
        ∷ to_string nb.next_rank
        ∷ []))
      comma

unfoldable pub create__got_full_block : Node → ℕ → ℕ → Text
create__got_full_block node chain_id hash =
    join (head_of "#got_full_block" node (to_string chain_id ∷ to_string hash ∷ [])) comma

unfoldable pub create__have_full_block : Node → ℕ → ℕ → Text
create__have_full_block node chain_id hash =
    join (head_of "#have_full_block" node (to_string chain_id ∷ to_string hash ∷ [])) comma

unfoldable pub create__ask_full_block : Node → ℕ → ℕ → Text
create__ask_full_block node chain_id hash =
    join (head_of "#ask_full_block" node (to_string chain_id ∷ to_string hash ∷ [])) comma

-- `to_string` of an `int`, held as the `uint32_t` that it wraps to.
unfoldable pub int_to_string : ℕ → Text
int_to_string n = if ltb n (2 ^ 31) then to_string n else b'-' ∷ to_string (2 ^ 32 - n)

unfoldable pub create__ping : Node → Text → ℕ → ℕ → ℕ → Text
create__ping node name dnext tsec mode =
    join (head_of "#ping" node (name ∷ to_string dnext ∷ to_string tsec ∷ int_to_string mode ∷ []))
      comma

-- Whether the key was there; it is afterwards.
unfoldable pub key_present : Text → Entries Text ℕ → Bool × Entries Text ℕ
key_present key passed =
    if is_some (lookup key passed) then (true, passed) else (false, insert key 1 passed)

-- What a parse function returns: `passed`, and what it reads, if it accepts the message.
abbrev pub Parsed {ℓ} : Type ℓ → Type ℓ
Parsed A = Entries Text ℕ × Option A

-- A new key, then the values; the tests of them are made only if PRINT_TRANSMISSION_ERRORS is on.
unfoldable pub accept {ℓ} : {A : Type ℓ} → Config → Text → Entries Text ℕ → Bool → A → Parsed A
accept cfg key passed good a =
    let (present, passed') = key_present key passed in
    (
      passed',
      if present then none else if cfg.print_transmission_errors && not good then none else some a,
    )

-- The sender with the chain and the hash of the block that the message is about.
pub record Request : Type 0 where
  pub sender_ip : Text
  pub sender_port : ℕ
  pub chain_id : ℕ
  pub hash : ℕ

pub record AskBlock : Type 0 where
  pub request : Request
  pub max_number_of_blocks : ℕ

-- A block as `process_block` sends it: what it leaves out follows with the full block.
pub record Announced : Type 0 where
  pub sender_ip : Text
  pub sender_port : ℕ
  pub chain_id : ℕ
  pub parent : ℕ
  pub hash : ℕ
  pub no_txs : ℕ
  pub depth : ℕ
  pub rank : ℕ
  pub next_rank : ℕ

pub record Ping : Type 0 where
  pub sender_ip : Text
  pub sender_port : ℕ
  pub name : Text
  pub dnext : ℕ
  pub tsec : ℕ
  pub mode : ℕ

-- `sender_ip.size() > 0 && chain_id < CHAINS`.
abbrev in_range : Config → Bool → Text → ℕ → Bool
in_range cfg pr sender_ip chain_id = pr && (ltb 0 (length sender_ip) && ltb chain_id cfg.chains)

module _ (cfg : Config) (get_ip : Text → Text) where
  unfoldable pub parse__ask_block : List Text → Entries Text ℕ → Parsed AskBlock
  parse__ask_block (a ∷ b ∷ c ∷ d ∷ e ∷ f ∷ more) passed =
      let (port, p1) = safe_stoi c true in
      let (chain_id, p2) = safe_stoi d p1 in
      let (hash, p3) = safe_stoull e p2 in
      let (max, p4) = safe_stoi f p3 in
      accept cfg (a ++ b ++ c ++ d ++ e) passed (in_range cfg p4 (get_ip b) chain_id) (record {
        request = record {
          sender_ip = get_ip b;
          sender_port = port;
          chain_id = chain_id;
          hash = hash;
        };
        max_number_of_blocks = max;
      })
  parse__ask_block _ passed = (passed, none)

  unfoldable pub parse__process_block : List Text → Entries Text ℕ → Parsed Announced
  parse__process_block (a ∷ b ∷ c ∷ d ∷ e ∷ f ∷ g ∷ h ∷ i ∷ j ∷ more) passed =
      let (port, p1) = safe_stoi c true in
      let (chain_id, p2) = safe_stoi d p1 in
      let (parent, p3) = safe_stoull e p2 in
      let (hash, p4) = safe_stoull f p3 in
      let (no_txs, p5) = safe_stoi g p4 in
      let (depth, p6) = safe_stoi h p5 in
      let (rank, p7) = safe_stoi i p6 in
      let (next_rank, p8) = safe_stoi j p7 in
      accept cfg (a ++ b ++ c ++ d ++ e ++ f) passed (in_range cfg p8 (get_ip b) chain_id) (record {
        sender_ip = get_ip b;
        sender_port = port;
        chain_id = chain_id;
        parent = parent;
        hash = hash;
        no_txs = no_txs;
        depth = depth;
        rank = rank;
        next_rank = next_rank;
      })
  parse__process_block _ passed = (passed, none)

  -- `parse__got_full_block`, `parse__have_full_block` and `parse__ask_full_block`, which are alike.
  unfoldable pub parse__got_full_block : List Text → Entries Text ℕ → Parsed Request
  parse__got_full_block (a ∷ b ∷ c ∷ d ∷ e ∷ more) passed =
      let (port, p1) = safe_stoi c true in
      let (chain_id, p2) = safe_stoi d p1 in
      let (hash, p3) = safe_stoull e p2 in
      accept cfg (a ++ b ++ c ++ d ++ e) passed (in_range cfg p3 (get_ip b) chain_id)
        (record { sender_ip = get_ip b; sender_port = port; chain_id = chain_id; hash = hash })
  parse__got_full_block _ passed = (passed, none)

  unfoldable pub parse__have_full_block : List Text → Entries Text ℕ → Parsed Request
  parse__have_full_block sp passed = parse__got_full_block sp passed

  unfoldable pub parse__ask_full_block : List Text → Entries Text ℕ → Parsed Request
  parse__ask_full_block sp passed = parse__got_full_block sp passed

  -- The key is the sender alone.
  unfoldable pub parse__ping : List Text → Entries Text ℕ → Parsed Ping
  parse__ping (a ∷ b ∷ c ∷ d ∷ e ∷ f ∷ g ∷ more) passed =
      let (port, p1) = safe_stoi c true in
      let (dnext, p2) = safe_stoi e p1 in
      let (tsec, p3) = safe_stoull f p2 in
      let (mode, p4) = safe_stoi g p3 in
      accept cfg (a ++ b ++ c) passed p4 (record {
        sender_ip = get_ip b;
        sender_port = port;
        name = d;
        dnext = dnext;
        tsec = tsec;
        mode = mode;
      })
  parse__ping _ passed = (passed, none)
