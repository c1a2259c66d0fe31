-- ===== src/Transactions/State.antt =====
-- code/transactions.cpp: the tables of a node's transactions, and the fields of a transaction
-- `from:seq:to:amount:dep_from:dep_seq:sign`. Each operation of the source runs with the mutexes of
-- its tables held, so it is one step, but for `create_transaction_block` (Promise); `none` is an exception, or a read past the end of a vector.
use ohie.Base.{
  ℕ, suc, ◌+◌, ◌*◌, List, [], ◌∷◌, ◌++◌, Bool, true, false, ◌&&◌, Option, none, some, ltb, leb,
  ◌==◌, if◌then◌else◌, ◌>>=◌, get_elem?, length, replicate,
}
use ohie.Config.{Config}
use ohie.StdMap.{Entries, lookup, assign}
use ohie.Text.{Text, text_eq}
use ohie.Text.Number.{to_string, safe_stoull}
use ohie.Text.Split.{split}
use ohie.Text.Order.{text_order}

pub record AgingInfo : Type 0 where
  pub full_tx : Text
  pub time : ℕ

pub record AgedInfo : Type 0 where
  pub full_tx : Text
  pub start_time : ℕ
  pub end_time : ℕ

-- The global tables. The average promise time, a `double`, is left out.
pub record Pool : Type 0 where
  pub aging_transactions : Entries Text AgingInfo
  pub aged_transactions : Entries Text AgedInfo
  pub next_seqs : Entries Text ℕ
  pub pending_transactions : Entries Text Text
  pub mempool : List Text
  pub dependencies : Entries Text (List Text)
  pub promise_count : ℕ
  pub last_promised : Text

-- Set when the program starts, before the configuration is read: 5 words of 8 digits.
abbrev pub empty_dependency : Text
empty_dependency = replicate 40 b'0' ++ b':' ∷ b'0' ∷ []

-- `a + ":" + b`.
abbrev pub colon : Text → Text → Text
colon a b = a ++ b':' ∷ b

-- `stoull`, which throws where there is no number.
unfoldable pub stoull : Text → Option ℕ
stoull s = let (n, pr) = safe_stoull s true in if pr then some n else none

-- A sender that is not in the table has the next sequence number 0. (`operator[]` also enters it
-- with that number, which no operation can tell.)
unfoldable pub get_next_seq : Pool → Text → ℕ
get_next_seq p address = elim (lookup address p.next_seqs) [ none ↦ 0 | some n ↦ n ]

-- The numbers count one by one, and 2^64 is out of reach.
unfoldable pub update_next_seq : Pool → Text → Pool
update_next_seq p address = record p {
  next_seqs = assign address (suc (get_next_seq p address)) p.next_seqs;
}

-- All sequence numbers before the next one are promised or committed.
unfoldable pub is_promised : Pool → Text → Option Bool
is_promised p tx = do
  let s = split tx b':'
  from ← get_elem? s 0
  seq ← get_elem? s 1
  n ← stoull seq
  some (ltb n (get_next_seq p from))

unfoldable pub dependents : Pool → Text → List Text
dependents p dependency = elim (lookup dependency p.dependencies) [ none ↦ [] | some l ↦ l ]

unfoldable pub contains_text : Text → List Text → Bool
contains_text t [] = false
contains_text t (u ∷ us) = if text_eq u t then true else contains_text t us

unfoldable pub save_dependency : Pool → Text → ℕ → Text → Pool
save_dependency p from seq_n dependency =
    let tx_key = colon from (to_string seq_n) in
    let deps = dependents p dependency in
    record p {
      dependencies =
          assign dependency (if contains_text tx_key deps then deps else deps ++ tx_key ∷ [])
            p.dependencies;
    }

unfoldable pub clear_dependencies : Pool → Text → Pool
clear_dependencies p dependency = record p { dependencies = assign dependency [] p.dependencies }

-- Whether the transaction may go on; one that waits for another is noted under that.
unfoldable pub check_dependencies : Pool → Text → ℕ → Text → Option (Pool × Bool)
check_dependencies p from seq_n dependency =
    if text_eq dependency empty_dependency then some (p, get_next_seq p from == seq_n) else (do
      promised ← is_promised p dependency
      some (
          if promised
          then (p, get_next_seq p from == seq_n)
          else (save_dependency p from seq_n dependency, false)))

-- The seven fields.
pub record Fields : Type 0 where
  pub from : Text
  pub seq : Text
  pub to : Text
  pub amount : Text
  pub dependency : Text
  pub sign : Text

abbrev pub fields_of : List Text → Option Fields
fields_of (a ∷ b ∷ c ∷ d ∷ e ∷ f ∷ g ∷ []) =
    some (record { from = a; seq = b; to = c; amount = d; dependency = colon e f; sign = g })
fields_of _ = none

unfoldable pub parse_transaction : Text → Option Fields
parse_transaction full_tx = fields_of (split full_tx b':')

-- The sizes of the addresses and the amount are right.
unfoldable pub sizes_ok : Config → Fields → Bool
sizes_ok cfg f =
    (length f.from == 8 * cfg.address_size_in_dwords)
    && ((length f.to == 8 * cfg.address_size_in_dwords) && ltb 0 (length f.amount))

-- `from:seq:to:amount:dependency`, without the signature.
abbrev pub body_of : Fields → Text
body_of f = colon f.from (colon f.seq (colon f.to (colon f.amount f.dependency)))

abbrev pub key_of : Fields → Text
key_of f = colon f.from f.seq

unfoldable pub get_transaction_key : Text → Option Text
get_transaction_key tx = do
  let s = split tx b':'
  from ← get_elem? s 0
  seq ← get_elem? s 1
  some (colon from seq)

-- `age >= AT - 2 * D`, written without the subtractions.
unfoldable pub rss : Config → AgedInfo → ℕ
rss cfg a = if leb (cfg.at + a.start_time) (a.end_time + 2 * cfg.d) then cfg.t_discard else 0
