-- ===== src/Requests/Payload/Trip.antt =====
-- code/requests.cpp: a full block from its writer to its reader.
use ohie.Base.{
  ℕ, suc, ◌+◌, ◌^◌, ◌≤◌, ◌<◌, ◌≡◌, ◌≢◌, ◌∙◌, refl, sym, ap, List, [], ◌∷◌, ◌++◌, true, false, none,
  some, arith, length, length-append, get_elem?, take, drop, ltb, All,
}
use ohie.Config.{Config}
use ohie.StdMap.{Entries, lookup, insert}
use ohie.Text.{Text, codes}
use ohie.Text.Number.{to_string}
use ohie.Text.Order.{text_order}
use ohie.Text.Split.{split, join, split-join, Tokens, Without}
use ohie.Blockchain.State.{NetworkBlock}
use ohie.Requests.{Node}
use ohie.Requests.Numbers.{
  safe_stoi-to_string, safe_stoull-to_string, to_string-Without, to_string_nonempty,
}
use ohie.Requests.Payload.{FullBlock, create__full_block, parse__full_block}
use ohie.Requests.Payload.Values.{parse_values}

module _ {ℓ} {A : Type ℓ} where
  get_elem?-append :
      (xs : List A) (y : A) (ys : List A) → get_elem? (xs ++ y ∷ ys) (length xs) ≡ some y
  get_elem?-append [] y ys = refl
  get_elem?-append (x ∷ xs) y ys = get_elem?-append xs y ys

  get_elem?-append_next :
      (xs : List A) (y z : A) (ys : List A)
      → get_elem? (xs ++ y ∷ z ∷ ys) (suc (length xs)) ≡ some z
  get_elem?-append_next [] y z ys = refl
  get_elem?-append_next (x ∷ xs) y z ys = get_elem?-append_next xs y z ys

  take-append : (xs ys : List A) → take (length xs) (xs ++ ys) ≡ xs
  take-append [] ys = refl
  take-append (x ∷ xs) ys = ap (◌∷◌ x) (take-append xs ys)

proof-Tokens :
    (ps : List Text) (t u : Text)
    → All (Without b',') ps
    → Without b',' t
    → Without b',' u
    → u ≢ []
    → Tokens b',' (ps ++ t ∷ u ∷ [])
proof-Tokens [] t u h ht hu ne = (ht, (hu, ne))
proof-Tokens (p ∷ []) t u h ht hu ne = (h.0, (ht, (hu, ne)))
proof-Tokens (p ∷ q ∷ ps) t u h ht hu ne = (h.0, proof-Tokens (q ∷ ps) t u h.1 ht hu ne)

-- The fields that hold texts have no comma.
abbrev pub Clean : Node → Text → NetworkBlock → Type 0
Clean node text nb =
    Without b',' node.ip
    × Without b',' text
    × Without b',' nb.merkle_root_chains
    × Without b',' nb.merkle_root_txs
    × All (Without b',') nb.proof_new_chain

-- Numbers that `stoi` and `stoull` can read, and the reader keeps.
abbrev pub InRange : Node → (chain_id hash now : ℕ) → NetworkBlock → Type 0
InRange node chain_id hash now nb =
    (node.port < 2 ^ 31)
    × (chain_id < 2 ^ 31)
    × (hash < 2 ^ 64)
    × (nb.trailing < 2 ^ 64)
    × (nb.trailing_id < 2 ^ 32)
    × (nb.time_mined < 2 ^ 64)
    × (now < 2 ^ 64)

-- The key under which a full block is noted.
abbrev pub full_block_key : Node → ℕ → ℕ → Text
full_block_key node chain_id hash =
    codes "#full_block" ++ node.ip ++ to_string node.port ++ to_string chain_id ++ to_string hash

-- What a message says of a full block.
abbrev pub sent_block :
    (Text → Text) → Node → (chain_id hash : ℕ) → Text → NetworkBlock → ℕ → FullBlock
sent_block get_ip node chain_id hash text nb now = record {
  request = record {
    sender_ip = get_ip node.ip;
    sender_port = node.port;
    chain_id = chain_id;
    hash = hash;
  };
  txs = text;
  trailing = nb.trailing;
  trailing_id = nb.trailing_id;
  merkle_root_chains = nb.merkle_root_chains;
  merkle_root_txs = nb.merkle_root_txs;
  proof_new_chain = nb.proof_new_chain;
  time_mined = nb.time_mined;
  sent_time = now;
}

module _ (node : Node) (chain_id hash : ℕ) (text : Text) (nb : NetworkBlock) (now : ℕ) where
  -- The first ten fields, and the proof.
  abbrev front : List Text
  front =
      codes "#full_block"
      ∷ node.ip
      ∷ to_string node.port
      ∷ to_string chain_id
      ∷ to_string hash
      ∷ text
      ∷ to_string nb.trailing
      ∷ to_string nb.trailing_id
      ∷ nb.merkle_root_chains
      ∷ nb.merkle_root_txs
      ∷ nb.proof_new_chain

  abbrev fields : List Text
  fields = front ++ to_string nb.time_mined ∷ to_string now ∷ []

  fields-Tokens : Clean node text nb → Tokens b',' fields
  fields-Tokens (w0, w1, w2, w3, w4) =
      let numbers = to_string-Without in
      let name : Without b',' (codes "#full_block") = ground arith in
      let more : All (Without b',') front = (
        name,
        (
          w0,
          (
            numbers node.port,
            (
              numbers chain_id,
              (numbers hash, (w1, (numbers nb.trailing, (numbers nb.trailing_id, (w2, (w3, w4)))))),
            ),
          ),
        ),
      ) in
      proof-Tokens front (to_string nb.time_mined) (to_string now) more (numbers nb.time_mined)
        (numbers now) (to_string_nonempty now)

  module _ (cfg : Config) (get_ip : Text → Text) (mpl : ℕ) (passed : Entries Text ℕ) where
    parse_fields :
        InRange node chain_id hash now nb
        → length nb.proof_new_chain ≡ mpl
        → 0 < length (get_ip node.ip)
        → chain_id < cfg.chains
        → lookup (full_block_key node chain_id hash) passed ≡ none
        → parse__full_block cfg get_ip mpl fields passed
          ≡ some (
            insert (full_block_key node chain_id hash) 1 passed,
            some (sent_block get_ip node chain_id hash text nb now),
          )
    parse_fields (h0, h1, h2, h3, h4, h5, h6) size ip c new =
        let few : ltb (length fields) (11 + mpl) ≡ false = ground (
          arith,
          size,
          length-append nb.proof_new_chain (to_string nb.time_mined ∷ to_string now ∷ []),
        ) in
        let at_mined : 10 + mpl ≡ length front = omega (arith, size) in
        let at_sent : 11 + mpl ≡ suc (length front) = omega (arith, size) in
        let mined : get_elem? fields (10 + mpl) ≡ some (to_string nb.time_mined) =
          ap (get_elem? fields) at_mined ∙ get_elem?-append front (to_string nb.time_mined) _ in
        let sent : get_elem? fields (11 + mpl) ≡ some (to_string now) =
          ap (get_elem? fields) at_sent
          ∙ get_elem?-append_next front (to_string nb.time_mined) (to_string now) [] in
        let proof : take mpl (drop 10 fields) ≡ nb.proof_new_chain =
          ap (λ (k : ℕ). take k (drop 10 fields)) (sym size) ∙ take-append nb.proof_new_chain _ in
        parse_values cfg get_ip mpl fields passed (sent_block get_ip node chain_id hash text nb now)
          (codes "#full_block") node.ip (to_string node.port) (to_string chain_id) (to_string hash)
          (to_string nb.trailing) (to_string nb.trailing_id) (to_string nb.time_mined)
          (to_string now) few
          (refl, refl, refl, refl, refl, refl, refl, refl, refl, refl, mined, sent, proof)
          (
            refl,
            safe_stoi-to_string node.port true h0,
            safe_stoi-to_string chain_id true h1,
            safe_stoull-to_string hash true h2,
            safe_stoull-to_string nb.trailing true h3,
            safe_stoull-to_string nb.trailing_id true (omega (arith, h4)),
            safe_stoull-to_string nb.time_mined true h5,
            safe_stoull-to_string now true h6,
          )
          (omega (arith, h4)) ip c new

    -- A full block whose file has 10 bytes or more is sent, and is read by the peer with the
    -- transactions, the chain, the hash, the data and the time that it was sent with: if no text
    -- in it has a comma, the numbers are below 2^31 for the port and the chain, 2^32 for the
    -- trailing chain and 2^64 for the others, the proof has the length that the reader expects,
    -- the address of the sender is known, the chain exists, and the message is the first of its
    -- kind in the buffer.
    pub parse-create__full_block :
        10 ≤ length text
        → Clean node text nb
        → InRange node chain_id hash now nb
        → length nb.proof_new_chain ≡ mpl
        → 0 < length (get_ip node.ip)
        → chain_id < cfg.chains
        → lookup (full_block_key node chain_id hash) passed ≡ none
        → (m : Text) × (create__full_block node chain_id hash text (some nb) now ≡ some m)
          × (parse__full_block cfg get_ip mpl (split m b',') passed
              ≡ some (
                insert (full_block_key node chain_id hash) 1 passed,
                some (sent_block get_ip node chain_id hash text nb now),
              ))
    unfolding create__full_block
    parse-create__full_block big clean range size ip c new =
        let big' : ltb (length text) 10 ≡ false = ground (arith, big) in
        (
          join fields b',',
          rw (big', create__full_block) refl,
          ap (λ sp. parse__full_block cfg get_ip mpl sp passed)
                (split-join b',' fields (fields-Tokens clean))
              ∙ parse_fields range size ip c new,
        )
