-- ===== src/Requests/RoundTrip.antt =====
-- code/requests.cpp: a message from its writer to its reader.
use ohie.Base.{
  ℕ, ◌^◌, ap, length, ◌<◌, ◌≡◌, ◌∙◌, List, [], ◌∷◌, ◌++◌, Bool, true, none, some, arith,
}
use ohie.Config.{Config}
use ohie.StdMap.{Entries, lookup, insert}
use ohie.Text.{Text, codes}
use ohie.Text.Number.{to_string}
use ohie.Text.Order.{text_order}
use ohie.Text.Split.{split, split-join, Tokens, Without}
use ohie.Blockchain.State.{NetworkBlock}
use ohie.Requests.{
  Node, Announced, accept, key_present, create__process_block, parse__process_block,
}
use ohie.Requests.Numbers.{
  safe_stoi-to_string, safe_stoull-to_string, to_string-Without, to_string_nonempty,
}

-- What a message says of a block.
abbrev pub announced : (Text → Text) → Node → NetworkBlock → Announced
announced get_ip node nb = record {
  sender_ip = get_ip node.ip;
  sender_port = node.port;
  chain_id = nb.chain_id;
  parent = nb.parent;
  hash = nb.hash;
  no_txs = nb.no_txs;
  depth = nb.depth;
  rank = nb.rank;
  next_rank = nb.next_rank;
}

-- Numbers that `stoi` and `stoull` can read.
abbrev pub Small : Node → NetworkBlock → Type 0
Small node nb =
    (node.port < 2 ^ 31)
    × (nb.chain_id < 2 ^ 31)
    × (nb.parent < 2 ^ 64)
    × (nb.hash < 2 ^ 64)
    × (nb.no_txs < 2 ^ 31)
    × (nb.depth < 2 ^ 31)
    × (nb.rank < 2 ^ 31)
    × (nb.next_rank < 2 ^ 31)

-- The key under which a message about a block is noted.
abbrev pub announced_key : Node → NetworkBlock → Text
announced_key node nb =
    codes "#process_block"
    ++ node.ip
    ++ to_string node.port
    ++ to_string nb.chain_id
    ++ to_string nb.parent
    ++ to_string nb.hash

abbrev process_block_fields : Node → NetworkBlock → List Text
process_block_fields node nb =
    codes "#process_block"
    ∷ node.ip
    ∷ to_string node.port
    ∷ to_string nb.chain_id
    ∷ to_string nb.parent
    ∷ to_string nb.hash
    ∷ to_string nb.no_txs
    ∷ to_string nb.depth
    ∷ to_string nb.rank
    ∷ to_string nb.next_rank
    ∷ []

process_block-Tokens :
    (node : Node) (nb : NetworkBlock)
    → Without b',' node.ip
    → Tokens b',' (process_block_fields node nb)
process_block-Tokens node nb w = (
  ground arith,
  (
    w,
    (
      to_string-Without node.port,
      (
        to_string-Without nb.chain_id,
        (
          to_string-Without nb.parent,
          (
            to_string-Without nb.hash,
            (
              to_string-Without nb.no_txs,
              (
                to_string-Without nb.depth,
                (
                  to_string-Without nb.rank,
                  (to_string-Without nb.next_rank, to_string_nonempty nb.next_rank),
                ),
              ),
            ),
          ),
        ),
      ),
    ),
  ),
)

pub accept_new {ℓ} :
    {A : Type ℓ} (cfg : Config) (key : Text) (passed : Entries Text ℕ) (good : Bool) (a : A)
    → good ≡ true
    → lookup key passed ≡ none
    → accept cfg key passed good a ≡ (insert key 1 passed, some a)
unfolding accept key_present
accept_new cfg key passed good a h e = rw (h, e, accept, key_present) (ground arith)

-- A block that a node announces is read by its peer with the numbers that it was sent with, if
-- they are below 2^64 for hashes and below 2^31 for the others, the name of the node has no
-- comma, its address is known, its chain exists, and the message is the first of its kind in the
-- buffer.
pub parse-create__process_block :
    (cfg : Config) (get_ip : Text → Text) (node : Node) (nb : NetworkBlock)
    (passed : Entries Text ℕ)
    → Small node nb
    → Without b',' node.ip
    → 0 < length (get_ip node.ip)
    → nb.chain_id < cfg.chains
    → lookup (announced_key node nb) passed ≡ none
    → parse__process_block cfg get_ip (split (create__process_block node nb) b',') passed
      ≡ (insert (announced_key node nb) 1 passed, some (announced get_ip node nb))
unfolding create__process_block parse__process_block
parse-create__process_block cfg get_ip node nb passed (h0, h1, h2, h3, h4, h5, h6, h7) w ip c new =
    ap (λ sp. parse__process_block cfg get_ip sp passed)
      (split-join b',' (process_block_fields node nb) (process_block-Tokens node nb w))
    ∙ rw
        (
          safe_stoi-to_string node.port true h0,
          safe_stoi-to_string nb.chain_id true h1,
          safe_stoull-to_string nb.parent true h2,
          safe_stoull-to_string nb.hash true h3,
          safe_stoi-to_string nb.no_txs true h4,
          safe_stoi-to_string nb.depth true h5,
          safe_stoi-to_string nb.rank true h6,
          safe_stoi-to_string nb.next_rank true h7,
        )
        (accept_new cfg (announced_key node nb) passed _ (announced get_ip node nb) (ground arith)
          new)
