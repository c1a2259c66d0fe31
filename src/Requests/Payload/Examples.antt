-- ===== src/Requests/Payload/Examples.antt =====
-- Witnesses for code/requests.cpp: a message `full_block` that has one field too few.
use ohie.Base.{
  ◌+◌, ◌<◌, ◌≡◌, ◌⊎◌, refl, [], ◌∷◌, some, none, length, List, ℕ, zero, suc, replicate, arith,
}
use ohie.Config.{Config}
use ohie.Config.Sample.{sample}
use ohie.StdMap.{insert, lookup}
use ohie.Text.{Text, codes}
use ohie.Text.Order.{text_order}
use ohie.Text.Split.{split, Without}
use ohie.Blockchain.State.{NetworkBlock}
use ohie.Requests.{Node, Parsed}
use ohie.Requests.Payload.{FullBlock, create__full_block, parse__full_block}
use ohie.Requests.Payload.Trip.{full_block_key, sent_block, parse-create__full_block}
use ohie.Requests.Payload.Short.{parse__full_block_short}

abbrev config : Config
config = record sample { chains = 5 }

abbrev address : Text → Text
address name = codes "10.0.0.2"

-- The fields behind the hash, for a proof of two entries; the time of sending is missing.
abbrev rest : List Text
rest =
    codes "txs"
    ∷ codes "7"
    ∷ codes "0"
    ∷ codes "ab"
    ∷ codes "cd"
    ∷ codes "p"
    ∷ codes "q"
    ∷ codes "5"
    ∷ []

parse__full_block_short_example :
    ((length rest < 6 + 2)
      × (parse__full_block config address 2
            (codes "#full_block" ∷ codes "n1" ∷ codes "8001" ∷ codes "3" ∷ codes "9" ∷ rest)
            []
          ≡ some ([], none)))
    ⊎ ((length rest ≡ 6 + 2)
        × (parse__full_block config address 2
              (codes "#full_block" ∷ codes "n1" ∷ codes "8001" ∷ codes "3" ∷ codes "9" ∷ rest)
              []
            ≡ none))
    ⊎ ((6 + 2 < length rest)
        × (r : Parsed FullBlock) × (parse__full_block config address 2
              (codes "#full_block" ∷ codes "n1" ∷ codes "8001" ∷ codes "3" ∷ codes "9" ∷ rest)
              []
            ≡ some r))
unfolding lookup
parse__full_block_short_example =
    parse__full_block_short config address 2 (codes "#full_block") (codes "n1") (codes "8001")
      (codes "3") (codes "9") [] rest refl

-- A full block with a proof of two entries.
abbrev node : Node
node = record { ip = codes "n1"; port = 8001 }

abbrev block_data : NetworkBlock
block_data = record {
  chain_id = 3;
  parent = 1;
  hash = 9;
  trailing = 7;
  trailing_id = 0;
  merkle_root_chains = codes "ab";
  merkle_root_txs = codes "cd";
  proof_new_chain = codes "p" ∷ codes "q" ∷ [];
  no_txs = 1;
  depth = 4;
  rank = 9;
  next_rank = 10;
  time_mined = 5;
  time_received = 0;
  time_commited = 0;
  time_partial = 0;
}

abbrev ten : Text
ten = replicate 10 b'x'

ten-Without : (n : ℕ) → Without b',' (replicate n b'x')
ten-Without zero = tt
ten-Without (suc n) = ((λ e. omega (arith, e)), ten-Without n)

parse-create__full_block_example :
    (m : Text) × (create__full_block node 3 9 ten (some block_data) 6 ≡ some m)
    × (parse__full_block config address 2 (split m b',') []
        ≡ some (
          insert (full_block_key node 3 9) 1 [],
          some (sent_block address node 3 9 ten block_data 6),
        ))
unfolding lookup
parse-create__full_block_example =
    parse-create__full_block node 3 9 ten block_data 6 config address 2 [] (omega arith)
      (
        ((λ e. cc), ((λ e. cc), tt)),
        ten-Without 10,
        ((λ e. cc), ((λ e. cc), tt)),
        ((λ e. cc), ((λ e. cc), tt)),
        (((λ e. cc), tt), (((λ e. cc), tt), tt)),
      )
      (omega arith, omega arith, omega arith, omega arith, omega arith, omega arith, omega arith)
      refl (omega arith) (omega arith) refl
