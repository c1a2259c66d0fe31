-- ===== src/Requests/Examples.antt =====
-- Witnesses for code/requests.cpp: a node that announces a block.
use ohie.Base.{◌≡◌, refl, [], true, some, arith}
use ohie.Config.{Config}
use ohie.Config.Sample.{sample}
use ohie.StdMap.{insert, lookup}
use ohie.Text.{Text, codes}
use ohie.Text.Order.{text_order}
use ohie.Text.Split.{split}
use ohie.Blockchain.State.{NetworkBlock}
use ohie.Requests.{Node, create__process_block, parse__process_block}
use ohie.Requests.RoundTrip.{announced, announced_key, parse-create__process_block}

abbrev node : Node
node = record { ip = codes "n1"; port = 8001 }

abbrev block_data : NetworkBlock
block_data = record {
  chain_id = 3;
  parent = 12345678901;
  hash = 98765432109;
  trailing = 0;
  trailing_id = 0;
  merkle_root_chains = [];
  merkle_root_txs = [];
  proof_new_chain = [];
  no_txs = 17;
  depth = 4;
  rank = 9;
  next_rank = 10;
  time_mined = 0;
  time_received = 0;
  time_commited = 0;
  time_partial = 0;
}

abbrev config : Config
config = record sample { chains = 5; print_transmission_errors = true }

-- The address of every name.
abbrev resolver : Text → Text
resolver name = codes "10.0.0.2"

parse-create__process_block_example :
    parse__process_block config resolver (split (create__process_block node block_data) b',') []
    ≡ (insert (announced_key node block_data) 1 [], some (announced resolver node block_data))
unfolding lookup
parse-create__process_block_example =
    parse-create__process_block config resolver node block_data []
      (
        omega arith,
        omega arith,
        omega arith,
        omega arith,
        omega arith,
        omega arith,
        omega arith,
        omega arith,
      )
      ((λ e. cc), ((λ e. cc), tt)) (omega arith) (omega arith) refl
