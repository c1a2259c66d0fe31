-- ===== src/Blockchain/Totals.antt =====
-- code/Blockchain.cpp: the numbers of blocks that `specific_print_blockchain` prints.
use ohie.Base.{ℕ, ◌+◌, ◌-◌, ◌%◌, ◌^◌, List, [], ◌∷◌, Option, some, ◌>>=◌, length}
use ohie.Blockchain.Links.{find_number_of_nodes}
use ohie.Blockchain.Incomplete.{find_number_of_incomplete_blocks}
use ohie.Blockchain.State.{Store, Chain, Blockchain, depth_of}

pub record Totals : Type 0 where
  pub tot_max_depth : ℕ
  pub tot_no_nodes : ℕ
  pub tot_no_in_nodes : ℕ

-- The loop over the chains. The last block of a chain without its data is a fault.
unfoldable pub count_chains : Store → List Chain → Totals → Option Totals
count_chains s [] t = some t
count_chains s (c ∷ cs) t = do
  depth ← depth_of s c.deepest
  count_chains s cs (record {
    tot_max_depth = (t.tot_max_depth + depth) % 2 ^ 32;
    tot_no_nodes = (t.tot_no_nodes + find_number_of_nodes c.chain.links) % 2 ^ 32;
    tot_no_in_nodes = (t.tot_no_in_nodes + find_number_of_incomplete_blocks c.inchain) % 2 ^ 32;
  })

-- The roots of the chains are not counted.
unfoldable pub specific_print_blockchain : Blockchain → Option Totals
specific_print_blockchain bc = do
  t ←
      count_chains bc.store bc.chains
        (record { tot_max_depth = 0; tot_no_nodes = 0; tot_no_in_nodes = 0 })
  some (record t { tot_no_nodes = (t.tot_no_nodes + 2 ^ 32 - length bc.chains % 2 ^ 32) % 2 ^ 32 })
