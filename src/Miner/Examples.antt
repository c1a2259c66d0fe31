-- ===== src/Miner/Examples.antt =====
-- Witnesses for code/miner.cpp: two chains, each with its root.
use ohie.Base.{ℕ, suc, ◌≡◌, refl, List, [], ◌∷◌, ◌++◌, Bool, true, false, none, some, arith}
use ohie.Config.{Config}
use ohie.Config.Sample.{sample}
use ohie.Text.{Text, codes}
use ohie.Blockchain.HashTree.{single}
use ohie.Blockchain.Links.{null, block}
use ohie.Blockchain.State.{NetworkBlock, Block, Chain, Blockchain}
use ohie.Miner.{Last, lasts, last_of, prepare_block, verify_full_block}
use ohie.Base.{Option, ◌>>=◌}
use ohie.Miner.{mine_new_block}
use ohie.Miner.Loop.{Nap, Mining, miner, miner-mine_loop, mine_loop}
use ohie.Miner.Trailing.{Ranked, prepare_block-Ranked}
use ohie.Miner.Accepted.{prepare_block_accepted}

abbrev root_data : ℕ → NetworkBlock
root_data i = record {
  chain_id = i;
  parent = 0;
  hash = i;
  trailing = 0;
  trailing_id = 0;
  merkle_root_chains = [];
  merkle_root_txs = [];
  proof_new_chain = [];
  no_txs = 0;
  depth = 0;
  rank = 0;
  next_rank = suc i;
  time_mined = 0;
  time_received = 0;
  time_commited = 0;
  time_partial = 0;
}

abbrev root_cell : ℕ → Block
root_cell i = record { hash = i; nb = some (root_data i); is_full_block = true }

abbrev root_chain : ℕ → Chain
root_chain i = record {
  chain = record { root = i; index = single i i; links = block i null null };
  inchain = [];
  deepest = i;
}

abbrev blockchain : Blockchain
blockchain = record {
  store = record { next = 2; cell = root_cell; raw = λ a. none };
  chains = root_chain 0 ∷ root_chain 1 ∷ [];
  received_non_full_blocks = [];
  waiting_for_full_blocks = [];
  mined_blocks = 0;
  processed_full_blocks = 0;
  total_received_blocks = 0;
  receiving_latency = 0;
  receving_total = 0;
  commited_latency = 0;
  commited_total = 0;
  partially_latency = 0;
  partially_total = 0;
}

abbrev config : Config
config = sample

-- A hash function whose texts have 64 digits in front.
abbrev toy_hash : Text → Text
toy_hash t = codes "00000000000000aa00000000000000000000000000000000000000000000000f" ++ t

abbrev last_blocks : List Last
last_blocks = record { hash = 0; nb = root_data 0 } ∷ record { hash = 1; nb = root_data 1 } ∷ []

prepare_block_accepted_example :
    (nb : NetworkBlock) × (prepare_block config toy_hash (λ n. n) blockchain (codes "7") 1 50
      ≡ some nb)
    × (verify_full_block config toy_hash nb ≡ some true)
unfolding lasts last_of
prepare_block_accepted_example =
    prepare_block_accepted config toy_hash (λ n. n) blockchain (codes "7") 1 50 1 last_blocks refl
      refl (omega arith) refl (omega arith)

-- The block that is prepared.
prepared :
    (nb : NetworkBlock) × (prepare_block config toy_hash (λ n. n) blockchain (codes "7") 1 50
      ≡ some nb)
    × (verify_full_block config toy_hash nb ≡ some true)
unfolding lasts last_of
prepared =
    prepare_block_accepted config toy_hash (λ n. n) blockchain (codes "7") 1 50 1 last_blocks refl
      refl (omega arith) refl (omega arith)

prepare_block-Ranked_example : Ranked last_blocks prepared.0
unfolding lasts last_of
prepare_block-Ranked_example =
    prepare_block-Ranked config toy_hash (λ n. n) blockchain (codes "7") 1 50 last_blocks prepared.0
      refl ((omega arith, omega arith), ((omega arith, omega arith), tt)) prepared.1

-- The second of four sleeps is interrupted.
abbrev nap : Bool → Nap Blockchain
nap b = record { interrupted = b; others = λ s. s }

abbrev mining : Mining Blockchain
mining = record {
  total_mined = 0;
  state = blockchain;
  naps = nap false ∷ nap true ∷ nap false ∷ nap false ∷ [];
}

abbrev mine_one : Blockchain → Option Blockchain
mine_one bc = do r ← mine_new_block config toy_hash (λ n. n) bc (codes "7") 1 50; some r.0

miner-mine_loop_example :
    miner mine_one true 2 4 mining ≡ mine_loop mine_one true 2 mining.naps 0 blockchain
miner-mine_loop_example = miner-mine_loop mine_one true 2 4 mining (omega arith)
