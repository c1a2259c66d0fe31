-- ===== src/Blockchain/Examples.antt =====
-- Witnesses for code/Blockchain.cpp: a node with one chain, a full root and a block below it that is
-- not full.
use ohie.Base.{
  ℕ, suc, ◌≡◌, refl, List, [], ◌∷◌, true, false, none, some, arith, is_some, All, length, ◌≤◌, ◌⊎◌,
  get_elem?, ◌==◌, if◌then◌else◌,
}
use ohie.Config.{Config}
use ohie.Config.Sample.{sample}
use ohie.StdMap.{lookup, nat_order}
use ohie.Blockchain.HashTree.{HashTree, leaf, node, single, find_block_by_hash}
use ohie.Blockchain.HashTree.Order.{IsOrdered}
use ohie.Blockchain.Links.{null, block, ancestors}
use ohie.Blockchain.State.{NetworkBlock, Block, Store, Chain, Blockchain}
use ohie.Blockchain.Incomplete.{is_incomplete_hash}
use ohie.Blockchain.Receive.{Outcome, add_received_block, have_full_block}
use ohie.Blockchain.Receive.Keeps.{add_received_block_keeps}
use ohie.Blockchain.Receive.Extend.{Accepted, add_received_block_extends}
use ohie.Blockchain.Receive.{extend_chain, add_full_block_info}
use ohie.Blockchain.Incomplete.{add_block_by_parent_hash}
use ohie.Blockchain.HashTree.{insert_block_only_by_hash}
use ohie.Blockchain.State.{depth_of}
use ohie.Blockchain.Links.{find_max_depth, children_of, add_child, append_sibling, max_depth_loop}
use ohie.Blockchain.Receive.Again.{Message, receive_messages, IsOther, add_received_block_again}
use ohie.Blockchain.Full.{
  get_non_full_blocks, scan_non_full, block_status, with_missing, set_block_full,
}
use ohie.Blockchain.Full.Asking.{Missing, get_non_full_blocks_lem}
use ohie.Blockchain.Full.Arrival.{set_block_full_lem}
use ohie.Blockchain.Commit.{settled, commit_phase, confirm_bar, is_confirmed, no_bar}
use ohie.Blockchain.Commit.Bar.{Head, Every, Any, confirm_bar_least}
use ohie.Blockchain.Commit.Once.{commit_phase_cell, commit_phase_once, is_settled, commit_block}

abbrev data_of : ℕ → ℕ → ℕ → ℕ → NetworkBlock
data_of hash parent depth rank = record {
  chain_id = 0;
  parent = parent;
  hash = hash;
  trailing = 0;
  trailing_id = 0;
  merkle_root_chains = [];
  merkle_root_txs = [];
  proof_new_chain = [];
  no_txs = 0;
  depth = depth;
  rank = rank;
  next_rank = suc rank;
  time_mined = 5;
  time_received = 0;
  time_commited = 0;
  time_partial = 0;
}

abbrev root_block : NetworkBlock
root_block = data_of 100 0 0 0

abbrev child_block : NetworkBlock
child_block = data_of 200 100 1 1

abbrev new_block : NetworkBlock
new_block = data_of 300 200 2 2

abbrev cells : ℕ → Block
cells a =
    if a == 0
    then record { hash = 100; nb = some root_block; is_full_block = true }
    else if a == 1
    then record { hash = 200; nb = some child_block; is_full_block = false }
    else record { hash = 0; nb = none; is_full_block = false }

abbrev store : Store
store = record { next = 2; cell = cells; raw = λ a. none }

abbrev chain : Chain
chain = record {
  chain = record {
    root = 0;
    index = node leaf 100 0 (single 200 1);
    links = block 0 (block 1 null null) null;
  };
  inchain = [];
  deepest = 1;
}

abbrev blockchain : Blockchain
blockchain = record {
  store = store;
  chains = chain ∷ [];
  received_non_full_blocks = (200, (0, 0)) ∷ [];
  waiting_for_full_blocks = (200, 10) ∷ [];
  mined_blocks = 0;
  processed_full_blocks = 0;
  total_received_blocks = 1;
  receiving_latency = 0;
  receving_total = 0;
  commited_latency = 0;
  commited_total = 0;
  partially_latency = 0;
  partially_total = 0;
}

abbrev config : Config
config = record sample { chains = 1 }

add_received_block_extends_example :
    (o : Outcome) × (add_received_block blockchain 0 200 300 new_block ≡ some o)
    × Accepted blockchain 0 300 1 new_block chain 1 o
unfolding find_block_by_hash is_incomplete_hash ancestors
add_received_block_extends_example =
    add_received_block_extends blockchain 0 200 300 1 1 (0 ∷ []) new_block child_block chain refl
      refl refl refl refl refl refl (λ e. cc)

-- What becomes of the new block.
accepted :
    (o : Outcome) × (add_received_block blockchain 0 200 300 new_block ≡ some o)
    × Accepted blockchain 0 300 1 new_block chain 1 o
unfolding find_block_by_hash is_incomplete_hash ancestors
accepted =
    add_received_block_extends blockchain 0 200 300 1 1 (0 ∷ []) new_block child_block chain refl
      refl refl refl refl refl refl (λ e. cc)

-- A new block comes, then the one that is there already.
abbrev messages : List Message
messages =
    record { chain_id = 0; parent = 200; hash = 300; nb = new_block }
    ∷ record { chain_id = 0; parent = 7; hash = 200; nb = root_block }
    ∷ []

abbrev received_all : Blockchain × List (ℕ × ℕ)
received_all = elim (receive_messages messages blockchain) [ none ↦ (blockchain, []) | some r ↦ r ]

add_received_block_again_example :
    All (IsOther 0 200) received_all.1
    × (add_received_block received_all.0 0 7 200 root_block
        ≡ some (record { state = received_all.0; need_parent = false; added = false }))
unfolding find_block_by_hash add_received_block extend_chain is_incomplete_hash add_full_block_info
    add_block_by_parent_hash insert_block_only_by_hash depth_of find_max_depth children_of add_child
    append_sibling max_depth_loop
add_received_block_again_example =
    add_received_block_again blockchain received_all.0 0 200 1 7 chain root_block messages
      received_all.1 refl refl refl

add_received_block_keeps_example :
    (c : Chain) × (get_elem? accepted.0.state.chains 0 ≡ some c)
    × (find_block_by_hash c.chain.index 200 ≡ some 1)
unfolding find_block_by_hash
add_received_block_keeps_example =
    add_received_block_keeps blockchain 0 200 300 new_block accepted.0 0 chain 200 1 accepted.1 refl
      refl

-- A tree of three hashes.
abbrev small_tree : HashTree
small_tree = node (single 40 3) 50 4 (single 60 5)

small_tree-IsOrdered : IsOrdered small_tree
small_tree-IsOrdered = ground arith

-- The state and the requests of a round, and of the arrival of a full block.
abbrev asked : Blockchain × List (ℕ × ℕ)
asked = elim (get_non_full_blocks config blockchain 3000) [ none ↦ (blockchain, []) | some r ↦ r ]

abbrev full : Blockchain
full = elim (set_block_full blockchain 0 200 9) [ none ↦ blockchain | some b ↦ b ]

get_non_full_blocks_example : (length asked.1 ≤ 100) × All (Missing store (chain ∷ [])) asked.1
unfolding get_non_full_blocks scan_non_full block_status with_missing find_block_by_hash
get_non_full_blocks_example =
    get_non_full_blocks_lem config blockchain asked.0 3000 asked.1 (omega arith) refl

set_block_full_example :
    (full.chains ≡ blockchain.chains)
    × (have_full_block full.store chain.chain 200
        ≡ is_some (find_block_by_hash chain.chain.index 200))
    × (lookup 200 full.received_non_full_blocks
        ≡ (if 200 == 200 then none else lookup 200 blockchain.received_non_full_blocks))
    × (lookup 200 full.waiting_for_full_blocks
        ≡ (if 200 == 200 then none else lookup 200 blockchain.waiting_for_full_blocks))
unfolding set_block_full
set_block_full_example = set_block_full_lem blockchain full 0 200 9 200 chain refl refl

-- With no block discarded, and a bar above the rank of the root.
commit_phase_cell_example :
    (commit_phase 0 9 50 blockchain).store.cell 0
    ≡ (if is_settled 0 blockchain.chains 0 then commit_block 9 50 (store.cell 0) else store.cell 0)
commit_phase_cell_example = commit_phase_cell 0 9 50 blockchain 0

-- The state after a first run.
abbrev committed : Blockchain
committed = record blockchain { store = (commit_phase 0 9 50 blockchain).store }

commit_phase_once_example :
    (commit_phase 0 20 90 committed).store.cell 0 ≡ (commit_phase 0 9 50 blockchain).store.cell 0
unfolding settled ancestors is_confirmed
commit_phase_once_example =
    commit_phase_once 0 9 50 0 20 90 blockchain committed 0 root_block refl refl refl refl

confirm_bar_least_example :
    Every (Head store 0 (λ r. 2 ≤ r)) (chain ∷ [])
    × ((2 ≡ no_bar) ⊎ Any (Head store 0 (λ r. r ≡ 2)) (chain ∷ []))
unfolding confirm_bar settled ancestors
confirm_bar_least_example = confirm_bar_least store 0 (chain ∷ []) 2 refl
