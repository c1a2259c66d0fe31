-- ===== src/Blockchain/State.antt =====
-- code/Blockchain.hpp: the types `network_block`, `block`, `block_incomplete` and the fields of class
-- `Blockchain`. A block is a cell of a store, named by its address, since the two trees and
-- `deepest` share it.
use ohie.Base.{ℕ, suc, List, Bool, false, Option, none, ◌==◌, if◌then◌else◌, ◌>>=◌, some}
use ohie.StdMap.{Entries}
use ohie.Blockchain.HashTree.{HashTree, single}
use ohie.Blockchain.Links.{Links, null, block}

-- The arrays `time_commited` and `time_partial` have NO_T_DISCARDS = 1 entries.
pub record NetworkBlock : Type 0 where
  pub chain_id : ℕ
  pub parent : ℕ
  pub hash : ℕ
  pub trailing : ℕ
  pub trailing_id : ℕ
  pub merkle_root_chains : List ℕ
  pub merkle_root_txs : List ℕ
  pub proof_new_chain : List (List ℕ)
  pub no_txs : ℕ
  pub depth : ℕ
  pub rank : ℕ
  pub next_rank : ℕ
  pub time_mined : ℕ
  pub time_received : ℕ
  pub time_commited : ℕ
  pub time_partial : ℕ

-- What a block holds beside its links.
pub record Block : Type 0 where
  pub hash : ℕ
  pub nb : Option NetworkBlock
  pub is_full_block : Bool

-- `raw` is what `malloc` happens to leave in the field `nb` of the block at an address:
-- `insert_block_only_by_hash` does not set it.
pub record Store : Type 0 where
  pub next : ℕ
  pub cell : ℕ → Block
  pub raw : ℕ → Option NetworkBlock

unfoldable pub write : Store → ℕ → Block → Store
write s a b = record s { cell = λ q. if q == a then b else s.cell q }

unfoldable pub allocate : Store → Block → Store
unfolding write
allocate s b = record (write s s.next b) { next = suc s.next }

-- `bz->nb = new network_block(nb)`.
unfoldable pub set_nb : Store → ℕ → NetworkBlock → Store
unfolding write
set_nb s a nb = write s a (record (s.cell a) { nb = some nb })

-- `b->nb->depth`, a fault where `nb` is `NULL`.
unfoldable pub depth_of : Store → ℕ → Option ℕ
depth_of s a = do nb ← (s.cell a).nb; some nb.depth

-- A `block *` that is the root of one chain: the search tree and the child tree of its blocks.
pub record Tree : Type 0 where
  pub root : ℕ
  pub index : HashTree
  pub links : Links

pub record Incomplete : Type 0 where
  pub b : Tree
  pub last_asked : ℕ
  pub no_asks : ℕ

-- `chains[i]`, `inchains[i]` and `deepest[i]`.
pub record Chain : Type 0 where
  pub chain : Tree
  pub inchain : List Incomplete
  pub deepest : ℕ

-- The counters do not wrap here.
pub record Blockchain : Type 0 where
  pub store : Store
  pub chains : List Chain
  pub received_non_full_blocks : Entries ℕ (ℕ × ℕ)
  pub waiting_for_full_blocks : Entries ℕ ℕ
  pub mined_blocks : ℕ
  pub processed_full_blocks : ℕ
  pub total_received_blocks : ℕ
  pub receiving_latency : ℕ
  pub receving_total : ℕ
  pub commited_latency : ℕ
  pub commited_total : ℕ
  pub partially_latency : ℕ
  pub partially_total : ℕ

unfoldable pub bootstrap_chain : Store → ℕ → Tree × Store
unfolding allocate
bootstrap_chain s initial_hash = (
  record { root = s.next; index = single initial_hash s.next; links = block s.next null null },
  allocate s (record { hash = initial_hash; nb = none; is_full_block = false }),
)
