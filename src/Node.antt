-- ===== src/Node.antt =====
-- code/node.cpp, code/miner.cpp: the threads of a node that work on its blockchain and its tables. They
-- take turns, as each step holds the mutexes that it needs throughout; only the miner gives the mutex of
-- the mempool back between two transactions, and `turns` says what happens to the tables then.
pub mod Ordered
mod Examples
use ohie.Base.{ℕ, Bool, ◌≡◌, List, [], ◌∷◌, ◌++◌, Option, none, some, get_elem?, length, ◌>>=◌}
use ohie.Config.{Config}
use ohie.StdMap.{Entries, assign, nat_order}
use ohie.Text.{Text}
use ohie.Blockchain.HashTree.{find_block_by_hash}
use ohie.Blockchain.State.{NetworkBlock, Store, Chain, Blockchain}
use ohie.Blockchain.Start.{new_blockchain}
use ohie.Transactions.State.{Pool}
use ohie.Transactions.Receive.{mempool_mtx, lock}
use ohie.Transactions.Promise.{aging_round, create_transaction_block}
use ohie.Transactions.Create.{Draw, creator_round}
use ohie.Miner.{prepare_block, mine_new_block}
use ohie.Requests.{Node, create__process_block}
use ohie.Handler.State.{World, Send, to_all_peers, send}
use ohie.Handler.Stream.{Environment, process_buffer}
use ohie.Server.{Server}
use ohie.Server.Connect.{connect_to_peers, on_connect}
use ohie.Network.{Periods, Timers, Run, run_network}

-- The file of a block: one transaction on each line.
unfoldable pub block_file : List Text → Text
block_file [] = []
block_file (tx ∷ txs) = (tx ++ 10 ∷ []) ++ block_file txs

-- `mine_new_block` with its transactions: a block that is made is stored and sent. `none` is also a wait
-- for transactions, or for a mutex that is never unlocked.
unfoldable pub mine_block :
    Config → (Text → Text) → (ℕ → ℕ) → Node → Text → ℕ → List (Pool → Pool) → World → Option World
unfolding block_file
mine_block cfg sha256 tree_size node root_txs now turns w = do
  free ← lock mempool_mtx w.held
  b ← create_transaction_block cfg turns w.pool
  r ← mine_new_block cfg sha256 tree_size w.blockchain root_txs (length b.0) now
  let w1 = record w { blockchain = r.0; pool = b.1 }
  some (elim r.1 [
    | none ↦ w1
    | some nb ↦
        send (to_all_peers (create__process_block node nb))
          (record w1 { files = assign nb.hash (block_file b.0) w.files })
  ])

-- Every order of steps: a buffer that came from a peer, the timer of the network, a round of attempts to
-- connect, the end of such an attempt, the aging monitor, the
-- creator of transactions, and the miner, whose block has a hash that its chain does not have.
pub data Life (fresh : ℕ → NetworkBlock) (s : Store) (hashes : List ℕ) : Run → Type 0 where
  begin :
      (w : World) (t : Timers)
      → w.blockchain ≡ new_blockchain fresh s hashes
      → Life fresh s hashes (w, t)
  read :
      {w w' : World} {t : Timers} (e : Environment) (m rest : Text)
      → Life fresh s hashes (w, t)
      → process_buffer e m w ≡ some (w', rest)
      → Life fresh s hashes (w', t)
  run :
      {r r' : Run} (cfg : Config) (periods : Periods) (node : Node) (now random : ℕ)
      → Life fresh s hashes r
      → run_network cfg periods node now random r ≡ some r'
      → Life fresh s hashes r'
  connect :
      {w : World} {t : Timers} (is_address : Text → Bool) (period now last : ℕ)
      → Life fresh s hashes (w, t)
      → Life fresh s hashes
          (record w { server = (connect_to_peers is_address period now last w.server).0 }, t)
  connected :
      {w : World} {t : Timers} (i : ℕ) (error : Bool) (server : Server) (posted : List ℕ)
      → Life fresh s hashes (w, t)
      → on_connect w.server i error ≡ some (server, posted)
      → Life fresh s hashes (record w { server = server }, t)
  age :
      {w : World} {t : Timers} (cfg : Config) (clock : ℕ → ℕ) (p : Pool)
      → Life fresh s hashes (w, t)
      → aging_round cfg clock w.pool ≡ some p
      → Life fresh s hashes (record w { pool = p }, t)
  create :
      {w : World} {t : Timers} (cfg : Config) (node : Node) (clients_per_node : ℕ)
      (draws : List Draw) (seqs seqs' : Entries Text ℕ) (p : Pool) (m : Text)
      → Life fresh s hashes (w, t)
      → creator_round cfg node clients_per_node draws w.pool seqs ≡ some (p, seqs', m)
      → Life fresh s hashes (send (to_all_peers m) (record w { pool = p }), t)
  mine :
      {w w' : World} {t : Timers} (cfg : Config) (sha256 : Text → Text) (tree_size : ℕ → ℕ)
      (node : Node) (root_txs : Text) (now : ℕ) (turns : List (Pool → Pool)) (txs : List Text)
      (p : Pool) (nb : NetworkBlock) (c : Chain)
      → Life fresh s hashes (w, t)
      → create_transaction_block cfg turns w.pool ≡ some (txs, p)
      → prepare_block cfg sha256 tree_size w.blockchain root_txs (length txs) now ≡ some nb
      → get_elem? w.blockchain.chains nb.chain_id ≡ some c
      → find_block_by_hash c.chain.index nb.hash ≡ none
      → mine_block cfg sha256 tree_size node root_txs now turns w ≡ some w'
      → Life fresh s hashes (w', t)
