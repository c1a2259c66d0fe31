-- ===== src/Handler/Full.antt =====
-- code/process_buffer.cpp: the message `full_block`.
pub mod Accepted
use ohie.Base.{
  ℕ, zero, suc, ◌+◌, ◌-◌, ◌^◌, ◌%◌, List, [], ◌∷◌, ◌++◌, Bool, true, false, not, ◌&&◌, Option, none,
  some, ltb, ◌==◌, if◌then◌else◌, ◌>>=◌, get_elem?,
}
use ohie.Config.{Config}
use ohie.StdMap.{Entries, assign, nat_order}
use ohie.Text.{Text}
use ohie.Blockchain.HashTree.{find_block_by_hash}
use ohie.Blockchain.State.{NetworkBlock, Store, Blockchain, set_nb}
use ohie.Blockchain.Full.{set_block_full}
use ohie.Transactions.State.{Pool}
use ohie.Transactions.Receive.{Mutex, Verdict, verify_transaction_from_block}
use ohie.Requests.{Node, Request, create__ask_block}
use ohie.Requests.Payload.{FullBlock, parse__full_block}
use ohie.Miner.{verify_full_block}
use ohie.Handler.State.{Send, World, Handled, send}
use ohie.Handler.Blocks.{have_full}

-- The lines, `acc` what was read of the one so far; text behind the last `\n` is no line.
unfoldable pub read_lines : Text → Text → List Text
read_lines acc [] = []
read_lines acc (c ∷ cs) = elim (c == 10) [
  | true ↦ acc ∷ read_lines [] cs
  | false ↦ read_lines (acc ++ c ∷ []) cs
]

-- The search for the first `\n` begins behind the first character.
unfoldable pub lines_of : Text → List Text
lines_of [] = []
lines_of (c ∷ cs) = read_lines (c ∷ []) cs

-- What the loop over the transactions leaves: it ends at the first that is not accepted.
pub record Checked : Type 0 where
  pub pool : Pool
  pub held : List Mutex
  pub tot_transactions : ℕ
  pub all_good : Bool

unfoldable pub verify_lines : Config → ℕ → ℕ → List Text → Pool → List Mutex → ℕ → Option Checked
verify_lines cfg rank last_rank [] p held tot =
    some (record { pool = p; held = held; tot_transactions = tot; all_good = true })
verify_lines cfg rank last_rank (l ∷ ls) p held tot = do
  v ← verify_transaction_from_block cfg p l rank last_rank held
  elim v.accepted [
    | true ↦ verify_lines cfg rank last_rank ls v.pool v.held (suc tot)
    | false ↦
        some (record { pool = v.pool; held = v.held; tot_transactions = tot; all_good = false })
  ]

-- "Assing all from nb": the data that `process_block` left out. This is stored before it is tested.
unfoldable pub completed : NetworkBlock → FullBlock → NetworkBlock
completed n f = record n {
  trailing = f.trailing;
  trailing_id = f.trailing_id;
  merkle_root_chains = f.merkle_root_chains;
  merkle_root_txs = f.merkle_root_txs;
  proof_new_chain = f.proof_new_chain;
  time_mined = f.time_mined;
  time_commited = 0;
  time_partial = 0;
}

unfoldable pub store_data : ℕ → NetworkBlock → World → World
unfolding set_nb
store_data bz n w = record w {
  blockchain = record (w.blockchain) { store = set_nb w.blockchain.store bz n };
}

abbrev text_size : Text → ℕ
text_size [] = 0
text_size (c ∷ cs) = suc (text_size cs)

module _ (cfg : Config) (node : Node) (sha256 : Text → Text) (now : ℕ) where
  -- All tests are passed: the text is written to its file, and the block is full.
  unfoldable pub make_full : FullBlock → ℕ → World → Option World
  make_full f tot w = do
    bc ← set_block_full w.blockchain f.request.chain_id f.request.hash now
    some (record w {
      blockchain = bc;
      files = assign f.request.hash f.txs w.files;
      no_verified_transactions = w.no_verified_transactions + tot;
      bytes_txs_received = w.bytes_txs_received + text_size f.txs;
    })

  -- The tests of the data, and that the trailing block is known; else it is asked for.
  unfoldable pub check_data : FullBlock → ℕ → NetworkBlock → World → Option World
  check_data f tot n w = do
    ok ← verify_full_block cfg sha256 n
    elim ok [
      | false ↦ some w
      | true ↦ do
        c ← get_elem? w.blockchain.chains n.trailing_id
        elim (find_block_by_hash c.chain.index n.trailing) [
          | none ↦
              some
                (send (Send.to_all_peers (create__ask_block node n.trailing_id n.trailing 0 0)) w)
          | some t ↦ make_full f tot w
        ]
    ]

  -- The transactions, and then the data, of a block that is not full yet: the state afterwards,
  -- and whether the loop over the messages ends, if this is the last one.
  unfoldable pub check_full_block : FullBlock → ℕ → NetworkBlock → ℕ → World → Option (World × Bool)
  check_full_block f bz n last_rank w = do
    k ← verify_lines cfg n.rank last_rank (lines_of f.txs) w.pool w.held 0
    let w1 = record w { pool = k.pool; held = k.held }
    elim (k.tot_transactions == n.no_txs) [
      | false ↦ some (w1, ltb 0 k.tot_transactions)
      | true ↦ elim k.all_good [
        | false ↦ some (w1, false)
        | true ↦ do
          w2 ← check_data f k.tot_transactions (completed n f) (store_data bz (completed n f) w1)
          some (w2, false)
      ]
    ]

  -- A block that is full already, or not known, changes nothing.
  unfoldable pub receive_full_block : FullBlock → World → Option (World × Bool)
  receive_full_block f w = do
    have ← have_full w.blockchain f.request.chain_id f.request.hash
    elim have [
      | true ↦ some (w, false)
      | false ↦ do
        c ← get_elem? w.blockchain.chains f.request.chain_id
        elim (find_block_by_hash c.chain.index f.request.hash) [
          | none ↦ some (w, false)
          | some bz ↦ elim (w.blockchain.store.cell bz).nb [
            | none ↦ some (w, false)
            | some n ↦ do
              last ← (w.blockchain.store.cell c.deepest).nb
              check_full_block f bz n ((last.next_rank + (2 ^ 32 - 1)) % 2 ^ 32) w
          ]
        ]
    ]

  unfoldable pub handle_full_block :
      (Text → Text) → ℕ → List Text → Entries Text ℕ → Bool → World → Handled
  handle_full_block get_ip mpl sp passed is_last w = do
    r ← parse__full_block cfg get_ip mpl sp passed
    elim r.1 [
      | none ↦ some (w, r.0, is_last)
      | some f ↦ do x ← receive_full_block f w; some (x.0, r.0, x.1 && is_last)
    ]
