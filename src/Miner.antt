-- ===== src/Miner.antt =====
-- code/miner.cpp: `mine_new_block`, and the tests that code/process_buffer.cpp makes of a full block.
-- `sha256` is OpenSSL's, `tree_size` the floating-point expression for the size of the tree, and the
-- number from `rng` and the time of the clock are arguments; `none` is `exit`, or a fault.
mod Examples
pub mod Loop
pub mod Trailing
pub mod Accepted
use ohie.Base.{
  ℕ, suc, ◌+◌, ◌-◌, ◌%◌, ◌^◌, List, [], ◌∷◌, ◌++◌, Bool, true, false, not, ◌&&◌, Option, none, some,
  is_some, ltb, leb, ◌==◌, if◌then◌else◌, ◌>>=◌, get_elem?, length, replicate,
}
use ohie.Config.{Config}
use ohie.Text.{Text}
use ohie.Verify.Hash.{blockhash_to_string, string_to_blockhash, get_chain_id_from_hash}
use ohie.Verify.Merkle.{compute_merkle_tree_root, compute_merkle_proof, verify_merkle_proof}
use ohie.Blockchain.HashTree.{find_block_by_hash}
use ohie.Blockchain.State.{NetworkBlock, Store, Chain, Blockchain, write}
use ohie.Blockchain.Receive.{add_block_by_parent_hash_and_chain_id}
use ohie.Blockchain.Full.{add_mined_block}

-- The last block of a chain with its hash and its data.
pub record Last : Type 0 where
  pub hash : ℕ
  pub nb : NetworkBlock

unfoldable pub last_of : Store → Chain → Option Last
last_of s c = do
  nb ← (s.cell c.deepest).nb
  some (record { hash = (s.cell c.deepest).hash; nb = nb })

unfoldable pub lasts : Store → List Chain → Option (List Last)
lasts s [] = some []
lasts s (c ∷ cs) = do l ← last_of s c; ls ← lasts s cs; some (l ∷ ls)

-- The loop from the chain `i`: a later chain is the trailing one only if its next rank is greater.
unfoldable pub find_trailing : ℕ → List Last → Last × ℕ → Last × ℕ
find_trailing i [] best = best
find_trailing i (l ∷ ls) best =
    find_trailing (suc i) ls (if ltb best.0.nb.next_rank l.nb.next_rank then (l, i) else best)

-- EMPTY_LEAF of code/params.h.
abbrev pub empty_leaf : Text
empty_leaf = replicate 32 b'0'

abbrev pub hash_texts : List Last → List Text
hash_texts [] = []
hash_texts (l ∷ ls) = blockhash_to_string l.hash ∷ hash_texts ls

-- The hashes of the last blocks, made a complete tree. `tot_size_add` is never negative where the
-- size of the tree is at least the count of leaves.
unfoldable pub leaves_of : (ℕ → ℕ) → List Last → List Text
leaves_of tree_size ls = hash_texts ls ++ replicate (tree_size (length ls) - length ls) empty_leaf

-- The data of the new block: `h` is the hash of the two roots.
unfoldable pub new_network_block :
    ℕ → ℕ → Last → Last × ℕ → Text → Text → List Text → ℕ → ℕ → NetworkBlock
new_network_block chain_id hash parent trailing root_chains root_txs proof no_txs now =
    let rank = parent.nb.next_rank in
    let next = trailing.0.nb.next_rank in
    record {
      chain_id = chain_id;
      parent = parent.hash;
      hash = hash;
      trailing = trailing.0.hash;
      trailing_id = trailing.1;
      merkle_root_chains = root_chains;
      merkle_root_txs = root_txs;
      proof_new_chain = proof;
      no_txs = no_txs;
      depth = suc parent.nb.depth % 2 ^ 32;
      rank = rank;
      next_rank = if leb next rank then suc rank % 2 ^ 32 else next;
      time_mined = now;
      time_received = now;
      time_commited = 0;
      time_partial = 0;
    }

-- The flag of a block that is there and has its data.
unfoldable pub set_full_flag : Blockchain → ℕ → ℕ → Option Blockchain
unfolding write
set_full_flag bc chain_id hash = do
  c ← get_elem? bc.chains chain_id
  some (elim (find_block_by_hash c.chain.index hash) [
    | none ↦ bc
    | some bz ↦
        if is_some (bc.store.cell bz).nb
        then record bc {
          store = write bc.store bz (record (bc.store.cell bz) { is_full_block = true });
        }
        else bc
  ])

-- The new block before it is added: `no_txs` is what `create_transaction_block` returns for it.
unfoldable pub prepare_block :
    Config → (Text → Text) → (ℕ → ℕ) → Blockchain → Text → ℕ → ℕ → Option NetworkBlock
prepare_block cfg sha256 tree_size bc root_txs no_txs now = do
  ls ← lasts bc.store bc.chains
  first ← get_elem? ls 0
  let trailing = find_trailing 0 ls (first, 0)
  let leaves = leaves_of tree_size ls
  root ← compute_merkle_tree_root sha256 leaves
  let h = sha256 (root ++ root_txs)
  let chain_id = get_chain_id_from_hash cfg.chains h
  parent ← get_elem? ls chain_id
  proof ← compute_merkle_proof sha256 leaves chain_id
  some (
      new_network_block chain_id (string_to_blockhash h) parent trailing root root_txs proof no_txs
        now)

-- The state afterwards, and the block that goes to the peers. With no transactions nothing is added.
unfoldable pub mine_new_block :
    Config
    → (Text → Text)
    → (ℕ → ℕ)
    → Blockchain
    → Text
    → ℕ
    → ℕ
    → Option (Blockchain × Option NetworkBlock)
mine_new_block cfg sha256 tree_size bc root_txs no_txs now = do
  nb ← prepare_block cfg sha256 tree_size bc root_txs no_txs now
  if no_txs == 0 then some (bc, none) else (do
    b1 ← add_block_by_parent_hash_and_chain_id bc nb.parent nb.hash nb.chain_id nb
    b2 ← set_full_flag b1 nb.chain_id nb.hash
    some (add_mined_block b2, some nb))

-- The tests of a full block in `process_buffer`: the chain and the hash that follow from its roots,
-- then the proof that its parent is the last block of that chain.
unfoldable pub verify_full_block : Config → (Text → Text) → NetworkBlock → Option Bool
verify_full_block cfg sha256 n =
    let h = sha256 (n.merkle_root_chains ++ n.merkle_root_txs) in
    let chain_id_from_hash = get_chain_id_from_hash cfg.chains h in
    if not (chain_id_from_hash == n.chain_id)
    then some false
    else if not (string_to_blockhash h == n.hash)
    then some false
    else verify_merkle_proof sha256 n.proof_new_chain n.parent n.merkle_root_chains
        chain_id_from_hash
