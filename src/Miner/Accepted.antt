-- ===== src/Miner/Accepted.antt =====
-- code/miner.cpp against code/process_buffer.cpp: a new block, and the tests of it by other nodes.
use ohie.Base.{
  some-inj, length-replicate, ℕ, zero, suc, ◌-◌, ◌^◌, ◌≤◌, ◌<◌, ◌≡◌, ◌∙◌, refl, sym, ap, subst,
  List, [], ◌∷◌, ◌++◌, true, some, arith, get_elem?, length, length-append, replicate,
}
use ohie.Config.{Config}
use ohie.Text.{Text}
use ohie.Verify.Hash.{blockhash_to_string, string_to_blockhash, get_chain_id_from_hash}
use ohie.Verify.Merkle.{compute_merkle_tree_root, compute_merkle_proof, verify_merkle_proof}
use ohie.Verify.Merkle.Complete.{verify-compute_merkle_proof}
use ohie.Blockchain.State.{NetworkBlock, Blockchain}
use ohie.Miner.{
  Last, lasts, find_trailing, empty_leaf, hash_texts, leaves_of, new_network_block, prepare_block,
  verify_full_block,
}

length-hash_texts : (ls : List Last) → length (hash_texts ls) ≡ length ls
length-hash_texts [] = refl
length-hash_texts (l ∷ ls) = ap suc (length-hash_texts ls)

length-leaves_of :
    (tree_size : ℕ → ℕ) (ls : List Last)
    → length ls ≤ tree_size (length ls)
    → length (leaves_of tree_size ls) ≡ tree_size (length ls)
unfolding leaves_of
length-leaves_of tree_size ls h = omega (
  arith,
  length-append (hash_texts ls) (replicate (tree_size (length ls) - length ls) empty_leaf),
  length-hash_texts ls,
  length-replicate {A = Text} (tree_size (length ls) - length ls) empty_leaf,
)

get_elem?-hash_texts :
    (ls : List Last) (rest : List Text) (i : ℕ) (l : Last)
    → get_elem? ls i ≡ some l
    → get_elem? (hash_texts ls ++ rest) i ≡ some (blockhash_to_string l.hash)
get_elem?-hash_texts [] rest i l h = cc
get_elem?-hash_texts (k ∷ ls) rest zero l h =
    let e : k ≡ l = cc in ap (λ (z : Last). some (blockhash_to_string z.hash)) e
get_elem?-hash_texts (k ∷ ls) rest (suc i) l h = get_elem?-hash_texts ls rest i l h

some-get_elem? {ℓ} :
    {A : Type ℓ} (xs : List A) (i : ℕ) → i < length xs → (a : A) × (get_elem? xs i ≡ some a)
some-get_elem? [] i h = elim h [ ]
some-get_elem? (x ∷ xs) zero h = (x, refl)
some-get_elem? (x ∷ xs) (suc i) h = some-get_elem? xs i (omega arith)

verify_full_block_new :
    (cfg : Config) (sha256 : Text → Text) (parent : Last) (trailing : Last × ℕ)
    (root root_txs : Text) (proof : List Text) (no_txs now : ℕ)
    → let h = sha256 (root ++ root_txs) in
      let c = get_chain_id_from_hash cfg.chains h in
      verify_full_block cfg sha256
        (new_network_block c (string_to_blockhash h) parent trailing root root_txs proof no_txs now)
      ≡ verify_merkle_proof sha256 proof parent.hash root c
unfolding verify_full_block new_network_block
verify_full_block_new cfg sha256 parent trailing root root_txs proof no_txs now = ground arith

get_chain_id_lt :
    (chains size : ℕ) (h : Text) → chains ≡ size → 0 < size → get_chain_id_from_hash chains h < size
unfolding get_chain_id_from_hash
get_chain_id_lt chains size h e pos = grind arith

get_elem?-leaves_of :
    (tree_size : ℕ → ℕ) (ls : List Last) (i : ℕ) (l : Last)
    → get_elem? ls i ≡ some l
    → get_elem? (leaves_of tree_size ls) i ≡ some (blockhash_to_string l.hash)
unfolding leaves_of
get_elem?-leaves_of tree_size ls i l h = get_elem?-hash_texts ls _ i l h

prepare_block_eq :
    (cfg : Config) (sha256 : Text → Text) (tree_size : ℕ → ℕ) (bc : Blockchain) (root_txs : Text)
    (no_txs now : ℕ) (ls : List Last) (first : Last) (root : Text) (parent : Last)
    (proof : List Text)
    → let h = sha256 (root ++ root_txs) in
      let c = get_chain_id_from_hash cfg.chains h in
      lasts bc.store bc.chains ≡ some ls
      → get_elem? ls 0 ≡ some first
      → compute_merkle_tree_root sha256 (leaves_of tree_size ls) ≡ some root
      → get_elem? ls c ≡ some parent
      → compute_merkle_proof sha256 (leaves_of tree_size ls) c ≡ some proof
      → prepare_block cfg sha256 tree_size bc root_txs no_txs now
        ≡ some (
            new_network_block c
              (string_to_blockhash h)
              parent
              (find_trailing 0 ls (first, 0))
              root
              root_txs
              proof
              no_txs
              now)
unfolding prepare_block
prepare_block_eq cfg sha256 tree_size bc root_txs no_txs now ls first root parent proof e1 e2 e3 e4
      e5 =
    rw (e1, e2, e3, e4, e5, prepare_block) refl

-- Where every chain has a last block with its data, CHAINS is the number of chains and not 0, and
-- the floating-point expression for the size of the tree gives a power of two that is large
-- enough: the miner prepares a block, and the tests that every node makes of the chain, the hash
-- and the Merkle proof of a full block accept it, whatever the hash function.
pub prepare_block_accepted :
    (cfg : Config) (sha256 : Text → Text) (tree_size : ℕ → ℕ) (bc : Blockchain) (root_txs : Text)
    (no_txs now k : ℕ) (ls : List Last)
    → lasts bc.store bc.chains ≡ some ls
    → cfg.chains ≡ length ls
    → 0 < length ls
    → tree_size (length ls) ≡ 2 ^ k
    → length ls ≤ 2 ^ k
    → (nb : NetworkBlock) × (prepare_block cfg sha256 tree_size bc root_txs no_txs now ≡ some nb)
      × (verify_full_block cfg sha256 nb ≡ some true)
prepare_block_accepted cfg sha256 tree_size bc root_txs no_txs now k ls els n pos size enough =
    let leaves = leaves_of tree_size ls in
    let (first, ef) = some-get_elem? ls 0 pos in
    let full : length leaves ≡ 2 ^ k = length-leaves_of tree_size ls (rw size enough) ∙ size in
    let (root, _, er, _, _) =
      verify-compute_merkle_proof sha256 k leaves 0 first.hash full
        (get_elem?-leaves_of tree_size ls 0 first ef) in
    let c = get_chain_id_from_hash cfg.chains (sha256 (root ++ root_txs)) in
    let (parent, ep) = some-get_elem? ls c (get_chain_id_lt cfg.chains (length ls) _ n pos) in
    let (root', proof, er', eq, ev) =
      verify-compute_merkle_proof sha256 k leaves c parent.hash full
        (get_elem?-leaves_of tree_size ls c parent ep) in
    let same : root' ≡ root = some-inj (sym er' ∙ er) in
    (
      new_network_block c (string_to_blockhash (sha256 (root ++ root_txs))) parent
          (find_trailing 0 ls (first, 0)) root root_txs proof no_txs now,
      prepare_block_eq cfg sha256 tree_size bc root_txs no_txs now ls first root parent proof els ef
          er ep eq,
      verify_full_block_new cfg sha256 parent (find_trailing 0 ls (first, 0)) root root_txs proof
            no_txs now
          ∙ subst (λ r. verify_merkle_proof sha256 proof parent.hash r c ≡ some true) same ev,
    )
