-- ===== src/Blockchain/Receive/Keeps.antt =====
-- code/Blockchain.cpp: the main chains under `add_received_block`: no block is lost, and the search
-- trees stay ordered.
use ohie.Base.{ℕ, ◌≡◌, none, some, arith, Holds-some, get_elem?}
use ohie.Blockchain.HashTree.{
  HashTree, leaf, node, single, find_block_by_hash, insert_block_only_by_hash, insert_one_node,
  insert_subtree_by_hash,
}
use ohie.Blockchain.HashTree.Lookup.{find-insert_block_only, find-insert_one_node}
use ohie.Blockchain.State.{NetworkBlock, Chain, Blockchain}
use ohie.Blockchain.Receive.{Outcome, add_received_block}
use ohie.Blockchain.Receive.Chains.{add_received_block-AllChains}

-- Every answer of the first tree is an answer of the second.
abbrev pub Keeps : HashTree → HashTree → Type 0
Keeps t t' = (q a : ℕ) → find_block_by_hash t q ≡ some a → find_block_by_hash t' q ≡ some a

pub insert_block_only-Keeps :
    (t : HashTree) (h a : ℕ)
    → find_block_by_hash t h ≡ none
    → Keeps t (insert_block_only_by_hash t h a)
insert_block_only-Keeps t h a e q b k = ground (arith, find-insert_block_only t h a q e)

insert_one_node-Keeps : (t : HashTree) (h a : ℕ) → Keeps t (insert_one_node t (single h a))
insert_one_node-Keeps t h a q b e = ground (arith, find-insert_one_node t h a q)

pub insert_subtree-Keeps : (t s : HashTree) → Keeps t (insert_subtree_by_hash t s)
unfolding insert_subtree_by_hash
insert_subtree-Keeps t leaf q b e = e
insert_subtree-Keeps t (node l h a r) q b e =
    let one = insert_one_node t (single h a) in
    insert_subtree-Keeps (insert_subtree_by_hash one l) r q b
      (insert_subtree-Keeps one l q b (insert_one_node-Keeps t h a q b e))

-- Wherever `add_received_block` returns, a block that a main chain finds under a hash is found
-- there afterwards, as the same block: whatever the message is, and whichever chain it is for, no
-- block of a main chain is lost or replaced.
pub add_received_block_keeps :
    (bc : Blockchain) (chain_id parent hash : ℕ) (nb : NetworkBlock) (o : Outcome) (i : ℕ)
    (c : Chain) (q a : ℕ)
    → add_received_block bc chain_id parent hash nb ≡ some o
    → get_elem? bc.chains i ≡ some c
    → find_block_by_hash c.chain.index q ≡ some a
    → (c' : Chain) × (get_elem? o.state.chains i ≡ some c')
      × (find_block_by_hash c'.chain.index q ≡ some a)
add_received_block_keeps bc chain_id parent hash nb o i c q a e g f =
    let all =
      add_received_block-AllChains Keeps (λ t q a h. h) insert_block_only-Keeps insert_subtree-Keeps
        bc chain_id parent hash nb in
    let (c', d, k) = Holds-some _ _ e all i c g in (c', d, k q a f)
