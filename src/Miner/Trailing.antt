-- ===== src/Miner/Trailing.antt =====
-- code/miner.cpp: the ranks and the depth of a new block.
use ohie.Base.{
  All-mono, ℕ, zero, suc, ◌^◌, subst, some-inj, ◌≤◌, ◌<◌, ◌≡◌, refl, List, [], ◌∷◌, ◌++◌, some,
  arith, Holds-bind, Holds-some, Bool-cases, inl, inr, ltb, ltb→lt, get_elem?, All, if◌then◌else◌,
}
use ohie.Config.{Config}
use ohie.Text.{Text}
use ohie.Verify.Hash.{string_to_blockhash, get_chain_id_from_hash}
use ohie.Verify.Merkle.{compute_merkle_tree_root, compute_merkle_proof}
use ohie.Blockchain.State.{NetworkBlock, Blockchain}
use ohie.Miner.{Last, lasts, leaves_of, find_trailing, new_network_block, prepare_block}

-- No last block has a greater next rank.
abbrev Greatest : List Last → Last × ℕ → Type 0
Greatest ls best = All (λ l. l.nb.next_rank ≤ best.0.nb.next_rank) ls

find_trailing_ge :
    (i : ℕ) (ls : List Last) (best : Last × ℕ)
    → best.0.nb.next_rank ≤ (find_trailing i ls best).0.nb.next_rank
unfolding find_trailing
find_trailing_ge i [] best = omega arith
find_trailing_ge i (l ∷ ls) best = elim (Bool-cases (ltb best.0.nb.next_rank l.nb.next_rank)) [
  | inl e ↦ rw (e, find_trailing) (omega (arith, ltb→lt _ _ e, find_trailing_ge (suc i) ls (l, i)))
  | inr e ↦ rw (e, find_trailing) (find_trailing_ge (suc i) ls best)
]

pick_ge :
    (best : Last × ℕ) (l : Last) (i : ℕ)
    → l.nb.next_rank
      ≤ (if ltb best.0.nb.next_rank l.nb.next_rank then (l, i) else best).0.nb.next_rank
pick_ge best l i = ground arith

find_trailing-Greatest :
    (i : ℕ) (ls : List Last) (best : Last × ℕ) → Greatest ls (find_trailing i ls best)
unfolding find_trailing
find_trailing-Greatest i [] best = tt
find_trailing-Greatest i (l ∷ ls) best =
    let b = if ltb best.0.nb.next_rank l.nb.next_rank then (l, i) else best in
    let up : l.nb.next_rank ≤ b.0.nb.next_rank = pick_ge best l i in
    (omega (arith, up, find_trailing_ge (suc i) ls b), find_trailing-Greatest (suc i) ls b)

-- What the ranks and the depth are, from the last blocks of all chains.
abbrev pub Ranked : List Last → NetworkBlock → Type 0
Ranked ls nb =
    (parent : Last) × (get_elem? ls nb.chain_id ≡ some parent)
    × (nb.parent ≡ parent.hash)
    × (nb.depth ≡ suc parent.nb.depth)
    × (nb.rank ≡ parent.nb.next_rank)
    × (nb.rank < nb.next_rank)
    × All (λ l. l.nb.next_rank ≤ nb.next_rank) ls

-- One more does not wrap.
abbrev pub Fits : Last → Type 0
Fits l = (suc l.nb.depth < 2 ^ 32) × (suc l.nb.next_rank < 2 ^ 32)

All-at {ℓ κ} :
    {A : Type ℓ} (P : A → Type κ) (xs : List A) (i : ℕ) (x : A)
    → All P xs
    → get_elem? xs i ≡ some x
    → P x
All-at P [] i x h e = cc
All-at P (y ∷ ys) zero x h e = subst P (some-inj e) h.0
All-at P (y ∷ ys) (suc i) x h e = All-at P ys i x h.1 e

new_network_block-Ranked :
    (ls : List Last) (parent : Last) (trailing : Last × ℕ) (chain_id hash : ℕ)
    (root root_txs : Text) (proof : List Text) (no_txs now : ℕ)
    → All Fits ls
    → get_elem? ls chain_id ≡ some parent
    → Greatest ls trailing
    → Ranked ls (new_network_block chain_id hash parent trailing root root_txs proof no_txs now)
unfolding new_network_block
new_network_block-Ranked ls parent trailing chain_id hash root root_txs proof no_txs now fits ep g =
    let (d, r) = All-at Fits ls chain_id parent fits ep in
    (
      parent,
      ep,
      refl,
      omega (arith, d),
      refl,
      ground (arith, r),
      All-mono _ _ ls (λ l k. ground (arith, r, k)) g,
    )

-- Where one more fits into 32 bits for the depth and the next rank of the last block of each
-- chain, a block that the miner prepares stands one deeper than the last block of its chain, has
-- the rank that this block gives, and gives to the next block a rank that is greater than its own
-- and not less than the next rank of any chain's last block.
pub prepare_block-Ranked :
    (cfg : Config) (sha256 : Text → Text) (tree_size : ℕ → ℕ) (bc : Blockchain) (root_txs : Text)
    (no_txs now : ℕ) (ls : List Last) (nb : NetworkBlock)
    → lasts bc.store bc.chains ≡ some ls
    → All Fits ls
    → prepare_block cfg sha256 tree_size bc root_txs no_txs now ≡ some nb
    → Ranked ls nb
unfolding prepare_block
prepare_block-Ranked cfg sha256 tree_size bc root_txs no_txs now ls nb els fits h =
    Holds-some (Ranked ls) _ h (
      rw els (
        Holds-bind (Ranked ls) (get_elem? ls 0) _ λ first _.
          Holds-bind (Ranked ls) (compute_merkle_tree_root sha256 (leaves_of tree_size ls)) _
            λ root _.
              let h256 = sha256 (root ++ root_txs) in
              let chain_id = get_chain_id_from_hash cfg.chains h256 in
              Holds-bind (Ranked ls) (get_elem? ls chain_id) _ λ parent ep.
                Holds-bind (Ranked ls)
                  (compute_merkle_proof sha256 (leaves_of tree_size ls) chain_id) _
                  λ proof _.
                    new_network_block-Ranked ls parent (find_trailing 0 ls (first, 0)) chain_id
                      (string_to_blockhash h256) root root_txs proof no_txs now fits ep
                      (find_trailing-Greatest 0 ls (first, 0))))
