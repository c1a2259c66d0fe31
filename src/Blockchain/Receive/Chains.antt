-- ===== src/Blockchain/Receive/Chains.antt =====
-- code/Blockchain.cpp: what happens to the search trees of the main chains under
-- `add_received_block`. A relation of two trees that holds of a tree and itself, of an insertion of a new
-- hash, and of a merge holds of every main chain before and after.
use ohie.Base.{
  ℕ, ◌≡◌, refl, none, some, arith, Holds, Holds-bind, Holds-case, Holds-if, sym, subst, List,
  ℕ_discrete, Holds-some, Option, get_elem?, set, lt-of_get_elem?, get_elem?-set_self, ◌∙◌,
  get_elem?-set_ne, Option-cases, some-inj, inl, inr,
}
use ohie.Blockchain.HashTree.{
  HashTree, find_block_by_hash, insert_block_only_by_hash, insert_subtree_by_hash,
}
use ohie.Blockchain.Links.{find_max_depth}
use ohie.Blockchain.State.{NetworkBlock, Store, Tree, Chain, Blockchain, set_nb, depth_of}
use ohie.Blockchain.Incomplete.{
  add_block_by_parent_hash, remove_one_chain, is_incomplete_hash, is_in_incomplete,
  add_block_to_incomplete,
}
use ohie.Blockchain.Receive.{
  Received, add_received_block, add_full_block_info, attach_incomplete, extend_chain,
  extend_incomplete_chain, put_chain, received, add_block_by_parent_hash_and_chain_id,
}

add_full_block_info_chain :
    (s : Store) (c : Chain) (hash : ℕ) (nb : NetworkBlock)
    → Holds (λ i. i.1.chain ≡ c.chain) (add_full_block_info s c hash nb)
unfolding add_full_block_info
add_full_block_info_chain s c hash nb =
    Holds-case _ (find_block_by_hash c.chain.index hash) _ _ (λ _. refl)
      λ bz _. Holds-bind _ (depth_of (set_nb s bz nb) c.deepest) _ λ old _.
        Holds-bind _ (find_max_depth (depth_of (set_nb s bz nb)) c.chain.links bz) _
          λ last _. Holds-bind _ (depth_of (set_nb s bz nb) last) _ λ k _. refl

extend_incomplete_chain_chain :
    (s : Store) (c : Chain) (parent hash : ℕ) (nb : NetworkBlock)
    → Holds (λ r. r.1.chain ≡ c.chain) (extend_incomplete_chain s c parent hash nb)
unfolding extend_incomplete_chain
extend_incomplete_chain_chain s c parent hash nb =
    Holds-if _ (is_in_incomplete s c.inchain parent hash) _ _ refl
      (Holds-bind _ (add_block_to_incomplete s c.inchain parent hash) _ λ l _. refl)

-- Every chain is there afterwards, its search tree related to what it was.
abbrev pub AllChains {ℓ} : (HashTree → HashTree → Type ℓ) → List Chain → List Chain → Type ℓ
AllChains R cs cs' =
    (i : ℕ) (c : Chain)
    → get_elem? cs i ≡ some c
    → (c' : Chain) × (get_elem? cs' i ≡ some c') × R c.chain.index c'.chain.index

module _ {ℓ} (R : HashTree → HashTree → Type ℓ) (same : (t : HashTree) → R t t)
    (insert : (t : HashTree) (h a : ℕ)
      → find_block_by_hash t h ≡ none
      → R t (insert_block_only_by_hash t h a))
    (merge : (t s : HashTree) → R t (insert_subtree_by_hash t s)) where
  attach_incomplete-index :
      (s : Store) (c : Chain) (chain_id p bi : ℕ) (r : Received)
      → Holds (λ a. R c.chain.index a.0.chain.index) (attach_incomplete s c chain_id p bi r)
  unfolding attach_incomplete
  attach_incomplete-index s c chain_id p bi r =
      Holds-bind _ (get_elem? c.inchain bi) _
        λ e _. Holds-bind _ (remove_one_chain c.inchain bi) _ λ l _. merge c.chain.index e.b.index

  add_block_by_parent_hash-index :
      (s : Store) (t : Tree) (parent hash : ℕ)
      → find_block_by_hash t.index hash ≡ none
      → R t.index (add_block_by_parent_hash s t parent hash).1.index
  unfolding add_block_by_parent_hash
  add_block_by_parent_hash-index s t parent hash e =
      elim (Option-cases (find_block_by_hash t.index parent)) [
        | inl q ↦ rw (add_block_by_parent_hash, q) (same t.index)
        | inr (p, q) ↦ rw (add_block_by_parent_hash, q) (insert t.index hash s.next e)
      ]

  -- The data of a block does not touch the tree.
  index-of_chain :
      (t t' : Tree) {o : Option (Store × Chain)} {i : Store × Chain}
      → Holds (λ (j : Store × Chain). j.1.chain ≡ t') o
      → o ≡ some i
      → R t.index t'.index
      → R t.index i.1.chain.index
  index-of_chain t t' {o = o} {i = i} h e k =
      let q : i.1.chain ≡ t' = Holds-some (λ (j : Store × Chain). j.1.chain ≡ t') o e h in
      subst (λ (u : Tree). R t.index u.index) (sym q) k

  extend_chain-index :
      (s : Store) (c : Chain) (chain_id p parent hash : ℕ) (nb : NetworkBlock) (r : Received)
      → find_block_by_hash c.chain.index hash ≡ none
      → Holds (λ e. R c.chain.index e.1.chain.index) (extend_chain s c chain_id p parent hash nb r)
  unfolding extend_chain
  extend_chain-index s c chain_id p parent hash nb r is_new =
      Holds-case _ (is_incomplete_hash s c.inchain hash) _ _
        (λ _.
          let b = add_block_by_parent_hash s c.chain parent hash in
          Holds-bind _ (add_full_block_info b.2 (record c { chain = b.1 }) hash nb) _ λ i e.
            index-of_chain c.chain b.1
              (add_full_block_info_chain b.2 (record c { chain = b.1 }) hash nb) e
              (add_block_by_parent_hash-index s c.chain parent hash is_new))
        (λ bi _. Holds-bind _ (attach_incomplete s c chain_id p bi r) _ λ a e.
          Holds-bind _ (add_full_block_info s a.0 hash nb) _ λ i f.
            index-of_chain c.chain a.0.chain (add_full_block_info_chain s a.0 hash nb) f
              (Holds-some _ _ e (attach_incomplete-index s c chain_id p bi r)))

  set-AllChains :
      (cs : List Chain) (k : ℕ) (c c' : Chain)
      → get_elem? cs k ≡ some c
      → R c.chain.index c'.chain.index
      → AllChains R cs (set cs k c')
  set-AllChains cs k c c' e h i d f = elim (ℕ_discrete k i) [
    | yes at ↦ (
      c',
      rw (← at) (get_elem?-set_self cs k c' (lt-of_get_elem? cs k e)),
      let q : c ≡ d = ground arith in subst (λ (u : Chain). R u.chain.index c'.chain.index) q h,
    )
    | no other ↦ (d, get_elem?-set_ne cs c' other ∙ f, same d.chain.index)
  ]

  pub add_received_block-AllChains :
      (bc : Blockchain) (chain_id parent hash : ℕ) (nb : NetworkBlock)
      → Holds
          (λ o. AllChains R bc.chains o.state.chains)
          (add_received_block bc chain_id parent hash nb)
  unfolding add_received_block put_chain
  add_received_block-AllChains bc chain_id parent hash nb =
      Holds-bind _ (get_elem? bc.chains chain_id) _ λ c e.
        Holds-case _ (find_block_by_hash c.chain.index hash) _ _
          (λ is_new.
            Holds-case _ (find_block_by_hash c.chain.index parent) _ _
              (λ _. Holds-bind _ (extend_incomplete_chain bc.store c parent hash nb) _ λ r f.
                set-AllChains bc.chains chain_id c r.1 e (
                  let q =
                    Holds-some _ _ f (extend_incomplete_chain_chain bc.store c parent hash nb) in
                  subst (λ (u : Tree). R c.chain.index u.index) (sym q) (same c.chain.index)))
              (λ p _.
                Holds-bind _ (extend_chain bc.store c chain_id p parent hash nb (received bc)) _
                  λ r f. set-AllChains bc.chains chain_id c r.1 e (
                    Holds-some _ _ f (
                      extend_chain-index bc.store c chain_id p parent hash nb (received bc)
                        is_new))))
          (λ b _ i d g. (d, g, same d.chain.index))

  -- The miner's block, whose hash is new.
  pub add_block_by_parent_hash_and_chain_id-AllChains :
      (bc bc' : Blockchain) (c : Chain) (chain_id parent hash : ℕ) (nb : NetworkBlock)
      → get_elem? bc.chains chain_id ≡ some c
      → find_block_by_hash c.chain.index hash ≡ none
      → add_block_by_parent_hash_and_chain_id bc parent hash chain_id nb ≡ some bc'
      → AllChains R bc.chains bc'.chains
  unfolding add_block_by_parent_hash_and_chain_id put_chain
  add_block_by_parent_hash_and_chain_id-AllChains bc bc' c chain_id parent hash nb e is_new h =
      let k = add_block_by_parent_hash-index bc.store c.chain parent hash is_new in
      let b = add_block_by_parent_hash bc.store c.chain parent hash in
      elim (Option-cases (find_block_by_hash b.1.index hash)) [
        | inl q ↦
            subst (λ (u : Blockchain). AllChains R bc.chains u.chains) (some-inj (rw (e, q) at h))
              (set-AllChains bc.chains chain_id c (record c { chain = b.1 }) e k)
        | inr (bz, q) ↦
            subst (λ (u : Blockchain). AllChains R bc.chains u.chains) (some-inj (rw (e, q) at h))
              (set-AllChains bc.chains chain_id c (record c { chain = b.1; deepest = bz }) e k)
      ]
