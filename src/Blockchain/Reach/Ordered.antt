-- ===== src/Blockchain/Reach/Ordered.antt =====
-- code/Blockchain.cpp: the search trees of the chains in every state that is reached.
use ohie.Base.{
  map, ℕ, zero, suc, ◌≡◌, refl, sym, none, some, arith, Holds, Holds-bind, Holds-some, subst, List,
  [], ◌∷◌, get_elem?, Option-cases, inl, inr, some-inj,
}
use ohie.Config.{Config}
use ohie.Blockchain.HashTree.{
  HashTree, find_block_by_hash, insert_block_only_by_hash, insert_subtree_by_hash,
}
use ohie.Blockchain.HashTree.Order.{
  IsOrdered, insert_block_only-IsOrdered, insert_subtree-IsOrdered,
}
use ohie.Blockchain.State.{NetworkBlock, Store, Chain, Blockchain, bootstrap_chain}
use ohie.Blockchain.Receive.Chains.{
  AllChains, add_received_block-AllChains, add_block_by_parent_hash_and_chain_id-AllChains,
}
use ohie.Blockchain.Receive.Keeps.{Keeps, insert_block_only-Keeps, insert_subtree-Keeps}
use ohie.Blockchain.Full.{
  add_mined_block, set_block_full, mark_full, scan_non_full, get_non_full_blocks,
}
use ohie.Miner.{set_full_flag}
use ohie.Blockchain.Commit.{update_blocks_commited_time}
use ohie.Blockchain.Start.{first_chains, new_blockchain}
use ohie.Blockchain.Reach.{
  Reachable, start, receive, mine, finish, fill, expect, forget, flag, count, ask_parents, ask,
  commit, asked,
}

-- What no call undoes.
abbrev pub Grows : HashTree → HashTree → Type 0
Grows t t' = Keeps t t' × (IsOrdered t → IsOrdered t')

Grows-refl : (t : HashTree) → Grows t t
Grows-refl t = (λ q a h. h, λ h. h)

insert_block_only-Grows :
    (t : HashTree) (h a : ℕ)
    → find_block_by_hash t h ≡ none
    → Grows t (insert_block_only_by_hash t h a)
insert_block_only-Grows t h a e =
    (insert_block_only-Keeps t h a e, insert_block_only-IsOrdered t h a e)

insert_subtree-Grows : (t u : HashTree) → Grows t (insert_subtree_by_hash t u)
insert_subtree-Grows t u = (insert_subtree-Keeps t u, insert_subtree-IsOrdered t u)

mark_full-chains : (bc : Blockchain) (bz now : ℕ) → (mark_full bc bz now).chains ≡ bc.chains
unfolding mark_full
mark_full-chains bc bz now = ground arith

set_block_full-chains :
    (bc : Blockchain) (chain_id hash now : ℕ)
    → Holds (λ bc'. bc'.chains ≡ bc.chains) (set_block_full bc chain_id hash now)
unfolding set_block_full
set_block_full-chains bc chain_id hash now = Holds-bind _ (get_elem? bc.chains chain_id) _ λ c e.
    elim (Option-cases (find_block_by_hash c.chain.index hash)) [
      | inl q ↦ rw q refl
      | inr (bz, q) ↦ rw q (mark_full-chains _ bz now)
    ]

set_full_flag-chains :
    (bc : Blockchain) (chain_id hash : ℕ)
    → Holds (λ bc'. bc'.chains ≡ bc.chains) (set_full_flag bc chain_id hash)
unfolding set_full_flag
set_full_flag-chains bc chain_id hash =
    Holds-bind _ (get_elem? bc.chains chain_id) _ λ c e. ground arith

get_non_full_blocks-chains :
    (cfg : Config) (bc : Blockchain) (now : ℕ)
    → Holds (λ r. r.0.chains ≡ bc.chains) (get_non_full_blocks cfg bc now)
unfolding get_non_full_blocks
get_non_full_blocks-chains cfg bc now =
    Holds-bind _ (scan_non_full cfg bc.store bc.chains now bc.received_non_full_blocks []) _
      λ r e. refl

update_blocks_commited_time-chains :
    (t_discard now : ℕ) (bc : Blockchain)
    → (update_blocks_commited_time t_discard now bc).0.chains ≡ bc.chains
unfolding update_blocks_commited_time
update_blocks_commited_time-chains t_discard now bc = ground arith

map-asked-AllChains :
    (cfg : Config) (s : Store) (now : ℕ) (cs : List Chain)
    → AllChains Grows cs (map (asked cfg s now) cs)
map-asked-AllChains cfg s now [] i c e = cc
map-asked-AllChains cfg s now (d ∷ cs) zero c e =
    let same : d ≡ c = some-inj e in
    (
      asked cfg s now d,
      refl,
      subst (λ (u : Chain). Grows u.chain.index d.chain.index) same (Grows-refl d.chain.index),
    )
map-asked-AllChains cfg s now (d ∷ cs) (suc i) c e = map-asked-AllChains cfg s now cs i c e

-- The chain of one hash: ordered, and the block of that hash is its root.
abbrev Rooted : List Chain → ℕ → ℕ → Type 0
Rooted cs i h =
    (c : Chain) × (get_elem? cs i ≡ some c)
    × (a : ℕ) × IsOrdered c.chain.index
    × (find_block_by_hash c.chain.index h ≡ some a)

first_chains-Rooted :
    (fresh : ℕ → NetworkBlock) (hs : List ℕ) (s : Store) (i h : ℕ)
    → get_elem? hs i ≡ some h
    → Rooted (first_chains fresh s hs).0 i h
unfolding first_chains bootstrap_chain find_block_by_hash
first_chains-Rooted fresh [] s i h e = cc
first_chains-Rooted fresh (x ∷ hs) s zero h e =
    let same : x ≡ h = some-inj e in (_, refl, s.next, (tt, tt, tt, tt), ground (arith, same))
first_chains-Rooted fresh (x ∷ hs) s (suc i) h e = first_chains-Rooted fresh hs _ i h e

Rooted-chains : (cs cs' : List Chain) (i h : ℕ) → cs' ≡ cs → Rooted cs i h → Rooted cs' i h
Rooted-chains cs cs' i h e r = subst (λ u. Rooted u i h) (sym e) r

AllChains-Rooted :
    (cs cs' : List Chain) (i h : ℕ) → AllChains Grows cs cs' → Rooted cs i h → Rooted cs' i h
AllChains-Rooted cs cs' i h all (c, e, a, o, f) =
    let (c', e', keep) = all i c e in (c', e', a, keep.1 o, keep.0 h a f)

-- From the constructor on, after any sequence of received blocks, mined blocks with hashes that
-- are new to their chains, full blocks, requests for full blocks and confirmations: the search
-- tree of each chain is in order, each hash in it once, and the first block of the chain is found
-- under the hash that the constructor was given.
pub Reachable-IsOrdered :
    (fresh : ℕ → NetworkBlock) (s : Store) (hashes : List ℕ) (bc : Blockchain) (i h : ℕ)
    → Reachable fresh s hashes bc
    → get_elem? hashes i ≡ some h
    → (c : Chain) × (get_elem? bc.chains i ≡ some c)
      × (a : ℕ) × IsOrdered c.chain.index
      × (find_block_by_hash c.chain.index h ≡ some a)
unfolding new_blockchain add_mined_block
Reachable-IsOrdered fresh s hashes bc i h start e = first_chains-Rooted fresh hashes s i h e
Reachable-IsOrdered fresh s hashes bc i h (receive {bc = b} chain_id parent hash nb o r f) e =
    AllChains-Rooted b.chains o.state.chains i h
      (Holds-some _ _ f (
        add_received_block-AllChains Grows Grows-refl insert_block_only-Grows insert_subtree-Grows b
          chain_id parent hash nb))
      (Reachable-IsOrdered fresh s hashes b i h r e)
Reachable-IsOrdered fresh s hashes bc i h (mine {bc = b} c chain_id parent hash nb r f new g) e =
    AllChains-Rooted b.chains bc.chains i h
      (add_block_by_parent_hash_and_chain_id-AllChains Grows Grows-refl insert_block_only-Grows
        insert_subtree-Grows b bc c chain_id parent hash nb f new g)
      (Reachable-IsOrdered fresh s hashes b i h r e)
Reachable-IsOrdered fresh s hashes bc i h (finish {bc = b} chain_id hash now r f) e =
    Rooted-chains b.chains bc.chains i h
      (Holds-some _ _ f (set_block_full-chains b chain_id hash now))
      (Reachable-IsOrdered fresh s hashes b i h r e)
Reachable-IsOrdered fresh s hashes bc i h (fill {bc = b} bz nb r) e =
    Reachable-IsOrdered fresh s hashes b i h r e
Reachable-IsOrdered fresh s hashes bc i h (expect {bc = b} hash now r) e =
    Reachable-IsOrdered fresh s hashes b i h r e
Reachable-IsOrdered fresh s hashes bc i h (forget {bc = b} cfg now r) e =
    Reachable-IsOrdered fresh s hashes b i h r e
Reachable-IsOrdered fresh s hashes bc i h (flag {bc = b} chain_id hash r f) e =
    Rooted-chains b.chains bc.chains i h (Holds-some _ _ f (set_full_flag-chains b chain_id hash))
      (Reachable-IsOrdered fresh s hashes b i h r e)
Reachable-IsOrdered fresh s hashes bc i h (count {bc = b} r) e =
    Reachable-IsOrdered fresh s hashes b i h r e
Reachable-IsOrdered fresh s hashes bc i h (ask_parents {bc = b} cfg now r) e =
    AllChains-Rooted b.chains bc.chains i h (map-asked-AllChains cfg b.store now b.chains)
      (Reachable-IsOrdered fresh s hashes b i h r e)
Reachable-IsOrdered fresh s hashes bc i h (ask {bc = b} cfg now nfb r f) e =
    Rooted-chains b.chains bc.chains i h (Holds-some _ _ f (get_non_full_blocks-chains cfg b now))
      (Reachable-IsOrdered fresh s hashes b i h r e)
Reachable-IsOrdered fresh s hashes bc i h (commit {bc = b} t_discard now r) e =
    Rooted-chains b.chains bc.chains i h (update_blocks_commited_time-chains t_discard now b)
      (Reachable-IsOrdered fresh s hashes b i h r e)
