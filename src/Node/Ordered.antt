-- ===== src/Node/Ordered.antt =====
-- code/node.cpp: the chains of a node, whatever its threads do.
use ohie.Base.{
  ℕ, ◌≡◌, sym, ◌∙◌, subst, List, none, some, some-inj, ap, length, Option-cases, inl, inr, Holds,
  Holds-bind, Holds-some, Holds-if, get_elem?, ◌==◌,
}
use ohie.Config.{Config}
use ohie.Text.{Text}
use ohie.Blockchain.HashTree.{find_block_by_hash}
use ohie.Blockchain.HashTree.Order.{IsOrdered}
use ohie.Blockchain.State.{NetworkBlock, Store, Chain, Blockchain}
use ohie.Blockchain.Receive.{add_block_by_parent_hash_and_chain_id}
use ohie.Blockchain.Reach.{Reachable, start, flag, count}
use ohie.Blockchain.Reach as Reach
use ohie.Blockchain.Reach.Ordered.{Reachable-IsOrdered}
use ohie.Miner.{prepare_block, mine_new_block, set_full_flag}
use ohie.Handler.State.{World, send}
use ohie.Requests.{Node}
use ohie.Transactions.State.{Pool}
use ohie.Transactions.Receive.{mempool_mtx, lock}
use ohie.Transactions.Promise.{create_transaction_block}
use ohie.Handler.Reach.Stream.{process_buffer-Reachable}
use ohie.Network.{Run}
use ohie.Network.Reach.{run_network-Reachable}
use ohie.Node.{Life, begin, read, run, connect, connected, age, create, mine, mine_block}

module _ (fresh : ℕ → NetworkBlock) (s : Store) (hashes : List ℕ) where
  mine_new_block-Reachable :
      (bc : Blockchain) (cfg : Config) (sha256 : Text → Text) (tree_size : ℕ → ℕ) (root_txs : Text)
      (no_txs now : ℕ) (nb : NetworkBlock) (c : Chain)
      → Reachable fresh s hashes bc
      → prepare_block cfg sha256 tree_size bc root_txs no_txs now ≡ some nb
      → get_elem? bc.chains nb.chain_id ≡ some c
      → find_block_by_hash c.chain.index nb.hash ≡ none
      → Holds
          (λ r. Reachable fresh s hashes r.0)
          (mine_new_block cfg sha256 tree_size bc root_txs no_txs now)
  unfolding mine_new_block
  mine_new_block-Reachable bc cfg sha256 tree_size root_txs no_txs now nb c good e f g =
      Holds-bind _ (prepare_block cfg sha256 tree_size bc root_txs no_txs now) _ λ nb' e'.
        let same : nb ≡ nb' = some-inj (sym e ∙ e') in
        Holds-if _ (no_txs == 0) _ _ good (
          Holds-bind _
            (add_block_by_parent_hash_and_chain_id bc nb'.parent nb'.hash nb'.chain_id nb') _
            λ b1 h. Holds-bind _ (set_full_flag b1 nb'.chain_id nb'.hash) _ λ b2 k. count (
              flag nb'.chain_id nb'.hash
                (Reach.mine c nb'.chain_id nb'.parent nb'.hash nb' good
                  (subst (λ (n : NetworkBlock). get_elem? bc.chains n.chain_id ≡ some c) same f)
                  (subst (λ (n : NetworkBlock). find_block_by_hash c.chain.index n.hash ≡ none) same
                    g)
                  h)
                k))

  mine_block-Reachable :
      (cfg : Config) (sha256 : Text → Text) (tree_size : ℕ → ℕ) (node : Node) (root_txs : Text)
      (now : ℕ) (turns : List (Pool → Pool)) (w : World) (txs : List Text) (p : Pool)
      (nb : NetworkBlock) (c : Chain)
      → Reachable fresh s hashes w.blockchain
      → create_transaction_block cfg turns w.pool ≡ some (txs, p)
      → prepare_block cfg sha256 tree_size w.blockchain root_txs (length txs) now ≡ some nb
      → get_elem? w.blockchain.chains nb.chain_id ≡ some c
      → find_block_by_hash c.chain.index nb.hash ≡ none
      → Holds
          (λ w'. Reachable fresh s hashes w'.blockchain)
          (mine_block cfg sha256 tree_size node root_txs now turns w)
  unfolding mine_block send
  mine_block-Reachable cfg sha256 tree_size node root_txs now turns w txs p nb c good b e f g =
      Holds-bind _ (lock mempool_mtx w.held) _ λ free _.
        Holds-bind _ (create_transaction_block cfg turns w.pool) _ λ d k.
          let same : txs ≡ d.0 = ap (λ (q : List Text × Pool). q.0) (some-inj (sym b ∙ k)) in
          Holds-bind _ (mine_new_block cfg sha256 tree_size w.blockchain root_txs (length d.0) now)
            _
            λ r h.
              let made = Holds-some _ _ h (
                mine_new_block-Reachable w.blockchain cfg sha256 tree_size root_txs (length d.0) now
                  nb c good
                  (subst
                    (λ (u : List Text).
                      prepare_block cfg sha256 tree_size w.blockchain root_txs (length u) now
                      ≡ some nb)
                    same e)
                  f g) in
              elim (Option-cases r.1) [ inl q ↦ rw q made | inr (n, q) ↦ rw q made ]

  Life-Reachable : (r : Run) → Life fresh s hashes r → Reachable fresh s hashes r.0.blockchain
  unfolding send
  Life-Reachable r (begin w t e) = subst (Reachable fresh s hashes) (sym e) start
  Life-Reachable r (read {w = w} {w' = w'} {t = t} e m rest l h) =
      process_buffer-Reachable fresh s hashes e m w w' rest h (Life-Reachable (w, t) l)
  Life-Reachable r (run {r = q} cfg periods node now random l h) =
      run_network-Reachable fresh s hashes cfg periods node now random q r h (Life-Reachable q l)
  Life-Reachable r (connect {w = w} {t = t} is_address period now last l) = Life-Reachable (w, t) l
  Life-Reachable r (connected {w = w} {t = t} i error server posted l h) = Life-Reachable (w, t) l
  Life-Reachable r (age {w = w} {t = t} cfg clock p l h) = Life-Reachable (w, t) l
  Life-Reachable r (create {w = w} {t = t} cfg node clients draws seqs seqs' p m l h) =
      Life-Reachable (w, t) l
  Life-Reachable r
        (mine {w = w} {w' = w'} {t = t} cfg sha256 tree_size node root_txs now turns txs p nb c l b
          e f g h) =
      Holds-some _ _ h (
        mine_block-Reachable cfg sha256 tree_size node root_txs now turns w txs p nb c
          (Life-Reachable (w, t) l) b e f g)

  -- From a node whose blockchain is as the constructor makes it, after any sequence of buffers
  -- read from peers, runs of `run_network`, attempts to connect to peers and their ends, rounds
  -- of the aging monitor and of `transaction_creator`, and mined blocks with hashes that are new
  -- to their chains, each without a fault: the search tree of each chain is in order, each hash
  -- in it once, and the first block of the chain is found under the hash that the constructor was
  -- given.
  pub Life-IsOrdered :
      (r : Run) (i h : ℕ)
      → Life fresh s hashes r
      → get_elem? hashes i ≡ some h
      → (c : Chain) × (get_elem? r.0.blockchain.chains i ≡ some c)
        × (a : ℕ) × IsOrdered c.chain.index
        × (find_block_by_hash c.chain.index h ≡ some a)
  Life-IsOrdered r i h l e =
      Reachable-IsOrdered fresh s hashes r.0.blockchain i h (Life-Reachable r l) e
