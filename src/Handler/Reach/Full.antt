-- ===== src/Handler/Reach/Full.antt =====
-- code/process_buffer.cpp: the handler of `full_block` keeps to the calls of the blockchain.
use ohie.Base.{
  ℕ, List, Bool, Holds, Holds-bind, Holds-case, Holds-some, Holds-bool, get_elem?, ◌==◌, ◌+◌, ◌-◌,
  ◌^◌, ◌%◌,
}
use ohie.Config.{Config}
use ohie.StdMap.{Entries}
use ohie.Text.{Text}
use ohie.Text.Order.{text_order}
use ohie.Blockchain.HashTree.{find_block_by_hash}
use ohie.Blockchain.State.{NetworkBlock, Store}
use ohie.Blockchain.Full.{set_block_full}
use ohie.Blockchain.Reach.{finish, fill}
use ohie.Requests.{Node}
use ohie.Requests.Payload.{FullBlock, parse__full_block}
use ohie.Miner.{verify_full_block}
use ohie.Handler.State.{World, send}
use ohie.Handler.Blocks.{have_full}
use ohie.Handler.Full.{
  lines_of, verify_lines, completed, store_data, make_full, check_data, check_full_block,
  receive_full_block, handle_full_block,
}
use ohie.Handler.Reach.{Good, GoodHandled}

module _ (fresh : ℕ → NetworkBlock) (s : Store) (hashes : List ℕ) where
  module _ (cfg : Config) (node : Node) (sha256 : Text → Text) (now : ℕ) where
    pub make_full-Good :
        (f : FullBlock) (tot : ℕ) (w : World)
        → Good fresh s hashes w
        → Holds (Good fresh s hashes) (make_full cfg node sha256 now f tot w)
    unfolding make_full
    make_full-Good f tot w good =
        Holds-bind _ (set_block_full w.blockchain f.request.chain_id f.request.hash now) _
          λ bc e. finish f.request.chain_id f.request.hash now good e

    pub check_data-Good :
        (f : FullBlock) (tot : ℕ) (n : NetworkBlock) (w : World)
        → Good fresh s hashes w
        → Holds (Good fresh s hashes) (check_data cfg node sha256 now f tot n w)
    unfolding check_data send
    check_data-Good f tot n w good = Holds-bind _ (verify_full_block cfg sha256 n) _ λ ok _.
        Holds-bool _ ok _ _
          (λ _. Holds-bind _ (get_elem? w.blockchain.chains n.trailing_id) _ λ c _.
            Holds-case _ (find_block_by_hash c.chain.index n.trailing) _ _ (λ _. good)
              λ t _. make_full-Good f tot w good)
          (λ _. good)

    pub check_full_block-Good :
        (f : FullBlock) (bz : ℕ) (n : NetworkBlock) (last_rank : ℕ) (w : World)
        → Good fresh s hashes w
        → Holds
            (λ r. Good fresh s hashes r.0)
            (check_full_block cfg node sha256 now f bz n last_rank w)
    unfolding check_full_block store_data
    check_full_block-Good f bz n last_rank w good =
        Holds-bind _ (verify_lines cfg n.rank last_rank (lines_of f.txs) w.pool w.held 0) _ λ k _.
          let w1 = record w { pool = k.pool; held = k.held } in
          Holds-bool _ (k.tot_transactions == n.no_txs) _ _
            (λ _.
              Holds-bool _ k.all_good _ _
                (λ _.
                  Holds-bind _
                    (check_data cfg node sha256 now f k.tot_transactions (completed n f)
                      (store_data bz (completed n f) w1))
                    _
                    λ w2 e. Holds-some _ _ e (
                      check_data-Good f k.tot_transactions (completed n f) _
                        (fill bz (completed n f) good)))
                (λ _. good))
            (λ _. good)

    pub receive_full_block-Good :
        (f : FullBlock) (w : World)
        → Good fresh s hashes w
        → Holds (λ r. Good fresh s hashes r.0) (receive_full_block cfg node sha256 now f w)
    unfolding receive_full_block
    receive_full_block-Good f w good =
        Holds-bind _ (have_full w.blockchain f.request.chain_id f.request.hash) _ λ have _.
          Holds-bool _ have _ _ (λ _. good)
            (λ _. Holds-bind _ (get_elem? w.blockchain.chains f.request.chain_id) _ λ c _.
              Holds-case _ (find_block_by_hash c.chain.index f.request.hash) _ _ (λ _. good)
                λ bz _.
                  Holds-case _ (w.blockchain.store.cell bz).nb _ _ (λ _. good)
                    λ n _. Holds-bind _ (w.blockchain.store.cell c.deepest).nb _ λ last _.
                      check_full_block-Good f bz n ((last.next_rank + (2 ^ 32 - 1)) % 2 ^ 32) w
                        good)

    pub handle_full_block-Good :
        (get_ip : Text → Text) (mpl : ℕ) (sp : List Text) (passed : Entries Text ℕ) (is_last : Bool)
        (w : World)
        → Good fresh s hashes w
        → GoodHandled fresh s hashes
            (handle_full_block cfg node sha256 now get_ip mpl sp passed is_last w)
    unfolding handle_full_block
    handle_full_block-Good get_ip mpl sp passed is_last w good =
        Holds-bind _ (parse__full_block cfg get_ip mpl sp passed) _ λ r _.
          Holds-case _ r.1 _ _ (λ _. good)
            λ f _.
              Holds-bind _ (receive_full_block cfg node sha256 now f w) _
                λ x e. Holds-some _ _ e (receive_full_block-Good f w good)
