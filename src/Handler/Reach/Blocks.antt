-- ===== src/Handler/Reach/Blocks.antt =====
-- code/process_buffer.cpp: the handlers of all messages but `full_block` keep to the calls of the blockchain.
use ohie.Base.{ℕ, List, Bool, Holds, Holds-bind, Holds-case, Holds-some, Holds-bool, get_elem?}
use ohie.Config.{Config}
use ohie.StdMap.{Entries}
use ohie.Text.{Text}
use ohie.Text.Order.{text_order}
use ohie.Blockchain.State.{NetworkBlock, Store, depth_of}
use ohie.Blockchain.Receive.{add_received_block}
use ohie.Blockchain.Reach.{receive, expect}
use ohie.Requests.{
  Node, parse__ping, parse__ask_block, parse__process_block, parse__got_full_block,
  parse__have_full_block, parse__ask_full_block,
}
use ohie.Requests.Payload.{parse__transactions, create__full_block}
use ohie.Transactions.Receive.{add_transactions}
use ohie.Handler.State.{World, send, meet_peer}
use ohie.Handler.Blocks.{
  have_full, way_up, blocks_upwards, announced_block, block_data, handle_ping, handle_ask_block,
  receive_block, handle_process_block, handle_got_full_block, handle_have_full_block,
  handle_ask_full_block,
}
use ohie.Handler.Gossip.{is_blocked, with_times, handle_transactions}
use ohie.Handler.Reach.{Good, GoodHandled, Good-if}

module _ (fresh : ℕ → NetworkBlock) (s : Store) (hashes : List ℕ) where
  module _ (cfg : Config) (node : Node) (get_ip : Text → Text) (atoi : Text → ℕ) (sp : List Text)
      (passed : Entries Text ℕ) (is_last : Bool) (w : World) (good : Good fresh s hashes w) where
    pub handle_ping-Good :
        GoodHandled fresh s hashes (handle_ping cfg node get_ip atoi sp passed is_last w)
    unfolding handle_ping send meet_peer
    handle_ping-Good =
        Holds-case _ (parse__ping cfg get_ip sp passed).1 _ _ (λ _. good)
          λ p _. Good-if fresh s hashes _ _ _ good good

    pub handle_ask_block-Good :
        GoodHandled fresh s hashes (handle_ask_block cfg node get_ip atoi sp passed is_last w)
    unfolding handle_ask_block meet_peer
    handle_ask_block-Good =
        Holds-case _ (parse__ask_block cfg get_ip sp passed).1 _ _ (λ _. good)
          λ a _. Holds-bind _ (get_elem? w.blockchain.chains a.request.chain_id) _ λ c _.
            Holds-bind _ (blocks_upwards w.blockchain.store _ (way_up c a.request.hash)) _
              λ nbs _. good

    pub receive_block-Good :
        (nb : NetworkBlock) → Holds (Good fresh s hashes) (receive_block cfg node get_ip atoi nb w)
    unfolding receive_block send
    receive_block-Good nb =
        Holds-bind _ (add_received_block w.blockchain nb.chain_id nb.parent nb.hash nb) _ λ o e.
          Holds-bind _ (get_elem? o.state.chains nb.chain_id) _ λ c _.
            Holds-bind _ (depth_of o.state.store c.deepest) _ λ d _.
              let r = receive nb.chain_id nb.parent nb.hash nb o good e in
              let r2 = Good-if fresh s hashes o.added _ _ r r in
              Good-if fresh s hashes o.need_parent _ _ r2 r2

    pub handle_process_block-Good :
        (blank : NetworkBlock)
        → GoodHandled fresh s hashes
            (handle_process_block cfg node get_ip atoi blank sp passed is_last w)
    unfolding handle_process_block meet_peer
    handle_process_block-Good blank =
        Holds-case _ (parse__process_block cfg get_ip sp passed).1 _ _ (λ _. good)
          λ a _.
            Holds-bind _ (receive_block cfg node get_ip atoi (announced_block blank a) w) _
              λ w1 e. Holds-some _ _ e (receive_block-Good (announced_block blank a))

    pub handle_got_full_block-Good :
        GoodHandled fresh s hashes (handle_got_full_block cfg node get_ip atoi sp passed is_last w)
    unfolding handle_got_full_block send
    handle_got_full_block-Good =
        Holds-case _ (parse__got_full_block cfg get_ip sp passed).1 _ _ (λ _. good)
          λ q _.
            Holds-bind _ (have_full w.blockchain q.chain_id q.hash) _
              λ have _. Good-if fresh s hashes have _ _ good good

    pub handle_have_full_block-Good :
        (now : ℕ)
        → GoodHandled fresh s hashes
            (handle_have_full_block cfg node get_ip atoi now sp passed is_last w)
    unfolding handle_have_full_block send
    handle_have_full_block-Good now =
        Holds-case _ (parse__have_full_block cfg get_ip sp passed).1 _ _ (λ _. good)
          λ q _. Holds-bind _ (have_full w.blockchain q.chain_id q.hash) _ λ have _.
            let r = expect q.hash now good in
            Good-if fresh s hashes have _ _ good (Good-if fresh s hashes _ _ _ r r)

    pub handle_ask_full_block-Good :
        (now : ℕ)
        → GoodHandled fresh s hashes
            (handle_ask_full_block cfg node get_ip atoi now sp passed is_last w)
    unfolding handle_ask_full_block send
    handle_ask_full_block-Good now =
        Holds-case _ (parse__ask_full_block cfg get_ip sp passed).1 _ _ (λ _. good)
          λ q _. Holds-bind _ (have_full w.blockchain q.chain_id q.hash) _ λ have _.
            Holds-bool _ have _ _
              (λ _.
                Holds-bind _
                  (create__full_block node q.chain_id q.hash _
                    (block_data cfg node get_ip atoi w.blockchain q.chain_id q.hash) now)
                  _ λ m _. good)
              (λ _. good)

    pub handle_transactions-Good :
        (clock : ℕ → ℕ)
        → GoodHandled fresh s hashes
            (handle_transactions cfg node get_ip atoi clock sp passed is_last w)
    unfolding handle_transactions send
    handle_transactions-Good clock =
        Holds-case _ (parse__transactions sp) _ _ (λ _. good)
          λ txs _.
            Holds-bool _ (is_blocked cfg w.held txs) _ _ (λ _. tt)
              λ _. Holds-bind _ (add_transactions cfg w.pool (with_times clock 0 txs)) _ λ r _.
                Holds-bind _ (get_elem? sp 1) _ λ ip _.
                  Holds-bind _ (get_elem? sp 2) _ λ p _. Good-if fresh s hashes _ _ _ good good
