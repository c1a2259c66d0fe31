-- ===== src/Handler/Blocks.antt =====
-- code/process_buffer.cpp: pings, announced blocks and requests for blocks.
use ohie.Base.{
  ℕ, zero, suc, ◌+◌, ◌^◌, ◌%◌, List, [], ◌∷◌, ◌++◌, Bool, true, false, Option, none, some, ltb,
  ◌==◌, if◌then◌else◌, ◌>>=◌, get_elem?, map,
}
use ohie.Config.{Config}
use ohie.StdMap.{Entries, lookup, nat_order}
use ohie.Text.{Text}
use ohie.Text.Order.{text_order}
use ohie.Blockchain.HashTree.{find_block_by_hash}
use ohie.Blockchain.Links.{ancestors}
use ohie.Blockchain.State.{NetworkBlock, Store, Incomplete, Chain, Blockchain, depth_of}
use ohie.Blockchain.Receive.{have_full_block, add_received_block}
use ohie.Blockchain.Full.{still_waiting_for_full_block}
use ohie.Server.{add_ping}
use ohie.Requests.{
  Node, Announced, create__ask_block, create__process_block, create__have_full_block,
  create__ask_full_block, create__ping, parse__ping, parse__ask_block, parse__process_block,
  parse__got_full_block, parse__have_full_block, parse__ask_full_block,
}
use ohie.Requests.Payload.{create__full_block}
use ohie.Handler.State.{Send, World, Handled, send, meet_peer}

-- The chain's block with that hash is there and full.
unfoldable pub have_full : Blockchain → ℕ → ℕ → Option Bool
have_full bc chain_id hash = do
  c ← get_elem? bc.chains chain_id
  some (have_full_block bc.store c.chain hash)

-- The way up from a block of an incomplete chain.
unfoldable pub incomplete_way_up : List Incomplete → ℕ → List ℕ
incomplete_way_up [] hash = []
incomplete_way_up (t ∷ rest) hash = elim (find_block_by_hash t.b.index hash) [
  | none ↦ incomplete_way_up rest hash
  | some b ↦ ancestors t.b.links b
]

-- The way up from the block with that hash, in the main chain or else in an incomplete one.
unfoldable pub way_up : Chain → ℕ → List ℕ
way_up c hash = elim (find_block_by_hash c.chain.index hash) [
  | none ↦ incomplete_way_up c.inchain hash
  | some b ↦ ancestors c.chain.links b
]

-- The loop over `i`: each block that has a parent is sent, upwards, at most `n` of them.
unfoldable pub blocks_upwards : Store → ℕ → List ℕ → Option (List NetworkBlock)
blocks_upwards s zero up = some []
blocks_upwards s (suc n) [] = some []
blocks_upwards s (suc n) (b ∷ []) = some []
blocks_upwards s (suc n) (b ∷ p ∷ up) = do
  nb ← (s.cell b).nb
  rest ← blocks_upwards s n (p ∷ up)
  some (nb ∷ rest)

abbrev send_all : List Send → World → World
send_all ms w = record w { sent = w.sent ++ ms }

-- The block as it stands after a message `process_block` is read: `blank` is what its other fields
-- happen to hold.
unfoldable pub announced_block : NetworkBlock → Announced → NetworkBlock
announced_block blank a = record blank {
  chain_id = a.chain_id;
  parent = a.parent;
  hash = a.hash;
  no_txs = a.no_txs;
  depth = a.depth;
  rank = a.rank;
  next_rank = a.next_rank;
}

module _ (cfg : Config) (node : Node) (get_ip : Text → Text) (atoi : Text → ℕ) where
  unfoldable pub handle_ping : List Text → Entries Text ℕ → Bool → World → Handled
  handle_ping sp passed is_last w =
      let r = parse__ping cfg get_ip sp passed in
      elim r.1 [
        | none ↦ some (w, r.0, is_last)
        | some p ↦
            let w1 = meet_peer atoi p.sender_ip p.sender_port w in
            let (s, is_new) = add_ping w1.server p.name p.dnext (p.mode == 1) in
            let w2 = record w1 { server = s } in
            let m = create__ping node p.name ((p.dnext + 1) % 2 ^ 32) p.tsec p.mode in
            some (if is_new then send (Send.to_all_peers m) w2 else w2, r.0, false)
      ]

  unfoldable pub handle_ask_block : List Text → Entries Text ℕ → Bool → World → Handled
  handle_ask_block sp passed is_last w =
      let r = parse__ask_block cfg get_ip sp passed in
      elim r.1 [
        | none ↦ some (w, r.0, is_last)
        | some a ↦ do
          let q = a.request
          let w1 = meet_peer atoi q.sender_ip q.sender_port w
          c ← get_elem? w.blockchain.chains q.chain_id
          let n =
              if ltb a.max_number_of_blocks cfg.max_ask_blocks
              then a.max_number_of_blocks
              else cfg.max_ask_blocks
          nbs ← blocks_upwards w.blockchain.store n (way_up c q.hash)
          some (
            send_all
                (map
                  (λ nb. Send.to_one_peer q.sender_ip q.sender_port (create__process_block node nb))
                  nbs)
                w1,
            r.0,
            false,
          )
      ]

  -- The block is added; a new one is passed on, and its parent is asked for if it is not known.
  unfoldable pub receive_block : NetworkBlock → World → Option World
  receive_block nb w = do
    o ← add_received_block w.blockchain nb.chain_id nb.parent nb.hash nb
    let w1 = record w { blockchain = o.state }
    let w2 = if o.added then send (Send.to_all_peers (create__process_block node nb)) w1 else w1
    c ← get_elem? o.state.chains nb.chain_id
    chain_depth ← depth_of o.state.store c.deepest
    some (
        if o.need_parent
        then send
            (Send.to_all_peers (create__ask_block node nb.chain_id nb.parent chain_depth nb.depth))
            w2
        else w2)

  unfoldable pub handle_process_block :
      NetworkBlock → List Text → Entries Text ℕ → Bool → World → Handled
  handle_process_block blank sp passed is_last w =
      let r = parse__process_block cfg get_ip sp passed in
      elim r.1 [
        | none ↦ some (w, r.0, is_last)
        | some a ↦ do
          w1 ← receive_block (announced_block blank a) w
          some (meet_peer atoi a.sender_ip a.sender_port w1, r.0, false)
      ]

  unfoldable pub handle_got_full_block : List Text → Entries Text ℕ → Bool → World → Handled
  handle_got_full_block sp passed is_last w =
      let r = parse__got_full_block cfg get_ip sp passed in
      elim r.1 [
        | none ↦ some (w, r.0, is_last)
        | some q ↦ do
          have ← have_full w.blockchain q.chain_id q.hash
          let m = create__have_full_block node q.chain_id q.hash
          some (
            if have then send (Send.to_one_peer q.sender_ip q.sender_port m) w else w,
            r.0,
            false,
          )
      ]

  -- Only the first peer that has the block is asked for it.
  unfoldable pub handle_have_full_block : ℕ → List Text → Entries Text ℕ → Bool → World → Handled
  handle_have_full_block now sp passed is_last w =
      let r = parse__have_full_block cfg get_ip sp passed in
      elim r.1 [
        | none ↦ some (w, r.0, is_last)
        | some q ↦ do
          have ← have_full w.blockchain q.chain_id q.hash
          let (waiting, ask) =
              still_waiting_for_full_block w.blockchain.waiting_for_full_blocks q.hash now
          let w1 = record w {
            blockchain = record (w.blockchain) { waiting_for_full_blocks = waiting };
          }
          let m = create__ask_full_block node q.chain_id q.hash
          some (
            if have
                then w
                else if ask
                then send (Send.to_one_peer q.sender_ip q.sender_port m) w1
                else w1,
            r.0,
            false,
          )
      ]

  -- The data of the chain's block with that hash.
  unfoldable pub block_data : Blockchain → ℕ → ℕ → Option NetworkBlock
  block_data bc chain_id hash = do
    c ← get_elem? bc.chains chain_id
    b ← find_block_by_hash c.chain.index hash
    (bc.store.cell b).nb

  unfoldable pub handle_ask_full_block : ℕ → List Text → Entries Text ℕ → Bool → World → Handled
  handle_ask_full_block now sp passed is_last w =
      let r = parse__ask_full_block cfg get_ip sp passed in
      elim r.1 [
        | none ↦ some (w, r.0, is_last)
        | some q ↦ do
          have ← have_full w.blockchain q.chain_id q.hash
          elim have [
            | false ↦ some (w, r.0, false)
            | true ↦ do
              let text : Text = elim (lookup q.hash w.files) [ none ↦ [] | some t ↦ t ]
              m ←
                  create__full_block node q.chain_id q.hash text
                    (block_data w.blockchain q.chain_id q.hash) now
              some (send (Send.to_one_peer q.sender_ip q.sender_port m) w, r.0, false)
          ]
      ]
