-- ===== src/Handler/Reach.antt =====
-- code/process_buffer.cpp: whatever a connection brings, the blockchain goes through its own calls only.
pub mod Blocks
pub mod Full
pub mod Stream
use ohie.Base.{
  ℕ, ◌≡◌, List, [], ◌∷◌, Bool, true, false, some, Holds, Holds-bind, Holds-case, Holds-some,
  Holds-bool, Holds-if, if◌then◌else◌, get_elem?, ◌==◌, ◌+◌, ◌-◌, ◌^◌, ◌%◌,
}
use ohie.Config.{Config}
use ohie.StdMap.{Entries}
use ohie.Text.{Text, codes, text_eq}
use ohie.Text.Split.{split}
use ohie.Text.Order.{text_order}
use ohie.Blockchain.HashTree.{find_block_by_hash}
use ohie.Blockchain.State.{NetworkBlock, Store, depth_of}
use ohie.Blockchain.Receive.{add_received_block}
use ohie.Blockchain.Full.{set_block_full}
use ohie.Blockchain.Reach.{Reachable, receive, finish, fill, expect}
use ohie.Requests.{
  Node, parse__ping, parse__ask_block, parse__process_block, parse__got_full_block,
  parse__have_full_block, parse__ask_full_block,
}
use ohie.Requests.Payload.{FullBlock, parse__full_block, parse__transactions, create__full_block}
use ohie.Miner.{verify_full_block}
use ohie.Transactions.Receive.{add_transactions}
use ohie.Handler.State.{World, Handled, send, meet_peer}
use ohie.Handler.Blocks.{
  have_full, way_up, blocks_upwards, announced_block, block_data, handle_ping, handle_ask_block,
  receive_block, handle_process_block, handle_got_full_block, handle_have_full_block,
  handle_ask_full_block,
}
use ohie.Handler.Gossip.{is_blocked, with_times, handle_transactions}
use ohie.Handler.Full.{
  lines_of, verify_lines, completed, store_data, make_full, check_data, check_full_block,
  receive_full_block, handle_full_block,
}
use ohie.Handler.Stream.{
  Environment, pieces, complete, is_none, process_pieces, process_stream, dispatch, handle_message,
  process_buffer,
}

module _ (fresh : ℕ → NetworkBlock) (s : Store) (hashes : List ℕ) where
  abbrev pub Good : World → Type 0
  Good w = Reachable fresh s hashes w.blockchain

  -- What a handler returns.
  abbrev pub GoodHandled : Handled → Type 0
  GoodHandled h = Holds (λ r. Good r.0) h

  pub Good-if : (b : Bool) (v w : World) → Good v → Good w → Good (if b then v else w)
  Good-if true v w h k = h
  Good-if false v w h k = k
