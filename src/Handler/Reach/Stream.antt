-- ===== src/Handler/Reach/Stream.antt =====
-- code/process_buffer.cpp: a buffer of any bytes keeps to the calls of the blockchain.
use ohie.Base.{
  ℕ, ◌≡◌, List, [], ◌∷◌, Bool, some, Holds, Holds-bind, Holds-case, Holds-some, Holds-bool,
  Holds-if, ◌==◌,
}
use ohie.StdMap.{Entries}
use ohie.Text.{Text, codes, text_eq}
use ohie.Text.Split.{split}
use ohie.Text.Order.{text_order}
use ohie.Blockchain.State.{NetworkBlock, Store}
use ohie.Blockchain.Reach.{Reachable}
use ohie.Handler.State.{World}
use ohie.Handler.Stream.{
  Environment, pieces, complete, is_none, process_pieces, process_stream, dispatch, handle_message,
  process_buffer,
}
use ohie.Handler.Reach.{Good, GoodHandled}
use ohie.Handler.Reach.Blocks.{
  handle_ping-Good, handle_ask_block-Good, handle_process_block-Good, handle_got_full_block-Good,
  handle_have_full_block-Good, handle_ask_full_block-Good, handle_transactions-Good,
}
use ohie.Handler.Reach.Full.{handle_full_block-Good}

module _ (fresh : ℕ → NetworkBlock) (s : Store) (hashes : List ℕ) where
  dispatch-Good :
      (e : Environment) (sp : List Text) (passed : Entries Text ℕ) (is_last : Bool) (w : World)
      → Good fresh s hashes w
      → GoodHandled fresh s hashes (dispatch e sp passed is_last w)
  unfolding dispatch
  dispatch-Good e [] passed is_last w good = good
  dispatch-Good e (name ∷ fields) passed is_last w good =
      let sp = name ∷ fields in
      Holds-if _ (text_eq name (codes "#ping")) _ _
        (handle_ping-Good fresh s hashes e.cfg e.node e.get_ip e.atoi sp passed is_last w good)
        (Holds-if _ (text_eq name (codes "#ask_block")) _ _
          (handle_ask_block-Good fresh s hashes e.cfg e.node e.get_ip e.atoi sp passed is_last w
            good)
          (Holds-if _ (text_eq name (codes "#process_block")) _ _
            (handle_process_block-Good fresh s hashes e.cfg e.node e.get_ip e.atoi sp passed is_last
              w good e.blank)
            (Holds-if _ (text_eq name (codes "#got_full_block")) _ _
              (handle_got_full_block-Good fresh s hashes e.cfg e.node e.get_ip e.atoi sp passed
                is_last w good)
              (Holds-if _ (text_eq name (codes "#have_full_block")) _ _
                (handle_have_full_block-Good fresh s hashes e.cfg e.node e.get_ip e.atoi sp passed
                  is_last w good e.now)
                (Holds-if _ (text_eq name (codes "#ask_full_block")) _ _
                  (handle_ask_full_block-Good fresh s hashes e.cfg e.node e.get_ip e.atoi sp passed
                    is_last w good e.now)
                  (Holds-if _ (text_eq name (codes "#full_block")) _ _
                    (handle_full_block-Good fresh s hashes e.cfg e.node e.sha256 e.now e.get_ip
                      e.mpl sp passed is_last w good)
                    (Holds-if _ (text_eq name (codes "#transactions")) _ _
                      (handle_transactions-Good fresh s hashes e.cfg e.node e.get_ip e.atoi sp
                        passed is_last w good e.clock)
                      good)))))))

  handle_message-Good :
      (e : Environment) (m : Text) (is_last : Bool) (w : World) (passed : Entries Text ℕ)
      → Good fresh s hashes w
      → Holds (λ r. Good fresh s hashes r.0.0) (handle_message e m is_last (w, passed))
  unfolding handle_message
  handle_message-Good e m is_last w passed good =
      Holds-bind _ (dispatch e (split m b',') passed is_last w) _
        λ r k. Holds-some _ _ k (dispatch-Good e (split m b',') passed is_last w good)

  process_pieces-Good :
      (e : Environment) (ps : List Text) (w : World) (passed : Entries Text ℕ)
      → Good fresh s hashes w
      → Holds (λ r. Good fresh s hashes r.0.0) (process_pieces (handle_message e) ps (w, passed))
  unfolding process_pieces
  process_pieces-Good e [] w passed good = good
  process_pieces-Good e (p ∷ ps) w passed good =
      Holds-case _ (complete p) _ _ (λ _. good)
        λ m _. Holds-bind _ (handle_message e m (is_none ps) (w, passed)) _ λ r k.
          let next = Holds-some _ _ k (handle_message-Good e m (is_none ps) w passed good) in
          Holds-bool _ r.1 _ _ (λ _. next) (λ _. process_pieces-Good e ps r.0.0 r.0.1 next)

  process_stream-Good :
      (e : Environment) (m : Text) (w : World)
      → Good fresh s hashes w
      → Holds
          (λ r. Good fresh s hashes r.0.0)
          (process_stream (handle_message e) e.cfg.print_transmission_errors m (w, []))
  unfolding process_stream
  process_stream-Good e [] w good = Holds-if _ e.cfg.print_transmission_errors _ _ tt good
  process_stream-Good e (c ∷ cs) w good =
      Holds-if _ (c == b'#') _ _ (process_pieces-Good e (pieces (c ∷ cs)) w [] good)
        (Holds-if _ e.cfg.print_transmission_errors _ _ tt good)

  -- Whatever the buffer holds, if it is processed without a fault.
  pub process_buffer-Reachable :
      (e : Environment) (m : Text) (w w' : World) (rest : Text)
      → process_buffer e m w ≡ some (w', rest)
      → Reachable fresh s hashes w.blockchain
      → Reachable fresh s hashes w'.blockchain
  unfolding process_buffer
  process_buffer-Reachable e m w w' rest h good =
      Holds-some (λ (r : World × Text). Good fresh s hashes r.0) _ h
        (Holds-bind (λ (r : World × Text). Good fresh s hashes r.0)
          (process_stream (handle_message e) e.cfg.print_transmission_errors m (w, [])) _
          λ r k. Holds-some _ _ k (process_stream-Good e m w good))
