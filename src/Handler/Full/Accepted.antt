-- ===== src/Handler/Full/Accepted.antt =====
-- code/process_buffer.cpp: when a `full_block` message makes a block full.
use ohie.Base.{
  ℕ, ◌≡◌, ◌⊎◌, inl, inr, ◌∙◌, refl, sym, ap, Bool, true, false, true≢false, Option, none, some,
  arith, Holds, Holds-bind, Holds-case, Holds-some, some-inj, Holds-bool, Holds-mono, ◌==◌, ==_iff,
  ◌>>=◌, get_elem?, ◌%◌, ◌^◌, ◌-◌, ◌+◌,
}
use ohie.Config.{Config}
use ohie.StdMap.{lookup, nat_order, lookup-assign}
use ohie.Text.{Text}
use ohie.Blockchain.HashTree.{find_block_by_hash}
use ohie.Blockchain.State.{NetworkBlock, Store, Tree, Chain, Blockchain, set_nb, write}
use ohie.Blockchain.Receive.{have_full_block}
use ohie.Blockchain.Full.{set_block_full, mark_full}
use ohie.Requests.{Node}
use ohie.Requests.Payload.{FullBlock}
use ohie.Miner.{verify_full_block}
use ohie.Handler.State.{World, send}
use ohie.Handler.Blocks.{have_full}
use ohie.Handler.Full.{
  Checked, lines_of, verify_lines, completed, store_data, make_full, check_data, check_full_block,
  receive_full_block,
}

-- Whether the block of the message is full.
abbrev is_full : FullBlock → World → Option Bool
is_full f w = have_full w.blockchain f.request.chain_id f.request.hash

have_full_block-set_nb :
    (s : Store) (t : Tree) (hash bz : ℕ) (n : NetworkBlock)
    → have_full_block (set_nb s bz n) t hash ≡ have_full_block s t hash
unfolding have_full_block set_nb write
have_full_block-set_nb s t hash bz n = ground arith

have_full-of_set_nb :
    (s : Store) (bz : ℕ) (n : NetworkBlock) (hash : ℕ) (o : Option Chain)
    → (o >>= λ c. some (have_full_block (set_nb s bz n) c.chain hash))
      ≡ (o >>= λ c. some (have_full_block s c.chain hash))
have_full-of_set_nb s bz n hash none = refl
have_full-of_set_nb s bz n hash (some c) = ap some (have_full_block-set_nb s c.chain hash bz n)

store_data_full :
    (f : FullBlock) (bz : ℕ) (n : NetworkBlock) (w : World)
    → is_full f (store_data bz n w) ≡ is_full f w
unfolding have_full store_data
store_data_full f bz n w =
    have_full-of_set_nb w.blockchain.store bz n f.request.hash
      (get_elem? w.blockchain.chains f.request.chain_id)

set_block_full_chains :
    (bc bc' : Blockchain) (chain_id hash now : ℕ)
    → set_block_full bc chain_id hash now ≡ some bc'
    → bc'.chains ≡ bc.chains
unfolding set_block_full mark_full
set_block_full_chains bc bc' chain_id hash now h = ground arith

-- A block with that hash is in that chain.
abbrev pub Known : World → ℕ → ℕ → Type 0
Known w chain_id hash =
    (c : Chain) × (t : ℕ) × (get_elem? w.blockchain.chains chain_id ≡ some c)
    × (find_block_by_hash c.chain.index hash ≡ some t)

module _ (cfg : Config) (node : Node) (sha256 : Text → Text) (now : ℕ) where
  -- The data `n` has passed the tests, its trailing block is known, and the text is on disk.
  record Passed (f : FullBlock) (n : NetworkBlock) (w : World) : Type 0 where
    tested : verify_full_block cfg sha256 n ≡ some true
    trailing : Known w n.trailing_id n.trailing
    saved : lookup f.request.hash w.files ≡ some f.txs

  make_full-Passed :
      (f : FullBlock) (tot : ℕ) (n : NetworkBlock) (w : World) (c : Chain) (t : ℕ)
      → verify_full_block cfg sha256 n ≡ some true
      → get_elem? w.blockchain.chains n.trailing_id ≡ some c
      → find_block_by_hash c.chain.index n.trailing ≡ some t
      → Holds (Passed f n) (make_full cfg node sha256 now f tot w)
  unfolding make_full
  make_full-Passed f tot n w c t ok ec et =
      Holds-bind _ (set_block_full w.blockchain f.request.chain_id f.request.hash now) _ λ bc e.
        record {
          tested = ok;
          trailing = (
            c,
            t,
            rw (set_block_full_chains w.blockchain bc f.request.chain_id f.request.hash now e) ec,
            et,
          );
          saved = ground (arith, lookup-assign f.request.hash f.request.hash f.txs w.files);
        }

  -- Either the block is as full as before, or the data has passed.
  check_data-Passed :
      (f : FullBlock) (tot : ℕ) (n : NetworkBlock) (w : World)
      → Holds
          (λ w'. (is_full f w' ≡ is_full f w) ⊎ Passed f n w')
          (check_data cfg node sha256 now f tot n w)
  unfolding check_data send
  check_data-Passed f tot n w = Holds-bind _ (verify_full_block cfg sha256 n) _ λ ok e.
      Holds-bool _ ok _ _
        (λ yes. Holds-bind _ (get_elem? w.blockchain.chains n.trailing_id) _ λ c ec.
          Holds-case _ (find_block_by_hash c.chain.index n.trailing) _ _ (λ _. inl refl)
            λ t et.
              Holds-mono _ _ (make_full cfg node sha256 now f tot w) (λ w' h. inr h)
                (make_full-Passed f tot n w c t (e ∙ ap some yes) ec et))
        (λ _. inl refl)

  -- All transactions of the block were accepted, as many as were announced.
  record Verified (f : FullBlock) (n : NetworkBlock) (last_rank : ℕ) (w : World) : Type 0 where
    checked : Checked
    run : verify_lines cfg n.rank last_rank (lines_of f.txs) w.pool w.held 0 ≡ some checked
    good : checked.all_good ≡ true
    count : checked.tot_transactions ≡ n.no_txs

  check_full_block-Passed :
      (f : FullBlock) (bz : ℕ) (n : NetworkBlock) (last_rank : ℕ) (w : World)
      → Holds
          (λ r.
            (is_full f r.0 ≡ is_full f w)
            ⊎ (Passed f (completed n f) r.0 × Verified f n last_rank w))
          (check_full_block cfg node sha256 now f bz n last_rank w)
  unfolding check_full_block
  check_full_block-Passed f bz n last_rank w =
      Holds-bind _ (verify_lines cfg n.rank last_rank (lines_of f.txs) w.pool w.held 0) _ λ k e.
        let w1 = record w { pool = k.pool; held = k.held } in
        Holds-bool _ (k.tot_transactions == n.no_txs) _ _
          (λ same.
            Holds-bool _ k.all_good _ _
              (λ good.
                Holds-bind _
                  (check_data cfg node sha256 now f k.tot_transactions (completed n f)
                    (store_data bz (completed n f) w1))
                  _
                  λ w2 e2.
                    elim (Holds-some _ _ e2 (
                      check_data-Passed f k.tot_transactions (completed n f)
                        (store_data bz (completed n f) w1))) [
                          | inl h ↦ inl (h ∙ store_data_full f bz (completed n f) w1)
                          | inr h ↦ inr (
                            h,
                            record {
                              checked = k;
                              run = e;
                              good = good;
                              count = (==_iff _ _).0 same;
                            },
                          )
                        ])
              (λ _. inl refl))
          (λ _. inl refl)

  -- What a message `full_block` must have shown to make a block full.
  pub record Accepted (f : FullBlock) (w w' : World) : Type 0 where
    pub chain : Chain
    pub found : get_elem? w.blockchain.chains f.request.chain_id ≡ some chain
    pub address : ℕ
    pub placed : find_block_by_hash chain.chain.index f.request.hash ≡ some address
    pub announced : NetworkBlock
    pub stored : (w.blockchain.store.cell address).nb ≡ some announced
    pub tested : verify_full_block cfg sha256 (completed announced f) ≡ some true
    pub trailing : Known w' f.trailing_id f.trailing
    pub last_rank : ℕ
    pub checked : Checked
    pub run :
        verify_lines cfg announced.rank last_rank (lines_of f.txs) w.pool w.held 0 ≡ some checked
    pub good : checked.all_good ≡ true
    pub count : checked.tot_transactions ≡ announced.no_txs
    pub saved : lookup f.request.hash w'.files ≡ some f.txs

  receive_full_block-Accepted :
      (f : FullBlock) (w : World)
      → Holds
          (λ r. (is_full f r.0 ≡ is_full f w) ⊎ Accepted f w r.0)
          (receive_full_block cfg node sha256 now f w)
  unfolding receive_full_block completed
  receive_full_block-Accepted f w =
      Holds-bind _ (have_full w.blockchain f.request.chain_id f.request.hash) _ λ have _.
        Holds-bool _ have _ _ (λ _. inl refl)
          (λ _. Holds-bind _ (get_elem? w.blockchain.chains f.request.chain_id) _ λ c ec.
            Holds-case _ (find_block_by_hash c.chain.index f.request.hash) _ _ (λ _. inl refl)
              λ bz eb.
                Holds-case _ (w.blockchain.store.cell bz).nb _ _ (λ _. inl refl)
                  λ n en. Holds-bind _ (w.blockchain.store.cell c.deepest).nb _ λ last _.
                    Holds-mono _ _
                      (check_full_block cfg node sha256 now f bz n
                        ((last.next_rank + (2 ^ 32 - 1)) % 2 ^ 32) w)
                      (λ r h. elim h [
                        | inl same ↦ inl same
                        | inr (p, v) ↦ inr (record {
                          chain = c;
                          found = ec;
                          address = bz;
                          placed = eb;
                          announced = n;
                          stored = en;
                          tested = p.tested;
                          trailing = p.trailing;
                          last_rank = (last.next_rank + (2 ^ 32 - 1)) % 2 ^ 32;
                          checked = v.checked;
                          run = v.run;
                          good = v.good;
                          count = v.count;
                          saved = p.saved;
                        })
                      ])
                      (check_full_block-Passed f bz n ((last.next_rank + (2 ^ 32 - 1)) % 2 ^ 32) w))

  -- When a message `full_block` makes a block full that was not, the block is in its chain and
  -- was announced with data, its transactions were accepted one after the other, all of them and
  -- as many as were announced, the data that is completed by the message passes the tests of the
  -- chain, the hash and the Merkle proof, the trailing block is known, and the text of the
  -- transactions is stored under its hash.
  pub receive_full_block_accepts :
      (f : FullBlock) (w w' : World) (stop : Bool)
      → receive_full_block cfg node sha256 now f w ≡ some (w', stop)
      → is_full f w ≡ some false
      → is_full f w' ≡ some true
      → Accepted f w w'
  receive_full_block_accepts f w w' stop h before after =
      elim (Holds-some _ _ h (receive_full_block-Accepted f w)) [
        | inl same ↦ absurd (true≢false (some-inj (sym after ∙ same ∙ before)))
        | inr a ↦ a
      ]
