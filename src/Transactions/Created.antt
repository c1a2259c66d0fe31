-- ===== src/Transactions/Created.antt =====
-- code/transactions.cpp: what a peer makes of the transactions that `transaction_creator` sends.
use ohie.Base.{
  ℕ, ◌*◌, ◌^◌, ◌≡◌, ◌<◌, ◌≤◌, ◌∙◌, refl, sym, ap, List, [], ◌∷◌, append_assoc, Bool, true, false,
  none, some, length, replicate, arith, Holds, Holds-some, Holds-bind, subst,
}
use ohie.Config.{Config}
use ohie.StdMap.{Entries, lookup}
use ohie.Text.{Text}
use ohie.Text.Number.{to_string}
use ohie.Text.Order.{text_order}
use ohie.Text.Split.{Without, Tokens, split, join, split-join}
use ohie.Requests.{Node}
use ohie.Requests.Numbers.{to_digits_size, safe_stoull-to_string, to_string_nonempty}
use ohie.Transactions.State.{
  Pool, Fields, colon, stoull, get_next_seq, is_promised, check_dependencies, parse_transaction,
  fields_of, sizes_ok, body_of,
}
use ohie.Transactions.Receive.{verify_transaction, verify_fields}
use ohie.Transactions.Create.{
  get_random_address, get_random_from_address, Draw, next_new, make_transaction, create_transaction,
}
use ohie.Transactions.Addresses.{
  to_string-no_colon, zeros-no_colon, Address, get_random_address-Ok,
  get_random_from_address-Address,
}
use ohie.Transactions.Entered.{
  is_promised_known, check_dependencies_runs, IsEntered, enter_transaction_runs,
}

-- The fields of the transaction that is made.
abbrev pub made_fields : Text → ℕ → Text → ℕ → Text → ℕ → Fields
made_fields from seq_n to amount a n = record {
  from = from;
  seq = to_string seq_n;
  to = to;
  amount = to_string amount;
  dependency = colon a (to_string n);
  sign = replicate 128 b'0';
}

module _ (cfg : Config) (from to a : Text) (seq_n amount n : ℕ) where
  -- The addresses and the dependency of a transaction that is made.
  abbrev pub Parts : Type 0
  Parts = Address cfg from × Address cfg to × Without b':' a

  parse-make_transaction :
      Parts
      → parse_transaction (make_transaction from seq_n to amount (colon a (to_string n)))
        ≡ some (made_fields from seq_n to amount a n)
  unfolding parse_transaction make_transaction join
  parse-make_transaction (f, t, d) =
      let tokens : List Text =
        from
        ∷ to_string seq_n
        ∷ to
        ∷ to_string amount
        ∷ a
        ∷ to_string n
        ∷ replicate 128 b'0'
        ∷ [] in
      let ok : Tokens b':' tokens = (
        f.0,
        (
          to_string-no_colon seq_n,
          (
            t.0,
            (to_string-no_colon amount, (d, (to_string-no_colon n, (zeros-no_colon 128, λ e. cc)))),
          ),
        ),
      ) in
      ap
        (λ (s : Text). fields_of (
          split (colon from (colon (to_string seq_n) (colon to (colon (to_string amount) s))))
            b':'))
        (append_assoc a (b':' ∷ to_string n) (b':' ∷ replicate 128 b'0'))
      ∙ ap fields_of (split-join b':' tokens ok)

  sizes_ok-made : Parts → sizes_ok cfg (made_fields from seq_n to amount a n) ≡ true
  unfolding sizes_ok to_string
  sizes_ok-made (f, t, d) = ground (arith, f.1, t.1, to_digits_size 10 19 amount)

  -- The key is not promised yet at a node where the sequence number is not below the next one.
  not_promised :
      (p : Pool)
      → Parts
      → seq_n < 2 ^ 64
      → get_next_seq p from ≤ seq_n
      → is_promised p (body_of (made_fields from seq_n to amount a n)) ≡ some false
  unfolding join
  not_promised p (f, t, d) l h =
      let tokens : List Text =
        from ∷ to_string seq_n ∷ to ∷ to_string amount ∷ a ∷ to_string n ∷ [] in
      let ok : Tokens b':' tokens = (
        f.0,
        (
          to_string-no_colon seq_n,
          (t.0, (to_string-no_colon amount, (d, (to_string-no_colon n, to_string_nonempty n)))),
        ),
      ) in
      is_promised_known p from (to_string seq_n) seq_n _ _ (split-join b':' tokens ok) refl l
      ∙ ap some (ground (arith, h))

  verify-made :
      (p : Pool) (now : ℕ)
      → Parts
      → seq_n < 2 ^ 64
      → n < 2 ^ 64
      → get_next_seq p from ≤ seq_n
      → lookup (colon from (to_string seq_n)) p.aging_transactions ≡ none
      → lookup (colon from (to_string seq_n)) p.aged_transactions ≡ none
      → (q : Pool × Bool) × (verify_transaction cfg p
            (make_transaction from seq_n to amount (colon a (to_string n)))
            now
          ≡ some q)
        × IsEntered p
            (colon from (to_string seq_n))
            (make_transaction from seq_n to amount (colon a (to_string n)))
            now
            q
  unfolding verify_transaction verify_fields stoull
  verify-made p now parts l m h aging aged =
      let f = made_fields from seq_n to amount a n in
      let tx = make_transaction from seq_n to amount (colon a (to_string n)) in
      let (c, e) = check_dependencies_runs p from seq_n a n parts.2 m in
      let (q, r, entered) = enter_transaction_runs p f tx seq_n now c e in
      (
        q,
        rw
            (
              parse-make_transaction parts,
              safe_stoull-to_string seq_n true l,
              sizes_ok-made parts,
              aging,
              not_promised p parts l h,
              aged,
              verify_transaction,
              verify_fields,
            )
            r,
        entered,
      )

created_text :
    (cfg : Config) (node : Node) (clients : ℕ) (draw : Draw) (p : Pool) (seqs : Entries Text ℕ)
    (from : Text)
    → get_random_from_address cfg node clients draw.client ≡ some from
    → Holds
        (λ (c : Pool × Entries Text ℕ × Text).
          c.2
          ≡ make_transaction from
              (next_new seqs from)
              (get_random_address draw.words)
              draw.amount
              p.last_promised)
        (create_transaction cfg node clients draw p seqs)
unfolding create_transaction
created_text cfg node clients draw p seqs from e =
    rw (e, create_transaction)
      (Holds-bind _ (check_dependencies _ from (next_new seqs from) p.last_promised) _
        (λ c q. refl))

-- A transaction that a node creates is new at every node that receives it with its sequence
-- number not below the next one of the sender, and its key neither aging nor aged there: the
-- receiver takes it for new, and lets it age from the time it came, with the whole text. The
-- address of the creator is without `:`, as many words are drawn for the receiver's address as
-- the configuration says, the last promise is a name without `:`, a `:` and a number, and the
-- numbers are below 2^64.
pub create-verify_transaction :
    (cfg : Config) (node : Node) (clients : ℕ) (draw : Draw) (p : Pool) (seqs : Entries Text ℕ)
    (from a : Text) (n : ℕ) (created : Pool × Entries Text ℕ × Text) (r : Pool) (now : ℕ)
    → Without b':' node.ip
    → length draw.words ≡ cfg.address_size_in_dwords
    → Without b':' a
    → n < 2 ^ 64
    → p.last_promised ≡ colon a (to_string n)
    → get_random_from_address cfg node clients draw.client ≡ some from
    → next_new seqs from < 2 ^ 64
    → create_transaction cfg node clients draw p seqs ≡ some created
    → get_next_seq r from ≤ next_new seqs from
    → lookup (colon from (to_string (next_new seqs from))) r.aging_transactions ≡ none
    → lookup (colon from (to_string (next_new seqs from))) r.aged_transactions ≡ none
    → (q : Pool × Bool) × (verify_transaction cfg r created.2 now ≡ some q)
      × IsEntered r (colon from (to_string (next_new seqs from))) created.2 now q
create-verify_transaction cfg node clients draw p seqs from a n created r now ip words d m last e l
      made h aging aged =
    let to = get_random_address draw.words in
    let (to_clean, to_size) = get_random_address-Ok draw.words in
    let from_ok : Address cfg from =
      Holds-some (Address cfg) _ e
        (get_random_from_address-Address cfg node clients draw.client ip) in
    let to_ok : Address cfg to = (to_clean, to_size ∙ ap (λ k. 8 * k) words) in
    let same : created.2
        ≡ make_transaction from (next_new seqs from) to draw.amount (colon a (to_string n)) =
      Holds-some _ _ made (created_text cfg node clients draw p seqs from e)
      ∙ ap (make_transaction from (next_new seqs from) to draw.amount) last in
    subst
      (λ (t : Text).
        (q : Pool × Bool) × (verify_transaction cfg r t now ≡ some q)
        × IsEntered r (colon from (to_string (next_new seqs from))) t now q)
      (sym same)
      (verify-made cfg from to a (next_new seqs from) draw.amount n r now (from_ok, to_ok, d) l m h
        aging aged)
