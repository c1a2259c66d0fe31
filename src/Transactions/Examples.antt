-- ===== src/Transactions/Examples.antt =====
-- Witnesses for code/transactions.cpp: a pool with one transaction that ages, and addresses of one
-- word.
use ohie.Base.{
  ℕ, suc, ◌+◌, ◌≡◌, refl, List, [], ◌∷◌, Bool, replicate, true, false, none, some, is_some, arith,
  length, get_elem?, ◌==◌, if◌then◌else◌,
}
use ohie.Config.{Config}
use ohie.Config.Sample.{sample}
use ohie.StdMap.{Entries, lookup, assign}
use ohie.Text.{Text, codes, text_eq}
use ohie.Text.Order.{text_order, text_compare}
use ohie.Text.Number.{
  to_string, to_digits, digit_char, safe_stoull, signed, skip_space, decimal, read_digits,
  digit_value,
}
use ohie.Text.Split.{split}
use ohie.Transactions.State.{
  AgingInfo, Pool, Fields, colon, empty_dependency, get_next_seq, stoull, key_of, sizes_ok,
  parse_transaction, is_promised, check_dependencies, dependents, update_next_seq,
  clear_dependencies,
}
use ohie.Transactions.Receive.{verify_transaction, verify_fields, enter_transaction}
use ohie.Transactions.Promise.{
  create_transaction_block, promise_transaction, notify_dependencies, release_next,
  release_dependents, dependency_of, age_transaction, aging_loop, aging_round,
}
use ohie.Base.{inl, inr, All}
use ohie.Transactions.Receive.{meet_aging}
use ohie.StdMap.{erase, assign}
use ohie.Transactions.Receive.{add_transactions}
use ohie.Transactions.Arriving.{OtherKey}
use ohie.Transactions.Spent.{Spent, verify_transaction_again, verify_transaction_double_spend}
use ohie.Transactions.Mempool.{Appends, create_transaction_block_enough}
use ohie.Base.{◌++◌}
use ohie.Requests.{Node}
use ohie.Transactions.Create.{
  Draw, get_random_address, get_random_from_address, make_transaction, create_transaction,
}
use ohie.Transactions.Addresses.{zeros-no_colon}
use ohie.Transactions.Created.{create-verify_transaction}
use ohie.Transactions.Entered.{IsEntered}
use ohie.Transactions.Promises.{promise_transaction_lem}
use ohie.Transactions.Aging.{aging_round_counts, aging_round_keeps}

abbrev config : Config
config = record sample { chains = 1; address_size_in_dwords = 1 }

abbrev alice : Text
alice = codes "aaaaaaaa"

abbrev bob : Text
bob = codes "bbbbbbbb"

-- A transaction of Alice that depends on none.
abbrev payment : Text → Text
payment amount =
    colon alice (colon (codes "0") (colon bob (colon amount (colon empty_dependency (codes "s")))))

abbrev empty : Pool
empty = record {
  aging_transactions = [];
  aged_transactions = [];
  next_seqs = [];
  pending_transactions = [];
  mempool = [];
  dependencies = [];
  promise_count = 0;
  last_promised = [];
}

abbrev entered : Pool
entered = elim (verify_transaction config empty (payment (codes "5")) 100) [
  | none ↦ empty
  | some r ↦ r.0
]

-- The payment is sent again, and one with the next number.
abbrev next_payment : Text
next_payment =
    colon alice
      (colon (codes "1") (colon bob (colon (codes "5") (colon empty_dependency (codes "s")))))

abbrev arrivals : List (Text × ℕ)
arrivals = (payment (codes "5"), 200) ∷ (next_payment, 250) ∷ []

abbrev after : Pool × List Text
after = elim (add_transactions config entered arrivals) [ none ↦ (empty, []) | some r ↦ r ]

abbrev paid_fields : Fields
paid_fields = record {
  from = alice;
  seq = codes "0";
  to = bob;
  amount = codes "5";
  dependency = empty_dependency;
  sign = codes "s";
}

verify_transaction_again_example :
    All (OtherKey (key_of paid_fields)) after.1
    × (verify_transaction config after.0 (payment (codes "5")) 300 ≡ some (after.0, false))
unfolding verify_transaction parse_transaction split stoull safe_stoull signed skip_space decimal
    digit_value read_digits verify_fields sizes_ok lookup is_promised get_next_seq enter_transaction
    check_dependencies text_eq add_transactions assign text_order text_compare meet_aging
verify_transaction_again_example =
    verify_transaction_again config empty entered after.0 paid_fields (payment (codes "5")) 0 100
      300 arrivals after.1 refl refl refl (inl refl, (inr refl, tt)) refl

abbrev spent_fields : Fields
spent_fields = record {
  from = alice;
  seq = codes "0";
  to = bob;
  amount = codes "6";
  dependency = empty_dependency;
  sign = codes "s";
}

abbrev aging : AgingInfo
aging = record { full_tx = payment (codes "5"); time = 100 }

abbrev one_aging : Pool
one_aging = record empty {
  aging_transactions = (colon alice (codes "0"), aging) ∷ [];
  mempool = payment (codes "5") ∷ codes "more" ∷ [];
}

abbrev conflict : Pool
conflict = elim (verify_transaction config one_aging (payment (codes "6")) 200) [
  | none ↦ empty
  | some r ↦ r.0
]

abbrev later : Pool × List Text
later = elim (add_transactions config conflict arrivals) [ none ↦ (empty, []) | some r ↦ r ]

verify_transaction_double_spend_example :
    (false ≡ false)
    × Spent (key_of spent_fields) later.0
    × All (OtherKey (key_of spent_fields)) later.1
unfolding verify_transaction parse_transaction split stoull safe_stoull signed skip_space decimal
    digit_value read_digits verify_fields sizes_ok lookup is_promised get_next_seq enter_transaction
    check_dependencies text_eq add_transactions text_order text_compare meet_aging erase assign
verify_transaction_double_spend_example =
    verify_transaction_double_spend config one_aging conflict later.0 false spent_fields
      (payment (codes "6")) 0 200 aging arrivals later.1 refl refl refl refl refl refl refl

-- Before each try another transaction comes.
abbrev one_more : Pool → Pool
one_more p = record p { mempool = p.mempool ++ payment (codes "7") ∷ [] }

one_more-Appends : Appends 20 one_more
one_more-Appends p = (payment (codes "7") ∷ [], refl, (((λ e. cc), omega arith), tt))

abbrev taken : List Text × Pool
taken = elim (create_transaction_block config (one_more ∷ one_more ∷ []) one_aging) [
  | none ↦ ([], empty)
  | some r ↦ r
]

create_transaction_block_enough_example :
    is_some (create_transaction_block config (one_more ∷ one_more ∷ []) one_aging) ≡ true
create_transaction_block_enough_example =
    create_transaction_block_enough config (one_more ∷ one_more ∷ []) one_aging
      (one_more-Appends, (one_more-Appends, tt))
      (((λ e. cc), omega arith), (((λ e. cc), omega arith), tt)) (omega arith) (omega arith)

abbrev promised : Pool
promised = elim (promise_transaction one_aging alice 0) [ none ↦ empty | some q ↦ q ]

promise_transaction_example :
    (promised.promise_count ≡ 1)
    × (promised.last_promised ≡ colon alice (to_string 0))
    × (promised.next_seqs ≡ (
        if 0 == get_next_seq one_aging alice
        then assign alice (suc (get_next_seq one_aging alice)) []
        else []))
unfolding promise_transaction notify_dependencies release_next lookup get_next_seq update_next_seq
    release_dependents dependents
promise_transaction_example = promise_transaction_lem one_aging promised alice 0 refl

-- The clock of a round in which the entry is old, and of one in which it is young.
abbrev old_round : Pool
old_round = elim (aging_round config (λ i. 2000) one_aging) [ none ↦ empty | some q ↦ q ]

abbrev young_round : Pool
young_round = elim (aging_round config (λ i. 500) one_aging) [ none ↦ empty | some q ↦ q ]

aging_round_counts_example : length old_round.aging_transactions + old_round.promise_count ≡ 1
unfolding aging_round aging_loop age_transaction split stoull safe_stoull signed skip_space decimal
    digit_value read_digits dependency_of check_dependencies text_eq get_next_seq lookup
    promise_transaction notify_dependencies release_next release_dependents dependents assign
    text_order text_compare update_next_seq to_string to_digits digit_char clear_dependencies
aging_round_counts_example = aging_round_counts config (λ i. 2000) one_aging old_round refl

aging_round_keeps_example :
    (m : ℕ) × (get_elem? young_round.aging_transactions m ≡ some (colon alice (codes "0"), aging))
unfolding aging_round aging_loop age_transaction split stoull safe_stoull signed skip_space decimal
    digit_value read_digits dependency_of
aging_round_keeps_example =
    aging_round_keeps config (λ i. 500) one_aging young_round 0 (colon alice (codes "0")) aging refl
      refl (omega arith)

-- A node makes its first transaction, for a receiver with an address of one word.
abbrev creator : Node
creator = record { ip = codes "n1"; port = 8001 }

abbrev draw : Draw
draw = record { client = 0; words = 7 ∷ []; amount = 50; time = 100; repeats = false }

abbrev fresh_pool : Pool
fresh_pool = record empty { last_promised = empty_dependency }

abbrev created : Pool × Entries Text ℕ × Text
created = elim (create_transaction config creator 2 draw fresh_pool []) [
  | some c ↦ c
  | none ↦ (fresh_pool, [], [])
]

abbrev first_client : Text
first_client = codes "n1800100"

create-verify_transaction_example :
    (q : Pool × Bool) × (verify_transaction config empty created.2 120 ≡ some q)
    × IsEntered empty (colon first_client (to_string 0)) created.2 120 q
unfolding get_random_address get_random_from_address make_transaction create_transaction to_string
    to_digits digit_char check_dependencies text_eq get_next_seq lookup text_order text_compare
    assign
create-verify_transaction_example =
    create-verify_transaction config creator 2 draw fresh_pool [] first_client (replicate 40 b'0') 0
      created empty 120 ((λ e. cc), ((λ e. cc), tt)) refl (zeros-no_colon 40) (omega arith) refl
      refl (omega arith) refl (omega arith) refl refl
