-- ===== src/Transactions/Addresses.antt =====
-- code/transactions.cpp: the addresses that `transaction_creator` draws, and the numbers it writes.
use ohie.Base.{
  ℕ, zero, suc, ◌-◌, ◌*◌, ◌%◌, ◌≡◌, ◌≢◌, refl, List, [], ◌∷◌, ◌++◌, false, some, ltb, ◌==◌, length,
  length-append, length-replicate, replicate, All-++, arith, Bool-cases, inl, inr, Holds,
}
use ohie.Config.{Config}
use ohie.Text.{Text}
use ohie.Text.Number.{to_string, to_digits, digit_value, AllDigits, to_digits-AllDigits}
use ohie.Text.Order.{text_order}
use ohie.Text.Split.{Without}
use ohie.Verify.Hash.{length-to_digits}
use ohie.Requests.{Node}
use ohie.Transactions.Create.{get_random_address, get_random_from_address}

digit_ne_colon : (base c d : ℕ) → digit_value base c ≡ some d → c ≢ 58
unfolding digit_value
digit_ne_colon base c d h e = ground arith

AllDigits-no_colon : (base : ℕ) (t : Text) → AllDigits base t → Without b':' t
AllDigits-no_colon base [] h = tt
AllDigits-no_colon base (c ∷ t) ((d, e), h) =
    (digit_ne_colon base c d e, AllDigits-no_colon base t h)

pub to_string-no_colon : (n : ℕ) → Without b':' (to_string n)
unfolding to_string
to_string-no_colon n =
    AllDigits-no_colon 10 _ (to_digits-AllDigits 10 20 n (omega arith) (omega arith))

pub zeros-no_colon : (n : ℕ) → Without b':' (replicate n b'0')
zeros-no_colon zero = tt
zeros-no_colon (suc n) = ((λ e. omega (arith, e)), zeros-no_colon n)

pub get_random_address-Ok :
    (words : List ℕ)
    → Without b':' (get_random_address words)
      × (length (get_random_address words) ≡ 8 * length words)
unfolding get_random_address
get_random_address-Ok [] = (tt, refl)
get_random_address-Ok (r ∷ rs) =
    let (h, l) = get_random_address-Ok rs in
    let digits = to_digits 16 8 r in
    (
      All-++ _ (replicate (8 - length digits) b'0' ++ digits) _
          (All-++ _ (replicate (8 - length digits) b'0') digits (zeros-no_colon (8 - length digits))
            (AllDigits-no_colon 16 digits (to_digits-AllDigits 16 8 r (omega arith) (omega arith))))
          h,
      omega (
        arith,
        l,
        length-to_digits 16 8 r,
        length-append (replicate (8 - length digits) b'0' ++ digits) (get_random_address rs),
        length-append (replicate (8 - length digits) b'0') digits,
        length-replicate {A = ℕ} (8 - length digits) b'0',
      ),
    )

-- An address of a transaction: of the right size, and without `:`.
abbrev pub Address : Config → Text → Type 0
Address cfg t = Without b':' t × (length t ≡ 8 * cfg.address_size_in_dwords)

padded :
    (cfg : Config) (t : Text)
    → Without b':' t
    → ltb (cfg.address_size_in_dwords * 8) (length t) ≡ false
    → Address cfg (t ++ replicate (cfg.address_size_in_dwords * 8 - length t) b'0')
padded cfg t h e = (
  All-++ _ t _ h (zeros-no_colon _),
  ground (
    arith,
    length-append t (replicate (cfg.address_size_in_dwords * 8 - length t) b'0'),
    length-replicate {A = ℕ} (cfg.address_size_in_dwords * 8 - length t) b'0',
    e,
  ),
)

pub get_random_from_address-Address :
    (cfg : Config) (node : Node) (clients random : ℕ)
    → Without b':' node.ip
    → Holds (Address cfg) (get_random_from_address cfg node clients random)
unfolding get_random_from_address
get_random_from_address-Address cfg node clients random h =
    let t = node.ip ++ to_string node.port ++ to_string (random % clients) in
    elim (Bool-cases (clients == 0)) [
      | inl e ↦ rw e tt
      | inr e ↦ rw e (elim (Bool-cases (ltb (cfg.address_size_in_dwords * 8) (length t))) [
        | inl g ↦ rw g tt
        | inr g ↦ rw g (
            padded cfg t
              (All-++ _ (node.ip ++ to_string node.port) _
                (All-++ _ node.ip _ h (to_string-no_colon node.port))
                (to_string-no_colon (random % clients)))
              g)
      ])
    ]
