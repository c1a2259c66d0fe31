-- ===== src/Config.antt =====
-- code/configuration.cpp: the variables that the modelled parts read. Durations are in milliseconds.
pub mod Reader
pub mod Sample
use ohie.Base.{ℕ, ◌+◌, ◌-◌, ◌^◌, ◌%◌, ◌≤◌, ◌≡◌, ◌<◌, Bool, arith}

pub record Config : Type 0 where
  pub at : ℕ
  pub d : ℕ
  pub chains : ℕ
  pub ask_for_incomplete_individual_milliseconds : ℕ
  pub no_asks_before_removing : ℕ
  pub ask_for_full_blocks_individual_each_milliseconds : ℕ
  pub max_wait_for_full_block_millseconds : ℕ
  pub max_ask_non_full_in_one_go : ℕ
  pub address_size_in_dwords : ℕ
  pub max_ask_blocks : ℕ
  pub print_transmission_errors : Bool
  pub block_size_in_bytes : ℕ
  -- `T_DISCARD[0]`.
  pub t_discard : ℕ

-- `a - b` on `unsigned long`.
abbrev pub sub64 : ℕ → ℕ → ℕ
sub64 a b = (a + 2 ^ 64 - b) % 2 ^ 64

-- A clock that does not run backwards gives the plain difference.
pub sub64_le : (a b : ℕ) → b ≤ a → a < 2 ^ 64 → sub64 a b ≡ a - b
sub64_le a b h k = omega arith
