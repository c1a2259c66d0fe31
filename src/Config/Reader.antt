-- ===== src/Config/Reader.antt =====
-- code/configuration.cpp: the variables of the configuration and the file that sets them. `trim` of
-- Boost is a parameter. The variables are a table from their names, an integer as the bits it is
-- stored in: 64 for `AT` and `D`, 32 for the others.
pub mod Lines
mod Examples
use ohie.Base.{
  ℕ, ◌+◌, ◌*◌, ◌^◌, ◌%◌, List, [], ◌∷◌, Bool, true, false, not, ◌||◌, Option, none, some, ltb,
  if◌then◌else◌, ◌>>=◌,
}
use ohie.Text.{Text, codes, text_eq}
use ohie.Text.Number.{safe_stoull}
use ohie.Text.Split.{split}

-- Their values before the file is read, in the order of `KNOWN_VARS`.
abbrev pub default_settings : List (Text × ℕ)
default_settings =
    (codes "CHAINS", 1000)
    ∷ (codes "MAX_PEERS", 4)
    ∷ (codes "COEFF", 4)
    ∷ (codes "EXPECTED_MINE_TIME_IN_MILLISECONDS", 1000)
    ∷ (codes "ASK_FOR_INCOMPLETE_EACH_MILLISECONDS", 50)
    ∷ (codes "ASK_FOR_INCOMPLETE_INDIVIDUAL_MILLISECONDS", 2000)
    ∷ (codes "NO_ASKS_BEFORE_REMOVING", 600)
    ∷ (codes "ASK_FOR_FULL_BLOCKS_EACH_MILLISECONDS", 50)
    ∷ (codes "ASK_FOR_FULL_BLOCKS_INDIVIDUAL_EACH_MILLISECONDS", 2000)
    ∷ (codes "MAX_WAIT_FOR_FULL_BLOCK_MILLSECONDS", 20000)
    ∷ (codes "MAX_ASK_NON_FULL_IN_ONE_GO", 100)
    ∷ (codes "SIGN_TRANSACTIONS", 0)
    ∷ (codes "VERIFY_TRANSACTIONS", 0)
    ∷ (codes "ADDRESS_SIZE_IN_DWORDS", 5)
    ∷ (codes "CONNECT_TO_PEERS_MILLISECONDS", 10000)
    ∷ (codes "RUN_NETWORK_EACH_MILLISECONDS", 20)
    ∷ (codes "MAX_ASK_BLOCKS", 4)
    ∷ (codes "WRITE_BLOCKS_TO_HDD", 1)
    ∷ (codes "WRITE_SESSIONS_TO_HDD", 0)
    ∷ (codes "WRITE_HASH_TO_HDD", 0)
    ∷ (codes "PRINT_BLOCKCHAIN_EACH_MILLISECONDS", 2000)
    ∷ (codes "PRINT_SENDING_MESSAGES", 0)
    ∷ (codes "PRINT_RECEIVING_MESSAGES", 0)
    ∷ (codes "PRINT_MINING_MESSAGES", 0)
    ∷ (codes "PRINT_INTERRUPT_MESSAGES", 1)
    ∷ (codes "PRINT_PEER_CONNECTION_MESSAGES", 1)
    ∷ (codes "PRINT_TRANSMISSION_ERRORS", 0)
    ∷ (codes "PRINT_VERIFYING_TXS", 0)
    ∷ (codes "CAN_INTERRUPT", 0)
    ∷ (codes "MAX_MINE_BLOCKS", 300000)
    ∷ (codes "BLOCK_SIZE_IN_BYTES", 32768)
    ∷ (codes "REJECT_CONNECTIONS_FROM_UNKNOWNS", 1)
    ∷ (codes "STORE_HASH_FREQ", 1)
    ∷ (codes "STORE_HASH_MINUS", 6)
    ∷ (codes "PING_MIN_WAIT", 5)
    ∷ (codes "PING_MAX_WAIT", 10)
    ∷ (codes "PING_REPEAT", 1000)
    ∷ (codes "STORE_BLOCKS", 1)
    ∷ (codes "BLOCKS_STORE_FREQUENCY", 1000)
    ∷ (codes "NO_DISCARD_LOCAL", 6)
    ∷ (codes "UPDATE_COMMITED_TIME_EACH_MILLISECONDS", 500)
    ∷ (codes "TRANSACTION_THROUGHPUT_EACH_NODE", 50)
    ∷ (codes "IDLE_START_TIME", 120000)
    ∷ (codes "AT", 960)
    ∷ (codes "D", 240)
    ∷ (codes "AGING_MONITOR_EACH_MILLISECONDS", 100)
    ∷ (codes "CLIENTS_PER_NODE", 500)
    ∷ []

-- `KNOWN_VARS`.
abbrev pub known_vars : List Text
known_vars =
    codes "CHAINS"
    ∷ codes "MAX_PEERS"
    ∷ codes "COEFF"
    ∷ codes "EXPECTED_MINE_TIME_IN_MILLISECONDS"
    ∷ codes "ASK_FOR_INCOMPLETE_EACH_MILLISECONDS"
    ∷ codes "ASK_FOR_INCOMPLETE_INDIVIDUAL_MILLISECONDS"
    ∷ codes "NO_ASKS_BEFORE_REMOVING"
    ∷ codes "ASK_FOR_FULL_BLOCKS_EACH_MILLISECONDS"
    ∷ codes "ASK_FOR_FULL_BLOCKS_INDIVIDUAL_EACH_MILLISECONDS"
    ∷ codes "MAX_WAIT_FOR_FULL_BLOCK_MILLSECONDS"
    ∷ codes "MAX_ASK_NON_FULL_IN_ONE_GO"
    ∷ codes "SIGN_TRANSACTIONS"
    ∷ codes "VERIFY_TRANSACTIONS"
    ∷ codes "ADDRESS_SIZE_IN_DWORDS"
    ∷ codes "CONNECT_TO_PEERS_MILLISECONDS"
    ∷ codes "RUN_NETWORK_EACH_MILLISECONDS"
    ∷ codes "MAX_ASK_BLOCKS"
    ∷ codes "WRITE_BLOCKS_TO_HDD"
    ∷ codes "WRITE_SESSIONS_TO_HDD"
    ∷ codes "WRITE_HASH_TO_HDD"
    ∷ codes "PRINT_BLOCKCHAIN_EACH_MILLISECONDS"
    ∷ codes "PRINT_SENDING_MESSAGES"
    ∷ codes "PRINT_RECEIVING_MESSAGES"
    ∷ codes "PRINT_MINING_MESSAGES"
    ∷ codes "PRINT_INTERRUPT_MESSAGES"
    ∷ codes "PRINT_PEER_CONNECTION_MESSAGES"
    ∷ codes "PRINT_TRANSMISSION_ERRORS"
    ∷ codes "PRINT_VERIFYING_TXS"
    ∷ codes "CAN_INTERRUPT"
    ∷ codes "MAX_MINE_BLOCKS"
    ∷ codes "BLOCK_SIZE_IN_BYTES"
    ∷ codes "REJECT_CONNECTIONS_FROM_UNKNOWNS"
    ∷ codes "STORE_HASH_FREQ"
    ∷ codes "STORE_HASH_MINUS"
    ∷ codes "PING_MIN_WAIT"
    ∷ codes "PING_MAX_WAIT"
    ∷ codes "PING_REPEAT"
    ∷ codes "STORE_BLOCKS"
    ∷ codes "BLOCKS_STORE_FREQUENCY"
    ∷ codes "NO_DISCARD_LOCAL"
    ∷ codes "UPDATE_COMMITED_TIME_EACH_MILLISECONDS"
    ∷ codes "TRANSACTION_THROUGHPUT_EACH_NODE"
    ∷ codes "IDLE_START_TIME"
    ∷ codes "AT"
    ∷ codes "D"
    ∷ codes "AGING_MONITOR_EACH_MILLISECONDS"
    ∷ codes "CLIENTS_PER_NODE"
    ∷ []

unfoldable pub is_known : Text → List Text → Bool
is_known vname [] = false
is_known vname (x ∷ xs) = text_eq vname x || is_known vname xs

unfoldable pub value_of : Text → List (Text × ℕ) → Option ℕ
value_of vname [] = none
value_of vname ((x, v) ∷ s) = if text_eq vname x then some v else value_of vname s

-- An assignment to the variable with that name.
unfoldable pub set_value : Text → ℕ → List (Text × ℕ) → List (Text × ℕ)
set_value vname v [] = []
set_value vname v ((x, w) ∷ s) =
    let rest = set_value vname v s in if text_eq vname x then (x, v) ∷ s else (x, w) ∷ rest

abbrev pub width : Text → ℕ
width vname = if text_eq vname (codes "AT") || text_eq vname (codes "D") then 64 else 32

-- The cascade of assignments for a name of `KNOWN_VARS`. `COEFF * 0.25 * 1000` is a `double`; where it
-- is no `uint32_t` its conversion has no defined result, which is `none`.
unfoldable pub assign_variable : Text → ℕ → List (Text × ℕ) → Option (List (Text × ℕ))
assign_variable vname vvalue s =
    if text_eq vname (codes "COEFF")
    then (let coeff = vvalue % 2 ^ 32 in
        let mined =
          set_value (codes "EXPECTED_MINE_TIME_IN_MILLISECONDS") (coeff * 250)
            (set_value (codes "COEFF") coeff s) in
        if ltb (coeff * 250) (2 ^ 32)
        then some (set_value (codes "BLOCK_SIZE_IN_BYTES") (coeff * 8 * 1024 % 2 ^ 32) mined)
        else none)
    else some (set_value vname (vvalue % 2 ^ width vname) s)

module _ (trim : Text → Text) where
  -- The pieces between the `=` of one line. Other than two of them are passed over.
  unfoldable pub set_tokens : List Text → List (Text × ℕ) → Option (List (Text × ℕ))
  set_tokens (vname ∷ text ∷ []) s =
      let (vvalue, converted) = safe_stoull (trim text) true in
      if not converted
      then some s
      else if not (is_known (trim vname) known_vars)
      then some s
      else assign_variable (trim vname) vvalue s
  set_tokens _ s = some s

  -- The loop over the lines of the file.
  unfoldable pub set_configuration : List Text → List (Text × ℕ) → Option (List (Text × ℕ))
  unfolding set_tokens
  set_configuration [] s = some s
  set_configuration (l ∷ ls) s = do s' ← set_tokens (split l b'=') s; set_configuration ls s'
