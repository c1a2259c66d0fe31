-- ===== src/Requests/Payload.antt =====
-- code/requests.cpp: the messages `full_block` and `transactions`. Files are written
-- (WRITE_BLOCKS_TO_HDD is on); `text` is what the file of a block holds. `mpl` is
-- `merkle_proof_length()` of code/verify.cpp, a floating-point expression. `none` is `exit`, or a read
-- past the end of a vector.
pub mod Short
pub mod Values
pub mod Trip
mod Examples
use ohie.Base.{
  ℕ, ◌+◌, ◌%◌, ◌^◌, List, [], ◌∷◌, ◌++◌, Bool, true, false, ◌==◌, Option, none, some, ltb,
  if◌then◌else◌, ◌>>=◌, get_elem?, length, take, drop,
}
use ohie.Config.{Config}
use ohie.StdMap.{Entries}
use ohie.Text.{Text, codes}
use ohie.Text.Number.{to_string, safe_stoi, safe_stoull}
use ohie.Text.Split.{join, split}
use ohie.Blockchain.State.{NetworkBlock}
use ohie.Requests.{Node, Request, Parsed, accept, key_present, head_of, in_range, comma}

-- The fields behind the text: what `process_block` left out, and the time of sending.
abbrev pub rest_fields : NetworkBlock → ℕ → List Text
rest_fields nb now =
    to_string nb.trailing
    ∷ to_string nb.trailing_id
    ∷ nb.merkle_root_chains
    ∷ nb.merkle_root_txs
    ∷ (nb.proof_new_chain ++ to_string nb.time_mined ∷ to_string now ∷ [])

-- A file of less than 10 bytes, or a block with no data, ends the program.
unfoldable pub create__full_block : Node → ℕ → ℕ → Text → Option NetworkBlock → ℕ → Option Text
create__full_block node chain_id hash text block_data now =
    if ltb (length text) 10 then none else do
      nb ← block_data
      some (
          join
            (head_of "#full_block" node
              (to_string chain_id ∷ to_string hash ∷ text ∷ rest_fields nb now))
            comma)

-- A full block as it is read.
pub record FullBlock : Type 0 where
  pub request : Request
  pub txs : Text
  pub trailing : ℕ
  pub trailing_id : ℕ
  pub merkle_root_chains : Text
  pub merkle_root_txs : Text
  pub proof_new_chain : List Text
  pub time_mined : ℕ
  pub sent_time : ℕ

-- The test of the size lets a message through that has one field less than is read.
unfoldable pub parse__full_block :
    Config → (Text → Text) → ℕ → List Text → Entries Text ℕ → Option (Parsed FullBlock)
parse__full_block cfg get_ip mpl sp passed =
    if ltb (length sp) (11 + mpl) then some (passed, none) else do
      s0 ← get_elem? sp 0
      s1 ← get_elem? sp 1
      s2 ← get_elem? sp 2
      s3 ← get_elem? sp 3
      s4 ← get_elem? sp 4
      let (present, passed') = key_present (s0 ++ s1 ++ s2 ++ s3 ++ s4) passed
      elim present [
        | true ↦ some (passed', none)
        | false ↦ do
          let (port, p1) = safe_stoi s2 true
          let (chain_id, p2) = safe_stoi s3 p1
          let (hash, p3) = safe_stoull s4 p2
          txs ← get_elem? sp 5
          s6 ← get_elem? sp 6
          s7 ← get_elem? sp 7
          root ← get_elem? sp 8
          root_txs ← get_elem? sp 9
          mined ← get_elem? sp (10 + mpl)
          sent ← get_elem? sp (11 + mpl)
          let (trailing, p4) = safe_stoull s6 p3
          let (trailing_id, p5) = safe_stoull s7 p4
          let (time_mined, p6) = safe_stoull mined p5
          let (sent_time, p7) = safe_stoull sent p6
          some (
              accept cfg (s0 ++ s1 ++ s2 ++ s3 ++ s4) passed (in_range cfg p7 (get_ip s1) chain_id)
                (record {
                  request = record {
                    sender_ip = get_ip s1;
                    sender_port = port;
                    chain_id = chain_id;
                    hash = hash;
                  };
                  txs = txs;
                  trailing = trailing;
                  trailing_id = trailing_id % 2 ^ 32;
                  merkle_root_chains = root;
                  merkle_root_txs = root_txs;
                  proof_new_chain = take mpl (drop 10 sp);
                  time_mined = time_mined;
                  sent_time = sent_time;
                }))
      ]

unfoldable pub create__transactions : Node → List Text → Text
create__transactions node transactions =
    join (head_of "#transactions" node (join transactions b';' ∷ [])) comma

-- `split` never gives an empty list, so the source's test for one never fails.
unfoldable pub parse__transactions : List Text → Option (List Text)
parse__transactions (a ∷ b ∷ c ∷ d ∷ []) = some (split d b';')
parse__transactions _ = none
