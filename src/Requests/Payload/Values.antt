-- ===== src/Requests/Payload/Values.antt =====
-- code/requests.cpp: what `parse__full_block` reads from fields with given values.
use ohie.Base.{
  ℕ, ◌+◌, ◌^◌, ◌%◌, ◌<◌, ◌≡◌, refl, ap, List, ◌++◌, true, false, Option, none, some, arith, length,
  get_elem?, take, drop, ltb,
}
use ohie.Config.{Config}
use ohie.StdMap.{Entries, lookup, insert}
use ohie.Text.{Text}
use ohie.Text.Number.{safe_stoi, safe_stoull}
use ohie.Text.Order.{text_order}
use ohie.Requests.{Parsed, key_present}
use ohie.Requests.RoundTrip.{accept_new}
use ohie.Requests.Payload.Short.{pass}
use ohie.Requests.Payload.{FullBlock, parse__full_block}

key_new :
    (key : Text) (passed : Entries Text ℕ)
    → lookup key passed ≡ none
    → key_present key passed ≡ (false, insert key 1 passed)
unfolding key_present
key_new key passed e = rw (e, key_present) refl

module _ (cfg : Config) (get_ip : Text → Text) (mpl : ℕ) (sp : List Text) (passed : Entries Text ℕ)
    (f : FullBlock) (s0 s1 s2 s3 s4 s6 s7 mined sent : Text) where
  abbrev pub read_key : Text
  read_key = s0 ++ s1 ++ s2 ++ s3 ++ s4

  -- A message whose fields have these values.
  pub parse_values :
      ltb (length sp) (11 + mpl) ≡ false
      → (get_elem? sp 0 ≡ some s0)
        × (get_elem? sp 1 ≡ some s1)
        × (get_elem? sp 2 ≡ some s2)
        × (get_elem? sp 3 ≡ some s3)
        × (get_elem? sp 4 ≡ some s4)
        × (get_elem? sp 5 ≡ some f.txs)
        × (get_elem? sp 6 ≡ some s6)
        × (get_elem? sp 7 ≡ some s7)
        × (get_elem? sp 8 ≡ some f.merkle_root_chains)
        × (get_elem? sp 9 ≡ some f.merkle_root_txs)
        × (get_elem? sp (10 + mpl) ≡ some mined)
        × (get_elem? sp (11 + mpl) ≡ some sent)
        × (take mpl (drop 10 sp) ≡ f.proof_new_chain)
      → (get_ip s1 ≡ f.request.sender_ip)
        × (safe_stoi s2 true ≡ (f.request.sender_port, true))
        × (safe_stoi s3 true ≡ (f.request.chain_id, true))
        × (safe_stoull s4 true ≡ (f.request.hash, true))
        × (safe_stoull s6 true ≡ (f.trailing, true))
        × (safe_stoull s7 true ≡ (f.trailing_id, true))
        × (safe_stoull mined true ≡ (f.time_mined, true))
        × (safe_stoull sent true ≡ (f.sent_time, true))
      → f.trailing_id % 2 ^ 32 ≡ f.trailing_id
      → 0 < length f.request.sender_ip
      → f.request.chain_id < cfg.chains
      → lookup read_key passed ≡ none
      → parse__full_block cfg get_ip mpl sp passed ≡ some (insert read_key 1 passed, some f)
  unfolding parse__full_block
  parse_values few (e0, e1, e2, e3, e4, e5, e6, e7, e8, e9, em, es, proof)
        (n1, n2, n3, n4, n6, n7, nm, ns) keeps ip c new =
      let P : Option (Parsed FullBlock) → Type 0 =
        λ o. o ≡ some (insert read_key 1 passed, some f) in
      rw (parse__full_block, few)
        (pass P _ e0 (
          pass P _ e1 (
            pass P _ e2 (
              pass P _ e3 (
                pass P _ e4 (
                  rw (key_new read_key passed new) (
                    pass P _ e5 (
                      pass P _ e6 (
                        pass P _ e7 (
                          pass P _ e8 (
                            pass P _ e9 (
                              pass P _ em (
                                pass P _ es (
                                  rw (n1, n2, n3, n4, n6, n7, nm, ns, keeps, proof)
                                    (ap some (
                                      accept_new cfg read_key passed _ f (ground (arith, ip, c))
                                        new))))))))))))))))
