-- ===== src/ChanUtils/Htlc.antt =====
-- lightning/src/ln/chan_utils.rs: an HTLC as it stands in a commitment transaction, the scripts of
-- the outputs, and the transaction that spends an HTLC output.
use rust_lightning.Prelude.{
  ℕ, ◌/◌, Bool, Option, none, some, List, [], ◌∷◌, ◌++◌, mul64, sub64, bytes_ltb, if◌then◌else◌,
}
use rust_lightning.Bitcoin.{
  Extern, Instruction, op, push_slice, push_int, op_if, op_notif, op_else, op_endif, op_csv,
  op_cltv, op_drop, op_dup, op_swap, op_size, op_equal, op_equalverify, op_hash160, op_checksig,
  op_checkmultisig, op_pushnum_2, Transaction,
}
use rust_lightning.ChanUtils.Keys.{TxCreationKeys}

abbrev pub htlc_success_tx_weight : ℕ
htlc_success_tx_weight = 703

abbrev pub htlc_timeout_tx_weight : ℕ
htlc_timeout_tx_weight = 663

pub record HtlcOutputInCommitment : Type 0 where
  pub offered : Bool
  pub amount_msat : ℕ
  pub cltv_expiry : ℕ
  pub payment_hash : ℕ
  pub transaction_output_index : Option ℕ

module _ (x : Extern) where
  open x use {sha256, ripemd160, hash_bytes, serialize, to_v0_p2wsh}

  unfoldable pub get_revokeable_redeemscript : ℕ → ℕ → ℕ → List Instruction
  get_revokeable_redeemscript revocation_key to_self_delay delayed_payment_key =
      op op_if
      ∷ push_slice (serialize revocation_key)
      ∷ op op_else
      ∷ push_int to_self_delay
      ∷ op op_csv
      ∷ op op_drop
      ∷ push_slice (serialize delayed_payment_key)
      ∷ op op_endif
      ∷ op op_checksig
      ∷ []

  -- `Hash160::hash`
  hash160 : List ℕ → List ℕ
  hash160 bytes = ripemd160 (sha256 bytes)

  revocation_branch : ℕ → List Instruction
  revocation_branch revocation_key =
      op op_dup
      ∷ op op_hash160
      ∷ push_slice (hash160 (serialize revocation_key))
      ∷ op op_equal
      ∷ op op_if
      ∷ op op_checksig
      ∷ op op_else
      ∷ []

  claim_branch : ℕ → List Instruction
  claim_branch payment_hash =
      op op_hash160 ∷ push_slice (ripemd160 (hash_bytes payment_hash)) ∷ op op_equalverify ∷ []

  both_keys : ℕ → List Instruction
  both_keys a_htlc_key =
      push_int 2
      ∷ op op_swap
      ∷ push_slice (serialize a_htlc_key)
      ∷ push_int 2
      ∷ op op_checkmultisig
      ∷ op op_else
      ∷ []

  size_test : ℕ → List Instruction
  size_test b_htlc_key =
      push_slice (serialize b_htlc_key) ∷ op op_swap ∷ op op_size ∷ push_int 32 ∷ op op_equal ∷ []

  -- `get_htlc_redeemscript`, with the keys of `get_htlc_redeemscript_with_explicit_keys` taken out
  unfoldable pub get_htlc_redeemscript : HtlcOutputInCommitment → TxCreationKeys → List Instruction
  unfolding revocation_branch claim_branch both_keys size_test hash160
  get_htlc_redeemscript htlc keys =
      if htlc.offered
      then (revocation_branch keys.revocation_key
          ++ (size_test keys.b_htlc_key
              ++ ((op op_notif ∷ op op_drop ∷ [])
                  ++ (both_keys keys.a_htlc_key
                      ++ (claim_branch htlc.payment_hash
                          ++ (op op_checksig ∷ op op_endif ∷ op op_endif ∷ []))))))
      else (revocation_branch keys.revocation_key
          ++ (size_test keys.b_htlc_key
              ++ ((op op_if ∷ [])
                  ++ (claim_branch htlc.payment_hash
                      ++ (both_keys keys.a_htlc_key
                          ++ (op op_drop
                              ∷ push_int htlc.cltv_expiry
                              ∷ op op_cltv
                              ∷ op op_drop
                              ∷ op op_checksig
                              ∷ op op_endif
                              ∷ op op_endif
                              ∷ []))))))

  -- Two keys, the smaller serialization first.
  unfoldable pub make_funding_redeemscript : ℕ → ℕ → List Instruction
  make_funding_redeemscript a b =
      let our_funding_key = serialize a in
      let their_funding_key = serialize b in
      op op_pushnum_2
      ∷ ((if bytes_ltb our_funding_key their_funding_key
            then push_slice our_funding_key ∷ push_slice their_funding_key ∷ []
            else push_slice their_funding_key ∷ push_slice our_funding_key ∷ [])
          ++ (op op_pushnum_2 ∷ op op_checkmultisig ∷ []))

  -- `none`: panics for an HTLC with no output.
  unfoldable pub build_htlc_transaction :
      ℕ → ℕ → ℕ → HtlcOutputInCommitment → ℕ → ℕ → Option Transaction
  build_htlc_transaction prev_hash feerate_per_kw to_self_delay htlc a_delayed_payment_key
        revocation_key =
      let total_fee =
        (if htlc.offered
          then mul64 feerate_per_kw htlc_timeout_tx_weight / 1000
          else mul64 feerate_per_kw htlc_success_tx_weight / 1000) in
      elim htlc.transaction_output_index [
        | none ↦ none
        | some vout ↦ some (record {
          version = 2;
          lock_time = if htlc.offered then htlc.cltv_expiry else 0;
          input =
              record {
                previous_output = record { txid = prev_hash; vout = vout };
                sequence = 0;
                witness = [];
              }
              ∷ [];
          output =
              record {
                value = sub64 (htlc.amount_msat / 1000) total_fee;
                script_pubkey = to_v0_p2wsh (
                    get_revokeable_redeemscript revocation_key to_self_delay a_delayed_payment_key);
              }
              ∷ [];
        })
      ]
