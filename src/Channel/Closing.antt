-- ===== src/Channel/Closing.antt =====
-- lightning/src/ln/channel.rs: the cooperative closing transaction, and the first proposal of one.
pub mod Values
pub mod Message
pub mod Agreed
use Prim.Native.Nat.{Ordering}
use rust_lightning.Prelude.{
  ℕ, ◌+◌, ◌*◌, ◌/◌, ◌%◌, ◌^◌, Bool, true, false, not, ◌&&◌, ◌||◌, Option, none, some, is_some, List,
  [], ◌∷◌, ◌++◌, map, ltb, if◌then◌else◌, length, is_empty, add64, sub64, mul64, neg64, div_i64,
  is_nonneg_i64,
}
use rust_lightning.Bitcoin.{Extern, TxOut, Transaction}
use rust_lightning.Msgs.{ClosingSigned}
use rust_lightning.TransactionUtils.{sort_outputs}
use rust_lightning.Channel.State.{Channel, Services, background, Outcome, done, panicked, Method}

-- `if value as u64 > dust { txouts.push(..) }`
unfoldable pub closing_output : ℕ → ℕ → List ℕ → List (TxOut × Unit {0})
closing_output dust value script_pubkey =
    if ltb dust value
    then (record { value = value; script_pubkey = script_pubkey }, tt) ∷ []
    else []

unfoldable pub closing_value_to_self : Channel → ℕ → ℕ
closing_value_to_self c total_fee_satoshis =
    sub64 (div_i64 c.value_to_self_msat 1000) (if c.channel_outbound then total_fee_satoshis else 0)

unfoldable pub closing_value_to_remote : Channel → ℕ → ℕ
closing_value_to_remote c total_fee_satoshis =
    sub64 (div_i64 (sub64 (mul64 c.channel_value_satoshis 1000) c.value_to_self_msat) 1000)
      (if c.channel_outbound then 0 else total_fee_satoshis)

-- The fee after the adjustment; `none` where the assertion in it fails.
unfoldable pub adjusted_fee : Channel → ℕ → ℕ → ℕ → Option ℕ
adjusted_fee c value_to_self value_to_remote total_fee_satoshis =
    if not (is_nonneg_i64 value_to_self)
    then (if c.channel_outbound
        then some (add64 total_fee_satoshis (neg64 value_to_self))
        else none)
    else if not (is_nonneg_i64 value_to_remote)
    then (if c.channel_outbound
        then none
        else some (add64 total_fee_satoshis (neg64 value_to_remote)))
    else some total_fee_satoshis

module _ (x : Extern) where
  open x use {p2wpkh}

  unfoldable pub get_closing_scriptpubkey : Channel → List ℕ
  get_closing_scriptpubkey c = p2wpkh c.shutdown_pubkey

  unfoldable pub get_closing_transaction_weight : List ℕ → List ℕ → ℕ
  get_closing_transaction_weight a_scriptpubkey b_scriptpubkey =
      (4 + 1 + 36 + 4 + 1 + 1 + 2 * (8 + 1) + 4 + length a_scriptpubkey + length b_scriptpubkey) * 4
      + 2
      + 1
      + 1
      + 2 * (1 + 72)

  -- The outputs, the peer's first. `none`: the peer has one, and its script is not there to unwrap.
  unfoldable pub closing_outputs : Channel → Bool → ℕ → ℕ → Option (List (TxOut × Unit {0}))
  closing_outputs c skip_remote_output value_to_self value_to_remote =
      let ours =
        closing_output c.our_dust_limit_satoshis value_to_self (get_closing_scriptpubkey c) in
      if not skip_remote_output && ltb c.our_dust_limit_satoshis value_to_remote
      then elim c.their_shutdown_scriptpubkey [
        | none ↦ none
        | some script ↦
            some ((record { value = value_to_remote; script_pubkey = script }, tt) ∷ ours)
      ]
      else some ours

  -- `none` where an unwrap or an assertion fails.
  unfoldable pub build_closing_transaction : Channel → ℕ → Bool → Option (Transaction × ℕ)
  unfolding closing_outputs
  build_closing_transaction c proposed_total_fee_satoshis skip_remote_output =
      let value_to_self = closing_value_to_self c proposed_total_fee_satoshis in
      let value_to_remote = closing_value_to_remote c proposed_total_fee_satoshis in
      elim c.funding_txo [
        | none ↦ none
        | some funding_txo ↦
            if not (is_empty c.pending_inbound_htlcs) || not (is_empty c.pending_outbound_htlcs)
            then none
            else elim (adjusted_fee c value_to_self value_to_remote proposed_total_fee_satoshis) [
              | none ↦ none
              | some total_fee_satoshis ↦
                  elim (closing_outputs c skip_remote_output value_to_self value_to_remote) [
                    | none ↦ none
                    | some txouts ↦ some (
                      record {
                        version = 2;
                        lock_time = 0;
                        input =
                            record {
                              previous_output = funding_txo;
                              sequence = 0xffff_ffff;
                              witness = [];
                            }
                            ∷ [];
                        output = map (λ out. out.0) (sort_outputs (λ _ _. Ordering.eq) txouts);
                      },
                      total_fee_satoshis,
                    )
                  ]
            ]
      ]

  module _ (services : Services) where
    open services use {sign_closing_transaction, get_est_sat_per_1000_weight}

    unfoldable pub maybe_propose_first_closing_signed {ℓ} :
        {E : Type ℓ} → Method E (Option ClosingSigned)
    maybe_propose_first_closing_signed c =
        let s = c.channel_state in
        if not c.channel_outbound
          || not (is_empty c.pending_inbound_htlcs)
          || not (is_empty c.pending_outbound_htlcs)
          || not (s.local_shutdown_sent && s.remote_shutdown_sent)
          || s.awaiting_remote_revoke
          || is_some c.last_sent_closing_fee
          || is_some c.pending_update_fee
        then done none c
        else let estimate = get_est_sat_per_1000_weight background in
          let proposed_feerate =
            (if ltb estimate c.feerate_per_kw then c.feerate_per_kw else estimate) in
          elim c.their_shutdown_scriptpubkey [
            | none ↦ panicked
            | some their_script ↦
                let tx_weight =
                  get_closing_transaction_weight (get_closing_scriptpubkey c) their_script in
                let proposed_total_fee_satoshis = mul64 proposed_feerate tx_weight / 1000 in
                elim (build_closing_transaction c proposed_total_fee_satoshis false) [
                  | none ↦ panicked
                  | some (closing_tx, total_fee_satoshis) ↦
                      elim (sign_closing_transaction closing_tx) [
                        | none ↦ done none c
                        | some our_sig ↦
                            done
                              (some (record {
                                channel_id = c.channel_id;
                                fee_satoshis = total_fee_satoshis;
                                signature = our_sig;
                              }))
                              (record c {
                                last_sent_closing_fee =
                                    some (proposed_feerate, total_fee_satoshis, our_sig);
                              })
                      ]
                ]
          ]
