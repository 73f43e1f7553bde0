-- ===== src/Channel/Signed.antt =====
-- lightning/src/ln/channel.rs: `commitment_signed`. The peer signs our next commitment transaction;
-- we revoke the one before it. The logging is left out, and in the update for the monitor the witness
-- that `LocalCommitmentTransaction::new_missing_local_sig` adds to the transaction.
pub mod Balance
pub mod Message
pub mod Safety
use rust_lightning.Prelude.{
  ℕ, suc, ◌+◌, ◌*◌, ◌/◌, Bool, true, false, not, ◌&&◌, ◌||◌, Option, none, some, List, [], ◌∷◌,
  ◌++◌, if◌then◌else◌, ◌==◌, ltb, length, get_elem?, add64, sub64, mul64, is_some,
}
use rust_lightning.Bitcoin.{Extern, Transaction}
use rust_lightning.Msgs.{CommitmentSigned, RevokeAndAck, ClosingSigned}
use rust_lightning.ChanUtils.Keys.{TxCreationKeys}
use rust_lightning.ChanUtils.Secrets.{build_commitment_secret}
use rust_lightning.ChanUtils.Htlc.{
  HtlcOutputInCommitment, get_htlc_redeemscript, make_funding_redeemscript, build_htlc_transaction,
}
use rust_lightning.Channel.Types.{
  HtlcSource, InboundHtlcState, InboundHtlcOutput, OutboundHtlcState, OutboundHtlcOutput,
  commitment_first,
}
use rust_lightning.Channel.State.{
  Channel, Services, ChannelMonitorUpdate, latest_local_commitment_tx_info, ChannelError, close,
  ignore, Outcome, done, failed, panicked, Method, ◌>>=◌, ◌>>◌, unwrap, raise_if, Reason,
  not_operational, needs_channel_reestablish, after_closing_signed, invalid_signature,
  cannot_afford_fee, wrong_signature_count, invalid_htlc_signature, disconnected_or_frozen,
}
use rust_lightning.Channel.Transaction.{SourcedHtlc, build_commitment_transaction, commitment_fee}
use rust_lightning.Channel.Closing.{maybe_propose_first_closing_signed}
use rust_lightning.Channel.Commit.{
  build_local_commitment_secret, build_local_transaction_keys, send_commitment_no_status_check,
  joined,
}

-- An error may carry an update for the monitor.
abbrev pub SignedError : Type 0
SignedError = Option ChannelMonitorUpdate × ChannelError

abbrev pub no_update {ℓ} : {A : Type ℓ} → Method ChannelError A → Method SignedError A
no_update m c = elim (m c) [
  | panicked ↦ panicked
  | failed e c1 ↦ failed (none, e) c1
  | done a c1 ↦ done a c1
]

-- The fee that the peer, the funder, asks for, and the feerate of our next transaction.
abbrev pub proposed_fee : Channel → Option ℕ
proposed_fee c = if c.channel_outbound then none else c.pending_update_fee

abbrev pub local_feerate : Channel → ℕ
local_feerate c = elim (proposed_fee c) [ none ↦ c.feerate_per_kw | some feerate ↦ feerate ]

-- The funder cannot pay the new fee and keep its reserve.
unfoldable pub is_unaffordable : Channel → ℕ → Bool
is_unaffordable c num_htlcs = elim (proposed_fee c) [
  | none ↦ false
  | some feerate ↦
      ltb (sub64 c.channel_value_satoshis (c.value_to_self_msat / 1000))
        (add64 (commitment_fee feerate num_htlcs) c.their_channel_reserve_satoshis)
]

-- The last two loops, each with its `need_our_commitment`.
unfoldable pub sign_inbound : List InboundHtlcOutput → List InboundHtlcOutput × Bool
sign_inbound [] = ([], false)
sign_inbound (htlc ∷ htlcs) =
    let rest = sign_inbound htlcs in
    elim htlc.state [
      | InboundHtlcState.remote_announced status ↦ (
        record htlc { state = InboundHtlcState.awaiting_remote_revoke_to_announce status } ∷ rest.0,
        true,
      )
      | InboundHtlcState.awaiting_remote_revoke_to_announce _ ↦ (htlc ∷ rest.0, rest.1)
      | InboundHtlcState.awaiting_announced_remote_revoke _ ↦ (htlc ∷ rest.0, rest.1)
      | InboundHtlcState.committed ↦ (htlc ∷ rest.0, rest.1)
      | InboundHtlcState.local_removed _ ↦ (htlc ∷ rest.0, rest.1)
    ]

unfoldable pub sign_outbound : List OutboundHtlcOutput → List OutboundHtlcOutput × Bool
sign_outbound [] = ([], false)
sign_outbound (htlc ∷ htlcs) =
    let rest = sign_outbound htlcs in
    elim htlc.state [
      | OutboundHtlcState.remote_removed fail_reason ↦ (
        record htlc { state = OutboundHtlcState.awaiting_remote_revoke_to_remove fail_reason }
            ∷ rest.0,
        true,
      )
      | OutboundHtlcState.local_announced _ ↦ (htlc ∷ rest.0, rest.1)
      | OutboundHtlcState.committed ↦ (htlc ∷ rest.0, rest.1)
      | OutboundHtlcState.awaiting_remote_revoke_to_remove _ ↦ (htlc ∷ rest.0, rest.1)
      | OutboundHtlcState.awaiting_removed_remote_revoke _ ↦ (htlc ∷ rest.0, rest.1)
    ]

-- The fee is applied; it stays pending while we wait for a revocation.
unfoldable pub accept_fee : Channel → Channel × Bool
accept_fee c = elim (proposed_fee c) [
  | none ↦ (c, false)
  | some feerate ↦
      if c.channel_state.awaiting_remote_revoke
      then (record c { feerate_per_kw = feerate }, false)
      else (record c { feerate_per_kw = feerate; pending_update_fee = none }, true)
]

-- The state after all checks: the fee, the monitor, the HTLCs and our transaction's number.
abbrev pub local_update :
    Transaction
    → TxCreationKeys
    → List (HtlcOutputInCommitment × Option ℕ × Option HtlcSource)
    → Channel
    → ChannelMonitorUpdate
local_update tx keys htlcs_and_sigs c = record {
  update_id = add64 c.latest_monitor_update_id 1;
  updates =
      latest_local_commitment_tx_info tx keys (accept_fee c).0.feerate_per_kw htlcs_and_sigs ∷ [];
}

unfoldable pub accept_signature : ChannelMonitorUpdate → Channel → Channel × Bool
unfolding accept_fee sign_inbound sign_outbound
accept_signature update c =
    let fee = accept_fee c in
    let inbound = sign_inbound c.pending_inbound_htlcs in
    let outbound = sign_outbound c.pending_outbound_htlcs in
    (
      record fee.0 {
        latest_monitor_update_id = update.update_id;
        channel_monitor = c.channel_monitor ++ update.updates;
        pending_inbound_htlcs = inbound.0;
        pending_outbound_htlcs = outbound.0;
        cur_local_commitment_transaction_number = sub64 c.cur_local_commitment_transaction_number 1;
        resend_order = commitment_first;
      },
      fee.1 || inbound.1 || outbound.1,
    )
