-- ===== src/Channel/Commitment.antt =====
-- lightning/src/ln/channel.rs: `build_commitment_transaction`. Logging has no effect, and the running
-- maxima that only debug builds keep are left out.
pub mod Balance
use Prim.Native.Nat.{compare, Ordering, bit_xor, bit_or}
use rust_lightning.Prelude.{
  ℕ, suc, ◌+◌, ◌-◌, ◌*◌, ◌/◌, ◌%◌, ◌^◌, Bool, true, false, not, ◌&&◌, Option, none, some, List, [],
  ◌∷◌, ◌++◌, leb, if◌then◌else◌, drop, get_or, length, add64, sub64, mul64, is_nonneg_i64, le_i64,
}
use rust_lightning.Bitcoin.{Extern, TxOut, TxIn, Transaction, OutPoint}
use rust_lightning.ChanUtils.Keys.{TxCreationKeys, ChannelPublicKeys}
use rust_lightning.ChanUtils.Htlc.{
  HtlcOutputInCommitment, htlc_success_tx_weight, htlc_timeout_tx_weight, get_htlc_redeemscript,
  get_revokeable_redeemscript,
}
use rust_lightning.TransactionUtils.{sort_outputs, then_with}
use rust_lightning.Channel.Types.{
  HtlcSource, InboundHtlcRemovalReason, fail_relay, fail_malformed, fulfill, InboundHtlcState,
  InboundHtlcOutput, OutboundHtlcState, OutboundHtlcOutput,
}
use rust_lightning.Channel.State.{
  Channel, initial_commitment_number, commitment_tx_base_weight, commitment_tx_weight_per_htlc,
}

-- Which HTLCs a transaction holds that we (`true`) or the peer (`false`) generated.
abbrev pub inbound_included : Bool → InboundHtlcState → Bool
inbound_included generated_by_local (InboundHtlcState.remote_announced _) = not generated_by_local
inbound_included generated_by_local (InboundHtlcState.awaiting_remote_revoke_to_announce _) =
    not generated_by_local
inbound_included generated_by_local (InboundHtlcState.awaiting_announced_remote_revoke _) = true
inbound_included generated_by_local InboundHtlcState.committed = true
inbound_included generated_by_local (InboundHtlcState.local_removed _) = not generated_by_local

abbrev pub outbound_included : Bool → OutboundHtlcState → Bool
outbound_included generated_by_local (OutboundHtlcState.local_announced _) = generated_by_local
outbound_included generated_by_local OutboundHtlcState.committed = true
outbound_included generated_by_local (OutboundHtlcState.remote_removed _) = generated_by_local
outbound_included generated_by_local (OutboundHtlcState.awaiting_remote_revoke_to_remove _) =
    generated_by_local
outbound_included generated_by_local (OutboundHtlcState.awaiting_removed_remote_revoke _) = false

-- An HTLC that is left out moves its amount to the side that it was fulfilled for.
abbrev pub inbound_fulfilled : Bool → InboundHtlcState → Bool
inbound_fulfilled generated_by_local (InboundHtlcState.local_removed (fulfill _)) =
    generated_by_local
inbound_fulfilled generated_by_local _ = false

abbrev pub outbound_fulfilled : Bool → OutboundHtlcState → Bool
outbound_fulfilled generated_by_local (OutboundHtlcState.remote_removed none) =
    not generated_by_local
outbound_fulfilled generated_by_local (OutboundHtlcState.awaiting_remote_revoke_to_remove none) =
    not generated_by_local
outbound_fulfilled generated_by_local (OutboundHtlcState.awaiting_removed_remote_revoke none) = true
outbound_fulfilled generated_by_local _ = false

-- The sums of the two loops. Addition modulo 2 ^ 64 does not depend on the order.
module _ (generated_by_local : Bool) where
  unfoldable pub remote_htlc_total_msat : List InboundHtlcOutput → ℕ
  remote_htlc_total_msat [] = 0
  remote_htlc_total_msat (htlc ∷ htlcs) =
      let rest = remote_htlc_total_msat htlcs in
      if inbound_included generated_by_local htlc.state then add64 rest htlc.amount_msat else rest

  unfoldable pub local_htlc_total_msat : List OutboundHtlcOutput → ℕ
  local_htlc_total_msat [] = 0
  local_htlc_total_msat (htlc ∷ htlcs) =
      let rest = local_htlc_total_msat htlcs in
      if outbound_included generated_by_local htlc.state then add64 rest htlc.amount_msat else rest

  -- `value_to_self_msat_offset: i64`, first over the inbound HTLCs, then over the outbound ones
  unfoldable pub inbound_offset : List InboundHtlcOutput → ℕ
  inbound_offset [] = 0
  inbound_offset (htlc ∷ htlcs) =
      let rest = inbound_offset htlcs in
      if inbound_fulfilled generated_by_local htlc.state then add64 rest htlc.amount_msat else rest

  unfoldable pub value_to_self_msat_offset : List OutboundHtlcOutput → ℕ → ℕ
  value_to_self_msat_offset [] start = start
  value_to_self_msat_offset (htlc ∷ htlcs) start =
      let rest = value_to_self_msat_offset htlcs start in
      if outbound_fulfilled generated_by_local htlc.state then sub64 rest htlc.amount_msat else rest

  -- What is left to us and to the peer; `none` where one of the assertions fails.
  unfoldable pub commitment_values : Channel → Option (ℕ × ℕ)
  commitment_values c =
      let offset =
        value_to_self_msat_offset c.pending_outbound_htlcs
          (inbound_offset c.pending_inbound_htlcs) in
      let value_to_self_msat =
        add64 (sub64 c.value_to_self_msat (local_htlc_total_msat c.pending_outbound_htlcs))
          offset in
      let value_to_remote_msat =
        sub64
          (sub64 (sub64 (mul64 c.channel_value_satoshis 1000) c.value_to_self_msat)
            (remote_htlc_total_msat c.pending_inbound_htlcs))
          offset in
      if is_nonneg_i64 value_to_self_msat && is_nonneg_i64 value_to_remote_msat
      then some (value_to_self_msat, value_to_remote_msat)
      else none
