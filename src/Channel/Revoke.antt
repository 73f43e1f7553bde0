-- ===== src/Channel/Revoke.antt =====
-- lightning/src/ln/channel.rs: `revoke_and_ack`. The peer revokes its old commitment transaction,
-- which moves every HTLC on and may free what waited for it.
pub mod Balance
pub mod Message
pub mod Safety
use rust_lightning.Prelude.{
  ℕ, ◌+◌, Bool, true, false, not, ◌&&◌, ◌||◌, Option, none, some, List, [], ◌∷◌, ◌++◌,
  if◌then◌else◌, ◌==◌, add64, sub64, is_some,
}
use rust_lightning.Bitcoin.{Extern}
use rust_lightning.Msgs.{
  RevokeAndAck, UpdateFailHtlc, UpdateFailMalformedHtlc, CommitmentUpdate, ClosingSigned,
}
use rust_lightning.ChanUtils.Secrets.{provide_secret}
use rust_lightning.Channel.Types.{
  HtlcSource, PendingHtlcInfo, PendingHtlcStatus, forward, fail, relay, malformed, HtlcFailReason,
  fail_relay, fail_malformed, fulfill, InboundHtlcState, InboundHtlcOutput, OutboundHtlcState,
  OutboundHtlcOutput,
}
use rust_lightning.Channel.State.{
  Channel, Services, ChannelMonitorUpdateStep, commitment_secret, ChannelMonitorUpdate,
  ChannelError, close, Outcome, done, failed, panicked, Method, ◌>>=◌, ◌>>◌, raise_if,
  not_operational, needs_channel_reestablish, after_closing_signed, invalid_secret, wrong_secret,
  unexpected_revoke_and_ack, mismatched_secrets,
}
use rust_lightning.Channel.Remove.{is_local_removed}
use rust_lightning.Channel.Closing.{maybe_propose_first_closing_signed}
use rust_lightning.Channel.Commit.{ok_or_close, send_commitment_no_status_check}
use rust_lightning.Channel.HoldingCell.{free_holding_cell_htlcs}

-- The first two loops: `retain` and `value_to_self_msat_diff: i64`, first what we claimed, then what
-- the peer claimed.
abbrev pub is_claimed : InboundHtlcState → Bool
is_claimed (InboundHtlcState.local_removed (fulfill _)) = true
is_claimed _ = false

unfoldable pub retain_inbound : List InboundHtlcOutput → List InboundHtlcOutput
retain_inbound [] = []
retain_inbound (htlc ∷ htlcs) =
    let rest = retain_inbound htlcs in if is_local_removed htlc.state then rest else htlc ∷ rest

unfoldable pub claimed_diff : List InboundHtlcOutput → ℕ
claimed_diff [] = 0
claimed_diff (htlc ∷ htlcs) =
    let rest = claimed_diff htlcs in
    if is_claimed htlc.state then add64 rest htlc.amount_msat else rest

abbrev pub is_removed : OutboundHtlcState → Bool
is_removed (OutboundHtlcState.awaiting_removed_remote_revoke _) = true
is_removed _ = false

unfoldable pub retain_outbound : List OutboundHtlcOutput → List OutboundHtlcOutput
retain_outbound [] = []
retain_outbound (htlc ∷ htlcs) =
    let rest = retain_outbound htlcs in if is_removed htlc.state then rest else htlc ∷ rest

unfoldable pub value_to_self_msat_diff : List OutboundHtlcOutput → ℕ → ℕ
value_to_self_msat_diff [] start = start
value_to_self_msat_diff (htlc ∷ htlcs) start =
    let rest = value_to_self_msat_diff htlcs start in
    elim htlc.state [
      | OutboundHtlcState.awaiting_removed_remote_revoke none ↦ sub64 rest htlc.amount_msat
      | OutboundHtlcState.awaiting_removed_remote_revoke (some _) ↦ rest
      | OutboundHtlcState.local_announced _ ↦ rest
      | OutboundHtlcState.committed ↦ rest
      | OutboundHtlcState.remote_removed _ ↦ rest
      | OutboundHtlcState.awaiting_remote_revoke_to_remove _ ↦ rest
    ]

-- The failed ones among the HTLCs that the second loop removes.
unfoldable pub revoked_htlcs : List OutboundHtlcOutput → List (HtlcSource × ℕ × HtlcFailReason)
revoked_htlcs [] = []
revoked_htlcs (htlc ∷ htlcs) = elim htlc.state [
  | OutboundHtlcState.awaiting_removed_remote_revoke (some fail_reason) ↦
      (htlc.source, htlc.payment_hash, fail_reason) ∷ revoked_htlcs htlcs
  | OutboundHtlcState.awaiting_removed_remote_revoke none ↦ revoked_htlcs htlcs
  | OutboundHtlcState.local_announced _ ↦ revoked_htlcs htlcs
  | OutboundHtlcState.committed ↦ revoked_htlcs htlcs
  | OutboundHtlcState.remote_removed _ ↦ revoked_htlcs htlcs
  | OutboundHtlcState.awaiting_remote_revoke_to_remove _ ↦ revoked_htlcs htlcs
]

-- What the third loop gives: the HTLCs, and what is to be done about them.
pub record Promoted : Type 0 where
  pub htlcs : List InboundHtlcOutput
  pub to_forward_infos : List (PendingHtlcInfo × ℕ)
  pub update_fail_htlcs : List UpdateFailHtlc
  pub update_fail_malformed_htlcs : List UpdateFailMalformedHtlc
  pub require_commitment : Bool

abbrev pub nothing_promoted : Promoted
nothing_promoted = record {
  htlcs = [];
  to_forward_infos = [];
  update_fail_htlcs = [];
  update_fail_malformed_htlcs = [];
  require_commitment = false;
}

abbrev pub keep_htlc : InboundHtlcOutput → Promoted → Promoted
keep_htlc htlc rest = record rest { htlcs = htlc ∷ rest.htlcs }

abbrev pub with_state : InboundHtlcOutput → InboundHtlcState → InboundHtlcOutput
with_state htlc s = record htlc { state = s }

unfoldable pub promote_inbound : List InboundHtlcOutput → Promoted
promote_inbound [] = nothing_promoted
promote_inbound (htlc ∷ htlcs) =
    let rest = promote_inbound htlcs in
    elim htlc.state [
      | InboundHtlcState.remote_announced _ ↦ keep_htlc htlc rest
      | InboundHtlcState.awaiting_remote_revoke_to_announce status ↦
          record (keep_htlc
            (with_state htlc (InboundHtlcState.awaiting_announced_remote_revoke status)) rest) {
              require_commitment = true;
            }
      | InboundHtlcState.awaiting_announced_remote_revoke (fail (relay msg)) ↦
          record (keep_htlc
            (with_state htlc (InboundHtlcState.local_removed (fail_relay msg.reason))) rest) {
              update_fail_htlcs = msg ∷ rest.update_fail_htlcs;
              require_commitment = true;
            }
      | InboundHtlcState.awaiting_announced_remote_revoke (fail (malformed msg)) ↦
          record (keep_htlc
            (with_state htlc (
              InboundHtlcState.local_removed (fail_malformed msg.sha256_of_onion msg.failure_code)))
            rest) {
              update_fail_malformed_htlcs = msg ∷ rest.update_fail_malformed_htlcs;
              require_commitment = true;
            }
      | InboundHtlcState.awaiting_announced_remote_revoke (forward info) ↦
          record (keep_htlc (with_state htlc InboundHtlcState.committed) rest) {
            to_forward_infos = (info, htlc.htlc_id) ∷ rest.to_forward_infos;
          }
      | InboundHtlcState.committed ↦ keep_htlc htlc rest
      | InboundHtlcState.local_removed _ ↦ keep_htlc htlc rest
    ]

-- The last loop, with its `require_commitment`.
unfoldable pub promote_outbound : List OutboundHtlcOutput → List OutboundHtlcOutput × Bool
promote_outbound [] = ([], false)
promote_outbound (htlc ∷ htlcs) =
    let rest = promote_outbound htlcs in
    elim htlc.state [
      | OutboundHtlcState.local_announced _ ↦
          (record htlc { state = OutboundHtlcState.committed } ∷ rest.0, rest.1)
      | OutboundHtlcState.awaiting_remote_revoke_to_remove fail_reason ↦ (
        record htlc { state = OutboundHtlcState.awaiting_removed_remote_revoke fail_reason }
            ∷ rest.0,
        true,
      )
      | OutboundHtlcState.committed ↦ (htlc ∷ rest.0, rest.1)
      | OutboundHtlcState.remote_removed _ ↦ (htlc ∷ rest.0, rest.1)
      | OutboundHtlcState.awaiting_removed_remote_revoke _ ↦ (htlc ∷ rest.0, rest.1)
    ]

-- The fee that the revocation makes effective, and whether it asks for a commitment_signed.
unfoldable pub step_fee : Channel → Channel × Bool
step_fee c = elim c.pending_update_fee [
  | none ↦ (c, false)
  | some feerate ↦
      if c.channel_outbound
      then (record c { feerate_per_kw = feerate; pending_update_fee = none }, false)
      else if feerate == c.feerate_per_kw
      then (record c { pending_update_fee = none }, true)
      else (c, false)
]

abbrev pub RevokeResult : Type 0
RevokeResult =
    Option CommitmentUpdate
    × List (PendingHtlcInfo × ℕ)
    × List (HtlcSource × ℕ × HtlcFailReason)
    × Option ClosingSigned
    × ChannelMonitorUpdate

-- The state that changes once nothing can fail: the points, the numbers and the monitor.
abbrev pub revoked : RevokeAndAck → ChannelMonitorUpdate → Channel → Channel
revoked msg update c = record c {
  latest_monitor_update_id = update.update_id;
  channel_monitor = c.channel_monitor ++ update.updates;
  channel_state = record c.channel_state { awaiting_remote_revoke = false };
  their_prev_commitment_point = c.their_cur_commitment_point;
  their_cur_commitment_point = some msg.next_per_commitment_point;
  cur_remote_commitment_transaction_number = sub64 c.cur_remote_commitment_transaction_number 1;
}

-- The HTLCs and the balance after the loops.
unfoldable pub step_htlcs : Channel → Channel
step_htlcs c =
    let diff =
      value_to_self_msat_diff c.pending_outbound_htlcs (claimed_diff c.pending_inbound_htlcs) in
    record c {
      pending_inbound_htlcs = (promote_inbound (retain_inbound c.pending_inbound_htlcs)).htlcs;
      pending_outbound_htlcs = (promote_outbound (retain_outbound c.pending_outbound_htlcs)).0;
      value_to_self_msat = add64 c.value_to_self_msat diff;
    }
