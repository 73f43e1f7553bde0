-- ===== src/Channel/Pause.antt =====
-- lightning/src/ln/channel.rs: what interrupts a channel, a disconnected peer or a monitor that could
-- not be stored, and the messages that are sent again afterwards.
pub mod Balance
pub mod Forgotten
pub mod Resend
pub mod Again
use rust_lightning.Prelude.{
  ℕ, ◌+◌, Bool, true, false, not, ◌&&◌, Option, none, some, List, [], ◌∷◌, ◌++◌, if◌then◌else◌, ltb,
  is_empty, add64, sub64,
}
use rust_lightning.Bitcoin.{Extern}
use rust_lightning.Msgs.{
  UpdateAddHtlc, UpdateFulfillHtlc, UpdateFailHtlc, UpdateFailMalformedHtlc, CommitmentUpdate,
  RevokeAndAck, FundingLocked,
}
use rust_lightning.ChanUtils.Secrets.{build_commitment_secret}
use rust_lightning.Channel.Types.{
  HtlcSource, PendingHtlcInfo, HtlcFailReason, fail_relay, fail_malformed, fulfill,
  InboundHtlcState, InboundHtlcOutput, OutboundHtlcState, OutboundHtlcOutput, HtlcUpdateAwaitingAck,
  add_htlc, claim_htlc, fail_htlc, RaaCommitmentOrder, revoke_and_ack_first,
}
use rust_lightning.Channel.State.{
  ChannelState, to_u32, Channel, Services, Outcome, done, failed, panicked, Method, ◌>>=◌, ◌>>◌,
  panic_if,
}
use rust_lightning.Channel.Commit.{build_local_commitment_secret, send_commitment_no_state_update}

-- The HTLCs that the peer announced but did not sign are dropped; `inbound_drop_count` counts them.
unfoldable pub drop_announced : List InboundHtlcOutput → List InboundHtlcOutput × ℕ
drop_announced [] = ([], 0)
drop_announced (htlc ∷ htlcs) =
    let rest = drop_announced htlcs in
    elim htlc.state [
      | InboundHtlcState.remote_announced _ ↦ (rest.0, rest.1 + 1)
      | InboundHtlcState.awaiting_remote_revoke_to_announce _ ↦ (htlc ∷ rest.0, rest.1)
      | InboundHtlcState.awaiting_announced_remote_revoke _ ↦ (htlc ∷ rest.0, rest.1)
      | InboundHtlcState.committed ↦ (htlc ∷ rest.0, rest.1)
      | InboundHtlcState.local_removed _ ↦ (htlc ∷ rest.0, rest.1)
    ]

-- The removals that the peer announced but did not sign are taken back.
unfoldable pub restore_removed : List OutboundHtlcOutput → List OutboundHtlcOutput
restore_removed [] = []
restore_removed (htlc ∷ htlcs) = elim htlc.state [
  | OutboundHtlcState.remote_removed _ ↦
      record htlc { state = OutboundHtlcState.committed } ∷ restore_removed htlcs
  | OutboundHtlcState.local_announced _ ↦ htlc ∷ restore_removed htlcs
  | OutboundHtlcState.committed ↦ htlc ∷ restore_removed htlcs
  | OutboundHtlcState.awaiting_remote_revoke_to_remove _ ↦ htlc ∷ restore_removed htlcs
  | OutboundHtlcState.awaiting_removed_remote_revoke _ ↦ htlc ∷ restore_removed htlcs
]

-- The additions leave the holding cell: what stays, and `outbound_drops`.
unfoldable pub drop_held :
    List HtlcUpdateAwaitingAck → List HtlcUpdateAwaitingAck × List (HtlcSource × ℕ)
drop_held [] = ([], [])
drop_held (add_htlc add ∷ updates) =
    let rest = drop_held updates in (rest.0, (add.source, add.payment_hash) ∷ rest.1)
drop_held (claim_htlc preimage id ∷ updates) =
    let rest = drop_held updates in (claim_htlc preimage id ∷ rest.0, rest.1)
drop_held (fail_htlc id err ∷ updates) =
    let rest = drop_held updates in (fail_htlc id err ∷ rest.0, rest.1)

-- `ChannelState::ShutdownComplete`, alone.
abbrev pub only_shutdown_complete : ChannelState
only_shutdown_complete = record {
  our_init_sent = false;
  their_init_sent = false;
  funding_created = false;
  funding_sent = false;
  their_funding_locked = false;
  our_funding_locked = false;
  channel_funded = false;
  peer_disconnected = false;
  monitor_update_failed = false;
  awaiting_remote_revoke = false;
  remote_shutdown_sent = false;
  local_shutdown_sent = false;
  shutdown_complete = true;
}

-- The changes to a channel whose funding transaction exists.
unfoldable pub paused : Channel → Channel
unfolding drop_announced restore_removed drop_held
paused c =
    let inbound = drop_announced c.pending_inbound_htlcs in
    record c {
      last_sent_closing_fee = none;
      pending_inbound_htlcs = inbound.0;
      next_remote_htlc_id = sub64 c.next_remote_htlc_id inbound.1;
      pending_outbound_htlcs = restore_removed c.pending_outbound_htlcs;
      holding_cell_htlc_updates = (drop_held c.holding_cell_htlc_updates).0;
      channel_state = record c.channel_state { peer_disconnected = true };
    }

unfoldable pub remove_uncommitted_htlcs_and_mark_paused {ℓ} :
    {E : Type ℓ} → Method E (List (HtlcSource × ℕ))
unfolding paused
remove_uncommitted_htlcs_and_mark_paused c =
    if c.channel_state.shutdown_complete
    then panicked
    else if ltb (to_u32 c.channel_state) 8
    then done [] (record c { channel_state = only_shutdown_complete })
    else done (drop_held c.holding_cell_htlc_updates).1 (paused c)

unfoldable pub monitor_update_failed {ℓ} :
    {E : Type ℓ}
    → Bool
    → Bool
    → List (PendingHtlcInfo × ℕ)
    → List (HtlcSource × ℕ × HtlcFailReason)
    → Method E (Unit {0})
monitor_update_failed resend_raa resend_commitment pending_forwards pending_fails c =
    (do
      panic_if c.channel_state.monitor_update_failed
      panic_if (not (is_empty c.monitor_pending_forwards))
      panic_if (not (is_empty c.monitor_pending_failures))
      λ _. done tt (record c {
        monitor_pending_revoke_and_ack = resend_raa;
        monitor_pending_commitment_signed = resend_commitment;
        monitor_pending_forwards = pending_forwards;
        monitor_pending_failures = pending_fails;
        channel_state = record c.channel_state { monitor_update_failed = true };
      }))
      c

-- The messages that announce our HTLCs and remove the peer's once more.
unfoldable pub resent_adds : ℕ → List OutboundHtlcOutput → List UpdateAddHtlc
resent_adds channel_id [] = []
resent_adds channel_id (htlc ∷ htlcs) =
    let rest = resent_adds channel_id htlcs in
    elim htlc.state [
      | OutboundHtlcState.local_announced onion_packet ↦
          record {
            channel_id = channel_id;
            htlc_id = htlc.htlc_id;
            amount_msat = htlc.amount_msat;
            payment_hash = htlc.payment_hash;
            cltv_expiry = htlc.cltv_expiry;
            onion_routing_packet = onion_packet;
          }
          ∷ rest
      | OutboundHtlcState.committed ↦ rest
      | OutboundHtlcState.remote_removed _ ↦ rest
      | OutboundHtlcState.awaiting_remote_revoke_to_remove _ ↦ rest
      | OutboundHtlcState.awaiting_removed_remote_revoke _ ↦ rest
    ]

pub record Removals : Type 0 where
  pub fulfills : List UpdateFulfillHtlc
  pub fails : List UpdateFailHtlc
  pub malformed : List UpdateFailMalformedHtlc

abbrev no_removals : Removals
no_removals = record { fulfills = []; fails = []; malformed = [] }

unfoldable pub resent_removals : ℕ → List InboundHtlcOutput → Removals
resent_removals id [] = no_removals
resent_removals id (htlc ∷ htlcs) =
    let rest = resent_removals id htlcs in
    elim htlc.state [
      | InboundHtlcState.local_removed (fail_relay err) ↦ record rest {
        fails = record { channel_id = id; htlc_id = htlc.htlc_id; reason = err } ∷ rest.fails;
      }
      | InboundHtlcState.local_removed (fail_malformed sha256_of_onion failure_code) ↦ record rest {
        malformed =
            record {
              channel_id = id;
              htlc_id = htlc.htlc_id;
              sha256_of_onion = sha256_of_onion;
              failure_code = failure_code;
            }
            ∷ rest.malformed;
      }
      | InboundHtlcState.local_removed (fulfill preimage) ↦ record rest {
        fulfills =
            record { channel_id = id; htlc_id = htlc.htlc_id; payment_preimage = preimage }
            ∷ rest.fulfills;
      }
      | InboundHtlcState.remote_announced _ ↦ rest
      | InboundHtlcState.awaiting_remote_revoke_to_announce _ ↦ rest
      | InboundHtlcState.awaiting_announced_remote_revoke _ ↦ rest
      | InboundHtlcState.committed ↦ rest
    ]
