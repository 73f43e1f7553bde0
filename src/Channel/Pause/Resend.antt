-- ===== src/Channel/Pause/Resend.antt =====
-- lightning/src/ln/channel.rs: `monitor_updating_restored` and the messages that it sends again.
use rust_lightning.Prelude.{
  ℕ, Bool, true, false, not, ◌&&◌, Option, none, some, List, [], if◌then◌else◌, add64,
}
use rust_lightning.Bitcoin.{Extern}
use rust_lightning.Msgs.{CommitmentUpdate, RevokeAndAck, FundingLocked}
use rust_lightning.ChanUtils.Secrets.{build_commitment_secret}
use rust_lightning.Channel.Types.{
  HtlcSource, PendingHtlcInfo, HtlcFailReason, RaaCommitmentOrder, revoke_and_ack_first,
}
use rust_lightning.Channel.State.{
  Channel, Services, done, failed, panicked, Method, ◌>>=◌, ◌>>◌, panic_if, when,
}
use rust_lightning.Channel.Commit.{build_local_commitment_secret, send_commitment_no_state_update}
use rust_lightning.Channel.Pause.{resent_adds, resent_removals}

-- What is to be done once the monitor is stored.
pub record Restored : Type 0 where
  pub raa : Option RevokeAndAck
  pub commitment_update : Option CommitmentUpdate
  pub order : RaaCommitmentOrder
  pub forwards : List (PendingHtlcInfo × ℕ)
  pub failures : List (HtlcSource × ℕ × HtlcFailReason)
  pub needs_broadcast_safe : Bool
  pub funding_locked : Option FundingLocked

-- The flags and lists that the call resets.
abbrev pub restored : Channel → Channel
restored c = record c {
  channel_state = record c.channel_state { monitor_update_failed = false };
  monitor_pending_funding_locked = false;
  monitor_pending_revoke_and_ack = false;
  monitor_pending_commitment_signed = false;
  monitor_pending_forwards = [];
  monitor_pending_failures = [];
}

module _ {ℓ} {E : Type ℓ} (x : Extern) where
  open x use {public_key}

  unfoldable pub get_last_revoke_and_ack : Method E RevokeAndAck
  unfolding build_local_commitment_secret
  get_last_revoke_and_ack c =
      (do
        next_secret ← build_local_commitment_secret x c.cur_local_commitment_transaction_number
        done (record {
          channel_id = c.channel_id;
          per_commitment_secret =
              build_commitment_secret x.sha256 c.commitment_seed
                (add64 c.cur_local_commitment_transaction_number 2);
          next_per_commitment_point = public_key next_secret;
        }))
        c

  unfoldable pub pending_funding_locked : Method E (Option FundingLocked)
  pending_funding_locked c = elim c.monitor_pending_funding_locked [
    | false ↦ done none c
    | true ↦
        (do
          panic_if c.channel_outbound
          next_secret ← build_local_commitment_secret x c.cur_local_commitment_transaction_number
          done (
              some (record {
                channel_id = c.channel_id;
                next_per_commitment_point = public_key next_secret;
              })))
          c
  ]

  module _ (services : Services) where
    unfoldable pub get_last_commitment_update : Method E CommitmentUpdate
    get_last_commitment_update c =
        let removals = resent_removals c.channel_id c.pending_inbound_htlcs in
        elim (send_commitment_no_state_update x services c) [
          | panicked ↦ panicked
          | failed _ c1 ↦ panicked
          | done (signed, _, _) c1 ↦
              done
                (record {
                  update_add_htlcs = resent_adds c.channel_id c.pending_outbound_htlcs;
                  update_fulfill_htlcs = removals.fulfills;
                  update_fail_htlcs = removals.fails;
                  update_fail_malformed_htlcs = removals.malformed;
                  update_fee = none;
                  commitment_signed = signed;
                })
                c
        ]

    unfoldable pub monitor_updating_restored : Method E Restored
    unfolding get_last_revoke_and_ack pending_funding_locked get_last_commitment_update
    monitor_updating_restored c =
        (do
          let s = c.channel_state
          let connected = not s.peer_disconnected
          panic_if (not s.monitor_update_failed)
          funding_locked ← pending_funding_locked
          raa ← when (connected && c.monitor_pending_revoke_and_ack) get_last_revoke_and_ack
          commitment_update ←
              when (connected && c.monitor_pending_commitment_signed) get_last_commitment_update
          λ _.
              done
                (record {
                  raa = raa;
                  commitment_update = commitment_update;
                  order = if connected then c.resend_order else revoke_and_ack_first;
                  forwards = c.monitor_pending_forwards;
                  failures = c.monitor_pending_failures;
                  needs_broadcast_safe = s.funding_sent && c.channel_outbound;
                  funding_locked = funding_locked;
                })
                (restored c))
          c
