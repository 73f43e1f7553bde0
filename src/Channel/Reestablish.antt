-- ===== src/Channel/Reestablish.antt =====
-- lightning/src/ln/channel.rs: `channel_reestablish`, with which two peers find out, after a
-- disconnection, what the other has lost.
pub mod Balance
pub mod Lost
pub mod Resent
use rust_lightning.Prelude.{
  ℕ, ◌+◌, ◌-◌, ◌^◌, Bool, true, false, not, ◌&&◌, ◌||◌, Option, none, some, List, [], ◌∷◌, ◌++◌,
  if◌then◌else◌, ltb, leb, ◌==◌, bytes_eq, add64, sub64,
}
use rust_lightning.Bitcoin.{Extern}
use rust_lightning.Msgs.{
  Shutdown, DataLossProtect, present, absent, ChannelReestablish, FundingLocked, RevokeAndAck,
  CommitmentUpdate,
}
use rust_lightning.ChanUtils.Secrets.{build_commitment_secret}
use rust_lightning.Channel.Types.{RaaCommitmentOrder, commitment_first}
use rust_lightning.Channel.State.{
  Channel, initial_commitment_number, bit, Services, rescue_remote_commitment_tx_info,
  ChannelMonitorUpdate, ChannelError, ignore, close, close_delay_broadcast, Outcome, done, failed,
  panicked, Method, ◌>>=◌, ◌>>◌, raise_if, when, loose_reestablish, garbage_reestablish,
  garbage_secret, fallen_behind, revoked_unsent, old_local_commitment, old_remote_commitment,
}
use rust_lightning.Channel.Commit.{build_local_commitment_secret}
use rust_lightning.Channel.HoldingCell.{free_holding_cell_htlcs}
use rust_lightning.Channel.Pause.Resend.{get_last_revoke_and_ack, get_last_commitment_update}
use rust_lightning.Channel.Shutdown.{shutdown_message}

-- What goes out: the messages, the monitor's update, and the order of the two.
pub record Reestablished : Type 0 where
  pub funding_locked : Option FundingLocked
  pub raa : Option RevokeAndAck
  pub commitment_update : Option CommitmentUpdate
  pub monitor_update : Option ChannelMonitorUpdate
  pub order : RaaCommitmentOrder
  pub shutdown : Option Shutdown

-- How many of our own transactions the peer may have seen revoked, and which of its own comes next.
abbrev pub local_height : Channel → ℕ
local_height c = sub64 initial_commitment_number c.cur_local_commitment_transaction_number

abbrev pub our_next_remote_commitment_number : Channel → ℕ
our_next_remote_commitment_number c =
    add64 (sub64 initial_commitment_number c.cur_remote_commitment_transaction_number)
      (bit c.channel_state.awaiting_remote_revoke)

abbrev pub reconnected : Channel → Channel
reconnected c = record c { channel_state = record c.channel_state { peer_disconnected = false } }

-- The peer proves that we have lost data.
abbrev pub rescued : DataLossProtect → Channel → ChannelMonitorUpdate × Channel
rescued data_loss c =
    let update_id = add64 c.latest_monitor_update_id 1 in
    let steps = rescue_remote_commitment_tx_info data_loss.my_current_per_commitment_point ∷ [] in
    (
      record { update_id = update_id; updates = steps },
      record c {
        latest_monitor_update_id = update_id;
        channel_monitor = c.channel_monitor ++ steps;
      },
    )

module _ (x : Extern) where
  open x use {sha256, public_key}

  -- Only where the peer says that it has a secret of ours.
  unfoldable pub check_data_loss : ChannelReestablish → Method ChannelError (Unit {0})
  check_data_loss msg c =
      let theirs = msg.next_remote_commitment_number in
      if ltb 0 theirs
      then elim msg.data_loss_protect [
        | absent ↦ done tt c
        | present data_loss ↦
            let secret =
              build_commitment_secret sha256 c.commitment_seed
                (initial_commitment_number - theirs + 1) in
            if not (bytes_eq secret data_loss.your_last_per_commitment_secret)
            then failed (close garbage_secret) c
            else if ltb (local_height c) theirs
            then (let (update, c') = rescued data_loss c in
                failed (close_delay_broadcast fallen_behind update) c')
            else done tt c
      ]
      else done tt c

  unfoldable pub check_reestablish : ChannelReestablish → Method ChannelError (Unit {0})
  unfolding check_data_loss
  check_reestablish msg c =
      (do
        raise_if (not c.channel_state.peer_disconnected) (close loose_reestablish)
        raise_if
            (leb initial_commitment_number msg.next_local_commitment_number
              || leb initial_commitment_number msg.next_remote_commitment_number
              || (msg.next_local_commitment_number == 0))
            (close garbage_reestablish)
        check_data_loss msg)
        c

  unfoldable pub locked_message : Method ChannelError FundingLocked
  unfolding build_local_commitment_secret
  locked_message c =
      (do
        next_secret ← build_local_commitment_secret x c.cur_local_commitment_transaction_number
        done (record {
          channel_id = c.channel_id;
          next_per_commitment_point = public_key next_secret;
        }))
        c

  -- While the funding transaction is not deep enough on both sides.
  unfoldable pub reestablish_unfunded :
      ChannelReestablish → Option Shutdown → Method ChannelError Reestablished
  unfolding locked_message
  reestablish_unfunded msg shutdown_msg c =
      let s = c.channel_state in
      (do
        let ready = s.our_funding_locked && not s.monitor_update_failed
        raise_if (not ready && not (msg.next_remote_commitment_number == 0)) (close revoked_unsent)
        funding_locked ← when ready locked_message
        done (record {
          funding_locked = funding_locked;
          raa = none;
          commitment_update = none;
          monitor_update = none;
          order = commitment_first;
          shutdown = shutdown_msg;
        }))
        c

  unfoldable pub required_revoke : ChannelReestablish → Method ChannelError (Option RevokeAndAck)
  unfolding get_last_revoke_and_ack
  required_revoke msg c =
      let local = c.cur_local_commitment_transaction_number in
      let next = msg.next_remote_commitment_number + 1 in
      if next == sub64 initial_commitment_number local
      then done none c
      else if next == sub64 (initial_commitment_number - 1) local
      then (if c.channel_state.monitor_update_failed
          then done none (record c { monitor_pending_revoke_and_ack = true })
          else when true (get_last_revoke_and_ack x) c)
      else failed (close old_local_commitment) c

  unfoldable pub resend_funding_locked :
      ChannelReestablish → Method ChannelError (Option FundingLocked)
  unfolding locked_message
  resend_funding_locked msg c =
      when ((msg.next_local_commitment_number == 1) && (local_height c == 1)) locked_message c

  module _ (services : Services) where
    -- The peer has our last commitment_signed.
    unfoldable pub reestablish_current :
        Option FundingLocked
        → Option RevokeAndAck
        → Option Shutdown
        → Method ChannelError Reestablished
    unfolding free_holding_cell_htlcs
    reestablish_current locked raa shutdown_msg c =
        let result : Channel → Reestablished = λ c'. record {
          funding_locked = locked;
          raa = raa;
          commitment_update = none;
          monitor_update = none;
          order = c'.resend_order;
          shutdown = shutdown_msg;
        } in
        if c.channel_state.awaiting_remote_revoke || c.channel_state.monitor_update_failed
        then done (result c) c
        else elim (free_holding_cell_htlcs x services c) [
          | panicked ↦ panicked
          | failed (ignore _) c' ↦ panicked
          | failed (close r) c' ↦ failed (close r) c'
          | failed (close_delay_broadcast _ _) c' ↦ panicked
          | done none c' ↦ done (result c') c'
          | done (some (update, monitor)) c' ↦
              done
                (record (result c') {
                  commitment_update = some update;
                  monitor_update = some monitor;
                })
                c'
        ]

    -- The peer has lost our last commitment_signed.
    unfoldable pub reestablish_lost :
        Option FundingLocked
        → Option RevokeAndAck
        → Option Shutdown
        → Method ChannelError Reestablished
    unfolding get_last_commitment_update
    reestablish_lost locked raa shutdown_msg c =
        if c.channel_state.monitor_update_failed
        then done
            (record {
              funding_locked = locked;
              raa = none;
              commitment_update = none;
              monitor_update = none;
              order = c.resend_order;
              shutdown = shutdown_msg;
            })
            (record c { monitor_pending_commitment_signed = true })
        else (do
          update ← get_last_commitment_update x services
          done (record {
            funding_locked = locked;
            raa = raa;
            commitment_update = some update;
            monitor_update = none;
            order = c.resend_order;
            shutdown = shutdown_msg;
          }))
            c

    -- What the peer has of our commitment_signed messages; `ours` is the number of the next one.
    unfoldable pub reestablish_end :
        ChannelReestablish
        → ℕ
        → Option Shutdown
        → Option RevokeAndAck
        → Option FundingLocked
        → Method ChannelError Reestablished
    unfolding reestablish_current reestablish_lost
    reestablish_end msg ours shutdown_msg raa locked c =
        if msg.next_local_commitment_number == ours
        then reestablish_current locked raa shutdown_msg c
        else if msg.next_local_commitment_number == sub64 ours 1
        then reestablish_lost locked raa shutdown_msg c
        else failed (close old_remote_commitment) c

    unfoldable pub reestablish_funded :
        ChannelReestablish → Option Shutdown → Method ChannelError Reestablished
    unfolding required_revoke resend_funding_locked reestablish_end
    reestablish_funded msg shutdown_msg c =
        (do
          raa ← required_revoke msg
          let ours = our_next_remote_commitment_number c
          locked ← resend_funding_locked msg
          reestablish_end msg ours shutdown_msg raa locked)
          c

    unfoldable pub reestablish_again :
        ChannelReestablish → Option Shutdown → Method ChannelError Reestablished
    unfolding reestablish_unfunded reestablish_funded
    reestablish_again msg shutdown_msg c =
        if c.channel_state.funding_sent
        then reestablish_unfunded msg shutdown_msg c
        else reestablish_funded msg shutdown_msg c

    unfoldable pub channel_reestablish : ChannelReestablish → Method ChannelError Reestablished
    unfolding check_reestablish reestablish_again
    channel_reestablish msg c =
        let shutdown_msg =
          (if c.channel_state.local_shutdown_sent then some (shutdown_message x c) else none) in
        (do check_reestablish msg; λ c1. reestablish_again msg shutdown_msg (reconnected c1)) c
