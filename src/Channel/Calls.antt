-- ===== src/Channel/Calls.antt =====
-- A channel over its life: the methods that channelmanager.rs calls, in any order, on messages of the
-- peer, on the user's wishes and on what happens to the connection and to the monitor.
-- `force_shutdown` ends the life and is not among them.
pub mod Commits
pub mod Sound
use rust_lightning.Prelude.{ℕ, Bool, Option, none, some, List, ◌≡◌}
use rust_lightning.Config.{UserConfig}
use rust_lightning.Bitcoin.{Extern}
use rust_lightning.Msgs.{
  OnionPacket, OnionErrorPacket, UpdateAddHtlc, UpdateFulfillHtlc, UpdateFailHtlc,
  UpdateFailMalformedHtlc, CommitmentSigned, RevokeAndAck, UpdateFee, ClosingSigned, Shutdown,
  FundingLocked, ChannelReestablish, AcceptChannel,
}
use rust_lightning.Channel.Types.{HtlcSource, PendingHtlcInfo, PendingHtlcStatus, HtlcFailReason}
use rust_lightning.Channel.State.{Channel, Services, ChannelError, Outcome, done, failed, panicked}
use rust_lightning.Channel.Add.{update_add_htlc, send_htlc}
use rust_lightning.Channel.Remove.{
  update_fulfill_htlc, update_fail_htlc, update_fail_malformed_htlc, get_update_fulfill_htlc,
  get_update_fail_htlc,
}
use rust_lightning.Channel.Commit.{
  send_commitment, send_htlc_and_commit, get_update_fulfill_htlc_and_commit,
}
use rust_lightning.Channel.Signed.Message.{commitment_signed}
use rust_lightning.Channel.Revoke.Message.{revoke_and_ack}
use rust_lightning.Channel.Fee.{update_fee, send_update_fee, send_update_fee_and_commit}
use rust_lightning.Channel.Open.{accept_channel}
use rust_lightning.Channel.Locked.{funding_locked}
use rust_lightning.Channel.Closing.Message.{closing_signed}
use rust_lightning.Channel.Shutdown.{shutdown, get_shutdown}
use rust_lightning.Channel.Pause.{remove_uncommitted_htlcs_and_mark_paused, monitor_update_failed}
use rust_lightning.Channel.Pause.Resend.{monitor_updating_restored}
use rust_lightning.Channel.Reestablish.{channel_reestablish}

pub data Call : Type 0 where
  -- messages of the peer
  on_accept_channel : UserConfig → List ℕ → AcceptChannel → Call
  on_funding_locked : FundingLocked → Call
  on_update_add_htlc : UpdateAddHtlc → PendingHtlcStatus → Call
  on_update_fulfill_htlc : UpdateFulfillHtlc → Call
  on_update_fail_htlc : UpdateFailHtlc → HtlcFailReason → Call
  on_update_fail_malformed_htlc : UpdateFailMalformedHtlc → HtlcFailReason → Call
  on_commitment_signed : CommitmentSigned → Call
  on_revoke_and_ack : RevokeAndAck → Call
  on_update_fee : UpdateFee → Call
  on_channel_reestablish : ChannelReestablish → Call
  on_shutdown : Shutdown → Call
  on_closing_signed : ClosingSigned → Call
  -- wishes of the user
  to_send_htlc : ℕ → ℕ → ℕ → HtlcSource → OnionPacket → Call
  to_send_htlc_and_commit : ℕ → ℕ → ℕ → HtlcSource → OnionPacket → Call
  to_fulfill : ℕ → List ℕ → Call
  to_fulfill_and_commit : ℕ → List ℕ → Call
  to_fail : ℕ → OnionErrorPacket → Call
  to_send_commitment : Call
  to_send_update_fee : ℕ → Call
  to_send_update_fee_and_commit : ℕ → Call
  to_shut_down : Call
  -- the connection and the monitor
  disconnected : Call
  monitor_failed :
      Bool → Bool → List (PendingHtlcInfo × ℕ) → List (HtlcSource × ℕ × HtlcFailReason) → Call
  monitor_restored : Call

-- The channel that a method leaves behind; `none` where it panics.
abbrev pub left_channel {ℓ κ} : {E : Type ℓ} {A : Type κ} → Outcome E A → Option Channel
left_channel (done a c) = some c
left_channel (failed e c) = some c
left_channel panicked = none

module _ (x : Extern) (services : Services) where
  unfoldable pub run : Call → Channel → Option Channel
  run (on_accept_channel config features msg) c =
      left_channel (accept_channel x config features msg c)
  run (on_funding_locked msg) c = left_channel (funding_locked msg c)
  run (on_update_add_htlc msg status) c = left_channel (update_add_htlc msg status c)
  run (on_update_fulfill_htlc msg) c = left_channel (update_fulfill_htlc x msg c)
  run (on_update_fail_htlc msg r) c = left_channel (update_fail_htlc msg r c)
  run (on_update_fail_malformed_htlc msg r) c = left_channel (update_fail_malformed_htlc msg r c)
  run (on_commitment_signed msg) c = left_channel (commitment_signed x services msg c)
  run (on_revoke_and_ack msg) c = left_channel (revoke_and_ack x services msg c)
  run (on_update_fee msg) c = left_channel (update_fee services msg c)
  run (on_channel_reestablish msg) c = left_channel (channel_reestablish x services msg c)
  run (on_shutdown msg) c = left_channel (shutdown x services msg c)
  run (on_closing_signed msg) c = left_channel (closing_signed x services msg c)
  run (to_send_htlc amount hash cltv source onion) c =
      left_channel (send_htlc amount hash cltv source onion c)
  run (to_send_htlc_and_commit amount hash cltv source onion) c =
      left_channel (send_htlc_and_commit x services amount hash cltv source onion c)
  run (to_fulfill id preimage) c = left_channel (get_update_fulfill_htlc x id preimage c)
  run (to_fulfill_and_commit id preimage) c =
      left_channel (get_update_fulfill_htlc_and_commit x services id preimage c)
  run (to_fail id err) c = left_channel (get_update_fail_htlc id err c)
  run to_send_commitment c = left_channel (send_commitment x services c)
  run (to_send_update_fee feerate) c = left_channel (send_update_fee {E = ChannelError} feerate c)
  run (to_send_update_fee_and_commit feerate) c =
      left_channel (send_update_fee_and_commit services x feerate c)
  run to_shut_down c = left_channel (get_shutdown x c)
  run disconnected c = left_channel (remove_uncommitted_htlcs_and_mark_paused {E = ChannelError} c)
  run (monitor_failed resend_raa resend_commitment forwards failures) c =
      left_channel
        (monitor_update_failed {E = ChannelError} resend_raa resend_commitment forwards failures c)
  run monitor_restored c = left_channel (monitor_updating_restored {E = ChannelError} x services c)

  -- The channels that a channel may become.
  pub data Reach : Channel → Channel → Type 0 where
    here : {c : Channel} → Reach c c
    next : {c c' c'' : Channel} (call : Call) → Reach c c' → run call c' ≡ some c'' → Reach c c''
