-- ===== src/Tests/Balances.antt =====
-- Runs of the methods on a safe channel.
use rust_lightning.Prelude.{◌+◌, ◌*◌, ◌≡◌, true, some, [], ◌∷◌, arith}
use rust_lightning.Msgs.{RevokeAndAck}
use rust_lightning.Channel.State.{Leaves}
use rust_lightning.Channel.Commitment.{commitment_values}
use rust_lightning.Channel.Commitment.Balance.{commitment_values-sum}
use rust_lightning.Channel.Safe.{IsSafeChannel, IsSafe-IsSolvent, IsSafe-commitment_values}
use rust_lightning.Channel.Add.{update_add_htlc, send_htlc}
use rust_lightning.Channel.Add.Balance.{update_add_htlc-IsSafe, send_htlc-IsSafe}
use rust_lightning.Channel.Remove.{get_update_fulfill_htlc}
use rust_lightning.Channel.Remove.Balance.{get_update_fulfill_htlc-IsSafe}
use rust_lightning.Channel.Commit.{send_commitment_no_status_check}
use rust_lightning.Channel.Commit.Balance.{send_commitment_no_status_check-IsSafe}
use rust_lightning.Channel.HoldingCell.{free_holding_cell_htlcs}
use rust_lightning.Channel.HoldingCell.Balance.{free_holding_cell_htlcs-IsSafe}
use rust_lightning.Channel.Revoke.{step_htlcs}
use rust_lightning.Channel.Revoke.Balance.{step_htlcs-value}
use rust_lightning.Channel.Revoke.Message.{revoke_and_ack}
use rust_lightning.Channel.Revoke.Safety.{revoke_and_ack-IsSafe}
use rust_lightning.Channel.Signed.Message.{commitment_signed}
use rust_lightning.Channel.Signed.Safety.{commitment_signed-IsSafe}
use rust_lightning.Tests.Samples.{
  extern, services, onion, source, status, preimage, channel, waiting, add_message,
}

pub channel-IsSafe : IsSafeChannel channel
channel-IsSafe = record {
  value_fits = omega arith;
  self_fits = omega arith;
  ours = omega arith;
  theirs = omega arith;
  locked = omega arith;
  in_flight = omega arith;
}

abbrev revocation_message : RevokeAndAck
revocation_message = record {
  channel_id = 42;
  per_commitment_secret = preimage;
  next_per_commitment_point = 33;
}

IsSafe-commitment_values_example : commitment_values true channel ≡ some (55400000, 38200000)
IsSafe-commitment_values_example = IsSafe-commitment_values true channel channel-IsSafe

revoke_and_ack-IsSafe_example :
    Leaves IsSafeChannel (revoke_and_ack extern services revocation_message waiting)
revoke_and_ack-IsSafe_example =
    revoke_and_ack-IsSafe extern services revocation_message waiting channel-IsSafe (omega arith)
      (omega arith)

commitment_signed-IsSafe_example : Leaves IsSafeChannel (
    commitment_signed extern services
      (record { channel_id = 42; signature = 1; htlc_signatures = 1 ∷ 1 ∷ 1 ∷ [] })
      channel)
commitment_signed-IsSafe_example = commitment_signed-IsSafe extern services _ channel channel-IsSafe

update_add_htlc-IsSafe_example : Leaves IsSafeChannel (update_add_htlc add_message status channel)
update_add_htlc-IsSafe_example = update_add_htlc-IsSafe add_message status channel channel-IsSafe

send_htlc-IsSafe_example : Leaves IsSafeChannel (send_htlc 4000000 160 650 source onion channel)
send_htlc-IsSafe_example =
    send_htlc-IsSafe 4000000 160 650 source onion channel channel-IsSafe (omega arith) (omega arith)

free_holding_cell_htlcs-IsSafe_example : Leaves IsSafeChannel (
    free_holding_cell_htlcs extern services
      (record waiting { channel_state = channel.channel_state }))
free_holding_cell_htlcs-IsSafe_example =
    free_holding_cell_htlcs-IsSafe extern services
      (record waiting { channel_state = channel.channel_state }) channel-IsSafe (omega arith)
      (omega arith)

send_commitment_no_status_check-IsSafe_example :
    Leaves IsSafeChannel (send_commitment_no_status_check extern services channel)
send_commitment_no_status_check-IsSafe_example =
    send_commitment_no_status_check-IsSafe extern services channel channel-IsSafe

get_update_fulfill_htlc-IsSafe_example :
    Leaves IsSafeChannel (get_update_fulfill_htlc extern 0 preimage channel)
get_update_fulfill_htlc-IsSafe_example =
    get_update_fulfill_htlc-IsSafe extern 0 preimage channel channel-IsSafe

step_htlcs-value_example : (step_htlcs channel).value_to_self_msat + 700000 ≡ 60000000 + 500000
step_htlcs-value_example = step_htlcs-value channel channel-IsSafe

commitment_values-sum_example : 55400000 + 38200000 + 2000000 + 4400000 ≡ 100000 * 1000
commitment_values-sum_example =
    commitment_values-sum true channel 55400000 38200000
      (IsSafe-IsSolvent true channel channel-IsSafe)
      (IsSafe-commitment_values true channel channel-IsSafe)
