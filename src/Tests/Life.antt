-- ===== src/Tests/Life.antt =====
-- Runs of channels over several calls: to their closing, and over a reconnection.
use rust_lightning.Channel.Closing.Message.{
  answer_closing, propose_new_feerate, counter_feerate, check_closing_signed,
  build_signed_closing_transaction, closing_witness, closing_signed,
}
use rust_lightning.Channel.Signed.Message.{commitment_signed}
use rust_lightning.Channel.Pause.{remove_uncommitted_htlcs_and_mark_paused, monitor_update_failed}
use rust_lightning.Channel.Add.{send_htlc, update_add_htlc}
use rust_lightning.Channel.Shutdown.{
  force_shutdown, get_shutdown, check_shutdown, local_shut_down, remote_shut_down,
  has_remote_announced, shutdown,
}
use rust_lightning.ChanUtils.Secrets.{build_commitment_secret}
use rust_lightning.Channel.Commitment.{commitment_values}
use rust_lightning.ChanUtils.Htlc.{
  build_htlc_transaction, make_funding_redeemscript, get_htlc_redeemscript,
  get_revokeable_redeemscript,
}
use rust_lightning.Prelude.{
  ℕ, ◌+◌, ◌-◌, ◌^◌, ◌≤◌, ◌≡◌, refl, true, false, some, [], ◌∷◌, arith, replicate,
}
use rust_lightning.Msgs.{
  CommitmentSigned, RevokeAndAck, OnionPacket, UpdateAddHtlc, Shutdown, ClosingSigned,
  FundingLocked, ChannelReestablish, absent,
}
use rust_lightning.Channel.Types.{HtlcSource, PendingHtlcStatus}
use rust_lightning.Channel.State.{
  to_u32, Channel, ChannelError, Outcome, ignore, close, done, failed, panicked, not_operational,
}
use rust_lightning.Channel.Funds.{IsSound}
use rust_lightning.Channel.Locked.{funding_locked, funding_locked-again}
use rust_lightning.Channel.Shutdown.Balance.{shutdown-no_more_htlcs}
use rust_lightning.Channel.Closing.{
  maybe_propose_first_closing_signed, build_closing_transaction, adjusted_fee,
  closing_value_to_self, get_closing_transaction_weight, closing_value_to_remote, closing_output,
  closing_outputs, get_closing_scriptpubkey,
}
use rust_lightning.TransactionUtils.{cmp_bytes, cmp_outputs, insert_output, sort_outputs}
use rust_lightning.Channel.Closing.Agreed.{closing_signed-IsPaid}
use rust_lightning.Channel.Calls.{monitor_failed, disconnected, run, here, next}
use rust_lightning.Channel.Calls.Sound.{Reach-commitment_values}
use rust_lightning.Tests.Samples.{extern, services, channel, state}
use rust_lightning.Tests.Balances.{channel-IsSafe}

-- The channel that a call leaves behind.
abbrev left {ℓ κ} : {E : Type ℓ} {A : Type κ} → Outcome E A → Channel
left (done a c) = c
left (failed e c) = c
left panicked = channel

channel-IsSound : IsSound channel
channel-IsSound = record {
  is_safe = channel-IsSafe;
  is_covered = record { reserve_fits = omega arith; promised_fits = omega arith };
}

abbrev frozen : Channel
frozen = left (monitor_update_failed {E = ChannelError} true false [] [] channel)

abbrev lost : Channel
lost = left (remove_uncommitted_htlcs_and_mark_paused {E = ChannelError} frozen)

Reach-commitment_values_example : commitment_values true lost ≡ some (55400000, 38200000)
unfolding monitor_update_failed remove_uncommitted_htlcs_and_mark_paused run to_u32
Reach-commitment_values_example =
    Reach-commitment_values extern services channel lost true channel-IsSound
      (next disconnected (next (monitor_failed true false [] []) here refl) refl)

abbrev settled : Channel
settled = record channel { pending_inbound_htlcs = []; pending_outbound_htlcs = [] }

abbrev their_shutdown : Shutdown
their_shutdown = record { channel_id = 42; scriptpubkey = 1 ∷ 2 ∷ [] }

abbrev shut : Channel
shut = left (shutdown extern services their_shutdown settled)

shutdown-no_more_htlcs_example :
    ((amount hash cltv : ℕ) (source : HtlcSource) (onion : OnionPacket)
      → send_htlc amount hash cltv source onion shut ≡ failed (ignore not_operational) shut)
    × ((add : UpdateAddHtlc) (status : PendingHtlcStatus)
        → update_add_htlc add status shut ≡ failed (close not_operational) shut)
unfolding shutdown to_u32 maybe_propose_first_closing_signed build_closing_transaction adjusted_fee
    closing_value_to_self get_closing_transaction_weight closing_value_to_remote
shutdown-no_more_htlcs_example =
    shutdown-no_more_htlcs extern services their_shutdown settled shut _ _ _ refl

abbrev their_closing : ClosingSigned
their_closing = record { channel_id = 42; fee_satoshis = 111; signature = 1 }

closing_signed-IsPaid_example : 99889 + 111 ≤ 100000
unfolding cmp_bytes cmp_outputs insert_output sort_outputs get_revokeable_redeemscript
    get_htlc_redeemscript make_funding_redeemscript build_htlc_transaction has_remote_announced
    remote_shut_down local_shut_down check_shutdown shutdown get_shutdown force_shutdown
    closing_output closing_value_to_self closing_value_to_remote adjusted_fee
    get_closing_scriptpubkey get_closing_transaction_weight closing_outputs
    build_closing_transaction maybe_propose_first_closing_signed to_u32 closing_witness
    build_signed_closing_transaction check_closing_signed counter_feerate propose_new_feerate
    answer_closing closing_signed
closing_signed-IsPaid_example =
    closing_signed-IsPaid extern services their_closing shut _ _ _
      (record { value_fits = omega arith; self_fits = omega arith }) refl

abbrev their_locked : FundingLocked
their_locked = record { channel_id = 42; next_per_commitment_point = 77 }

-- The funding transaction is out, and our own funding_locked too.
abbrev fresh : Channel
fresh = record settled {
  channel_state = record state {
    channel_funded = false;
    funding_sent = true;
    our_funding_locked = true;
    our_init_sent = false;
    their_init_sent = false;
  };
  cur_local_commitment_transaction_number = 2 ^ 48 - 2;
  cur_remote_commitment_transaction_number = 2 ^ 48 - 2;
}

abbrev locked : Channel
locked = left (funding_locked their_locked fresh)

funding_locked-again_example : funding_locked their_locked locked ≡ done tt locked
unfolding funding_locked to_u32
funding_locked-again_example = funding_locked-again their_locked fresh locked (refl, refl) refl

abbrev their_signature : CommitmentSigned
their_signature = record { channel_id = 42; signature = 1; htlc_signatures = 1 ∷ 1 ∷ 1 ∷ [] }

abbrev answered : Channel
answered = left (commitment_signed extern services their_signature channel)

abbrev cut_off : Channel
cut_off = left (remove_uncommitted_htlcs_and_mark_paused {E = ChannelError} answered)

-- The peer has seen neither our last revoke_and_ack nor anything else that is new.
abbrev their_reestablish : ChannelReestablish
their_reestablish = record {
  channel_id = 42;
  next_local_commitment_number = 2;
  next_remote_commitment_number = 3;
  data_loss_protect = absent;
}

abbrev our_revocation : RevokeAndAck
our_revocation = record {
  channel_id = 42;
  per_commitment_secret = build_commitment_secret extern.sha256 (replicate 32 1) (2 ^ 48 - 4);
  next_per_commitment_point =
      extern.public_key (build_commitment_secret extern.sha256 (replicate 32 1) (2 ^ 48 - 6));
}
