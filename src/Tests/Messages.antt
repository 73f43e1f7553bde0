-- ===== src/Tests/Messages.antt =====
-- Runs whose result is looked at: messages, updates for the monitor, and transactions.
use rust_lightning.Channel.Closing.{
  maybe_propose_first_closing_signed, closing_outputs, get_closing_transaction_weight,
  get_closing_scriptpubkey, adjusted_fee, closing_value_to_remote, closing_value_to_self,
  closing_output, build_closing_transaction,
}
use rust_lightning.Channel.Signed.Message.{
  answer_signature, answer_while_frozen, check_signatures, check_htlcs, check_htlc,
  commitment_signed,
}
use rust_lightning.Channel.Signed.{
  accept_signature, accept_fee, sign_outbound, sign_inbound, is_unaffordable,
}
use rust_lightning.Channel.Revoke.Message.{
  revoke_stored, revoke_end, revoke_and_free, revoke_with_nothing_held, revoke_while_frozen,
  revoke_and_ack,
}
use rust_lightning.Channel.Revoke.{
  step_htlcs, step_fee, promote_outbound, promote_inbound, revoked_htlcs, value_to_self_msat_diff,
  retain_outbound, claimed_diff, retain_inbound,
}
use rust_lightning.ChanUtils.Secrets.{
  get_secret, provide_secret, derive_secret, get_min_seen_secret, place_secret, new_secrets,
  flip_bit, build_commitment_secret,
}
use rust_lightning.Channel.HoldingCell.{
  commit_freed, free_updates, free_update, free_holding_cell_htlcs,
}
use rust_lightning.Channel.Add.{
  update_add_htlc, removed_outbound_total_msat, get_inbound_pending_htlc_stats, inbound_value_msat,
  get_our_channel_reserve_satoshis, get_our_max_htlc_value_in_flight_msat, outbound_value_msat,
  held_adds, get_outbound_pending_htlc_stats, send_htlc,
  get_inbound_outbound_available_balance_msat,
}
use rust_lightning.Channel.Remove.{
  get_update_fail_htlc, find_to_fail, get_update_fulfill_htlc, fulfill_found, held_removal,
  set_state, find_inbound, update_fail_malformed_htlc, update_fail_htlc, update_fulfill_htlc,
  mark_outbound_htlc_removed, mark_removed,
}
use rust_lightning.Channel.Commit.{
  get_update_fulfill_htlc_and_commit, send_htlc_and_commit, send_commitment,
  build_remote_transaction_keys, build_local_transaction_keys, build_local_commitment_secret,
  has_local_removed, has_local_announced, upgrade_inbound, upgrade_outbound,
  send_commitment_no_state_update, send_commitment_no_status_check,
}
use rust_lightning.Channel.Transaction.{
  unsorted_outputs, indexed_htlcs, htlc_output, commitment_fee, value_output, included_outbound,
  has_output, included_inbound, included_htlcs, get_commitment_transaction_number_obscure_factor,
  build_commitment_transaction,
}
use rust_lightning.ChanUtils.Htlc.{
  build_htlc_transaction, make_funding_redeemscript, get_htlc_redeemscript,
  get_revokeable_redeemscript,
}
use rust_lightning.TransactionUtils.{cmp_bytes, cmp_outputs, insert_output, sort_outputs}
use rust_lightning.Channel.State.{to_u32, Channel, ChannelError, Outcome, done, failed, panicked}
use rust_lightning.ChanUtils.Keys.{
  derive_public_key, derive_public_revocation_key, new_tx_creation_keys, TxCreationKeys,
}
use rust_lightning.Channel.Commitment.{
  remote_htlc_total_msat, inbound_offset, value_to_self_msat_offset, local_htlc_total_msat,
  commitment_values,
}
use rust_lightning.Prelude.{
  ℕ, ◌+◌, replicate, ◌*◌, ◌^◌, ◌-◌, ◌≤◌, ◌<◌, ◌≡◌, refl, true, false, none, List, [], ◌∷◌, arith,
}
use rust_lightning.Msgs.{RevokeAndAck, CommitmentSigned}
use rust_lightning.Channel.Types.{HtlcSource, PendingHtlcInfo, HtlcFailReason}
use rust_lightning.Channel.Safe.{IsSafeChannel, IsSafe-IsSolvent}
use rust_lightning.Channel.Add.Balance.{send_htlc-reserve, available_balance-zero}
use rust_lightning.Channel.Transaction.Outputs.{build_commitment_transaction-le}
use rust_lightning.Channel.Closing.Values.{
  build_closing_transaction-pays, build_closing_transaction-overspends,
}
use rust_lightning.Channel.Revoke.Safety.{revoke_and_ack-update}
use rust_lightning.Channel.Pause.{remove_uncommitted_htlcs_and_mark_paused, monitor_update_failed}
use rust_lightning.Channel.Pause.Balance.{remove_uncommitted-twice}
use rust_lightning.Channel.Pause.Resend.{get_last_revoke_and_ack, monitor_updating_restored}
use rust_lightning.Channel.Pause.Again.{commitment_signed-resend, monitor_update_failed-restored}
use rust_lightning.Tests.Samples.{extern, services, onion, source, preimage, channel, waiting}

channel-IsSafe' : IsSafeChannel channel
channel-IsSafe' = record {
  value_fits = omega arith;
  self_fits = omega arith;
  ours = omega arith;
  theirs = omega arith;
  locked = omega arith;
  in_flight = omega arith;
}

send_htlc-reserve_example : 5100000 + 4000000 + 0 + 1000 * 1000 ≤ 60000000
unfolding send_htlc get_outbound_pending_htlc_stats held_adds outbound_value_msat
send_htlc-reserve_example =
    send_htlc-reserve 4000000 160 650 source onion channel _ _ channel-IsSafe' (omega arith)
      (omega arith) refl

available_balance-zero_example : get_inbound_outbound_available_balance_msat channel ≡ (0, 0)
available_balance-zero_example =
    available_balance-zero channel channel-IsSafe' (omega arith) (omega arith)

abbrev sample_keys : TxCreationKeys
sample_keys = record {
  per_commitment_point = 1;
  revocation_key = 2;
  a_htlc_key = 3;
  b_htlc_key = 4;
  a_delayed_payment_key = 5;
  b_payment_key = 6;
}

build_commitment_transaction-le_example : 99287 ≤ 100000
unfolding build_commitment_transaction get_commitment_transaction_number_obscure_factor
    commitment_values local_htlc_total_msat value_to_self_msat_offset inbound_offset
    remote_htlc_total_msat sort_outputs included_htlcs included_inbound has_output insert_output
    included_outbound value_output commitment_fee cmp_outputs htlc_output
build_commitment_transaction-le_example =
    build_commitment_transaction-le extern channel sample_keys true true 253 (2 ^ 48 - 5) _ _ _
      (IsSafe-IsSolvent true channel channel-IsSafe') (omega arith) refl

abbrev Is : ℕ → ℕ → Type 0
Is a b = a ≡ b

-- The channel that a run leaves behind.
abbrev left {ℓ κ} : {E : Type ℓ} {A : Type κ} → Outcome E A → Channel
left (done a c) = c
left (failed e c) = c
left panicked = channel

-- No HTLC is left.
abbrev settled : Channel
settled = record channel { pending_inbound_htlcs = []; pending_outbound_htlcs = [] }

build_closing_transaction-pays_example :
    Is 500 500 × (99500 + 500 ≤ 100000) × (100000 ≤ 99500 + 500 + 2 * 546 + 1)
unfolding cmp_bytes cmp_outputs insert_output sort_outputs closing_output closing_value_to_self
    closing_value_to_remote adjusted_fee get_closing_scriptpubkey get_closing_transaction_weight
    closing_outputs build_closing_transaction maybe_propose_first_closing_signed
build_closing_transaction-pays_example =
    build_closing_transaction-pays extern settled 500 500 _
      (record { value_fits = omega arith; self_fits = omega arith }) (omega arith) refl

-- Our side has 100 satoshis left and must pay a fee of 500.
abbrev poor : Channel
poor = record settled { value_to_self_msat = 100000 }

build_closing_transaction-overspends_example : 100000 < 18446744073709651116
unfolding cmp_bytes cmp_outputs insert_output sort_outputs closing_output closing_value_to_self
    closing_value_to_remote adjusted_fee get_closing_scriptpubkey get_closing_transaction_weight
    closing_outputs build_closing_transaction maybe_propose_first_closing_signed
build_closing_transaction-overspends_example =
    build_closing_transaction-overspends extern poor false 500 900 _
      (record { value_fits = omega arith; self_fits = omega arith }) refl (omega arith)
      (omega arith) (omega arith) refl

abbrev their_revocation : RevokeAndAck
their_revocation = record {
  channel_id = 42;
  per_commitment_secret = preimage;
  next_per_commitment_point = 33;
}

revoke_and_ack-update_example : Is 9 9 × Is 9 9
unfolding cmp_bytes cmp_outputs insert_output sort_outputs get_revokeable_redeemscript
    get_htlc_redeemscript make_funding_redeemscript build_htlc_transaction derive_public_key
    derive_public_revocation_key new_tx_creation_keys remote_htlc_total_msat local_htlc_total_msat
    inbound_offset value_to_self_msat_offset commitment_values included_inbound included_outbound
    has_output indexed_htlcs value_output commitment_fee included_htlcs
    get_commitment_transaction_number_obscure_factor htlc_output unsorted_outputs
    build_commitment_transaction upgrade_inbound upgrade_outbound has_local_announced
    has_local_removed build_local_commitment_secret build_local_transaction_keys
    build_remote_transaction_keys send_commitment_no_state_update send_commitment_no_status_check
    send_commitment send_htlc_and_commit get_update_fulfill_htlc_and_commit flip_bit new_secrets
    place_secret get_min_seen_secret derive_secret build_commitment_secret provide_secret get_secret
    mark_removed mark_outbound_htlc_removed update_fulfill_htlc update_fail_htlc
    update_fail_malformed_htlc find_inbound set_state held_removal fulfill_found
    get_update_fulfill_htlc find_to_fail get_update_fail_htlc get_our_max_htlc_value_in_flight_msat
    get_our_channel_reserve_satoshis inbound_value_msat get_inbound_pending_htlc_stats
    outbound_value_msat held_adds get_outbound_pending_htlc_stats
    get_inbound_outbound_available_balance_msat removed_outbound_total_msat update_add_htlc
    send_htlc retain_inbound claimed_diff retain_outbound value_to_self_msat_diff revoked_htlcs
    promote_inbound promote_outbound step_fee step_htlcs free_update free_updates commit_freed
    free_holding_cell_htlcs revoke_while_frozen revoke_with_nothing_held revoke_and_free revoke_end
    revoke_stored revoke_and_ack
revoke_and_ack-update_example =
    revoke_and_ack-update extern services their_revocation waiting _ _ _ _ _ _ refl

abbrev their_signature : CommitmentSigned
their_signature = record { channel_id = 42; signature = 1; htlc_signatures = 1 ∷ 1 ∷ 1 ∷ [] }

abbrev answered : Channel
answered = left (commitment_signed extern services their_signature channel)

abbrev our_revocation : RevokeAndAck
our_revocation = record {
  channel_id = 42;
  per_commitment_secret = build_commitment_secret extern.sha256 (replicate 32 1) (2 ^ 48 - 4);
  next_per_commitment_point =
      extern.public_key (build_commitment_secret extern.sha256 (replicate 32 1) (2 ^ 48 - 6));
}

commitment_signed-resend_example :
    get_last_revoke_and_ack {E = ChannelError} extern answered ≡ done our_revocation answered
unfolding cmp_bytes cmp_outputs insert_output sort_outputs get_revokeable_redeemscript
    get_htlc_redeemscript make_funding_redeemscript build_htlc_transaction derive_public_key
    derive_public_revocation_key new_tx_creation_keys remote_htlc_total_msat local_htlc_total_msat
    inbound_offset value_to_self_msat_offset commitment_values included_inbound included_outbound
    has_output indexed_htlcs value_output commitment_fee included_htlcs
    get_commitment_transaction_number_obscure_factor htlc_output unsorted_outputs
    build_commitment_transaction upgrade_inbound upgrade_outbound has_local_announced
    has_local_removed build_local_commitment_secret build_local_transaction_keys
    build_remote_transaction_keys send_commitment_no_state_update send_commitment_no_status_check
    send_commitment send_htlc_and_commit get_update_fulfill_htlc_and_commit flip_bit new_secrets
    place_secret get_min_seen_secret derive_secret build_commitment_secret provide_secret get_secret
    is_unaffordable sign_inbound sign_outbound accept_fee accept_signature check_htlc check_htlcs
    check_signatures answer_while_frozen answer_signature commitment_signed
commitment_signed-resend_example =
    commitment_signed-resend extern services their_signature channel answered our_revocation _ _ _
      refl

abbrev no_failures : List (HtlcSource × ℕ × HtlcFailReason)
no_failures = []

abbrev one_forward : List (PendingHtlcInfo × ℕ)
one_forward =
    (
      record {
        onion_packet = none;
        incoming_shared_secret = 3;
        payment_hash = 160;
        short_channel_id = 9;
        amt_to_forward = 900;
        outgoing_cltv_value = 500;
      },
      1,
    )
    ∷ []

monitor_update_failed-restored_example :
    (one_forward ≡ one_forward)
    × (no_failures ≡ [])
    × (true ≡ true)
    × (true ≡ true)
    × (channel.channel_state ≡ channel.channel_state)
    × (channel.monitor_pending_forwards ≡ [])
    × (no_failures ≡ [])
    × (channel.monitor_pending_revoke_and_ack ≡ false)
    × (channel.monitor_pending_commitment_signed ≡ false)
    × (channel.monitor_pending_funding_locked ≡ false)
unfolding monitor_update_failed monitor_updating_restored send_commitment_no_state_update
    new_tx_creation_keys derive_public_revocation_key derive_public_key build_commitment_transaction
    get_commitment_transaction_number_obscure_factor commitment_values local_htlc_total_msat
    value_to_self_msat_offset inbound_offset remote_htlc_total_msat
monitor_update_failed-restored_example =
    monitor_update_failed-restored extern services true true one_forward [] channel _ _ _ refl refl

abbrev gone : Channel
gone = left (remove_uncommitted_htlcs_and_mark_paused {E = ChannelError} waiting)

remove_uncommitted-twice_example :
    remove_uncommitted_htlcs_and_mark_paused {E = ChannelError} gone ≡ done [] gone
unfolding remove_uncommitted_htlcs_and_mark_paused to_u32
remove_uncommitted-twice_example = remove_uncommitted-twice waiting gone _ refl refl
