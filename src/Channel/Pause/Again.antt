-- ===== src/Channel/Pause/Again.antt =====
-- What is sent again after an interruption is what had been made before it.
use rust_lightning.Prelude.{
  ℕ, ◌≡◌, refl, Bool, false, not, ◌&&◌, Option, is_some, List, [], arith, sub64, add64,
}
use rust_lightning.Bitcoin.{Extern, Transaction}
use rust_lightning.Msgs.{RevokeAndAck, CommitmentSigned, ClosingSigned}
use rust_lightning.ChanUtils.Keys.{TxCreationKeys}
use rust_lightning.ChanUtils.Htlc.{HtlcOutputInCommitment}
use rust_lightning.ChanUtils.Secrets.{build_commitment_secret}
use rust_lightning.Channel.Types.{HtlcSource, PendingHtlcInfo, HtlcFailReason}
use rust_lightning.Channel.State.{
  Channel, Services, ChannelMonitorUpdate, ChannelError, Outcome, done, failed, panicked, Leaves,
}
use rust_lightning.Channel.Closing.{maybe_propose_first_closing_signed}
use rust_lightning.Channel.Commit.{
  build_local_commitment_secret, upgraded, send_commitment_no_status_check,
}
use rust_lightning.Channel.Commit.Balance.{no_state_update-Keeps}
use rust_lightning.Channel.Signed.{SignedError, accept_signature, accept_fee, local_update}
use rust_lightning.Channel.Signed.Balance.{Keeps, check_signatures-Keeps}
use rust_lightning.Channel.Signed.Message.{
  check_signatures, answer_while_frozen, answer_signature, commitment_signed,
}
use rust_lightning.Channel.Pause.{monitor_update_failed}
use rust_lightning.Channel.Pause.Resend.{
  Restored, restored, get_last_revoke_and_ack, pending_funding_locked, get_last_commitment_update,
  monitor_updating_restored,
}

-- What a revoke_and_ack is made of.
abbrev SameSecrets : Channel → Channel → Type 0
SameSecrets c c' =
    (c'.channel_id ≡ c.channel_id)
    × (c'.commitment_seed ≡ c.commitment_seed)
    × (c'.cur_local_commitment_transaction_number ≡ c.cur_local_commitment_transaction_number)

module _ (x : Extern) (services : Services) where
  send-SameSecrets :
      (c : Channel) → Leaves (SameSecrets c) (send_commitment_no_status_check x services c)
  unfolding send_commitment_no_status_check
  send-SameSecrets c = ground (arith, no_state_update-Keeps x services (upgraded c))

  propose-SameSecrets :
      (c : Channel)
      → Leaves (SameSecrets c) (maybe_propose_first_closing_signed x services {E = SignedError} c)
  unfolding maybe_propose_first_closing_signed
  propose-SameSecrets c = ground arith

  answer-SameSecrets :
      (raa : RevokeAndAck) (need : Bool) (update : ChannelMonitorUpdate) (c c' : Channel)
      (raa' : RevokeAndAck) (signed : Option CommitmentSigned) (closing : Option ClosingSigned)
      (update' : ChannelMonitorUpdate)
      → answer_signature x services raa need update c ≡ done (raa', signed, closing, update') c'
      → (raa' ≡ raa) × SameSecrets c c'
  unfolding answer_signature answer_while_frozen
  answer-SameSecrets raa need update c c' raa' signed closing update' e =
      ground (arith, send-SameSecrets c, propose-SameSecrets c)

  accepted-secrets :
      (update : ChannelMonitorUpdate) (c : Channel)
      → ((accept_signature update c).0.channel_id ≡ c.channel_id)
        × ((accept_signature update c).0.commitment_seed ≡ c.commitment_seed)
        × ((accept_signature update c).0.cur_local_commitment_transaction_number
            ≡ sub64 c.cur_local_commitment_transaction_number 1)
  unfolding accept_signature accept_fee
  accepted-secrets update c = ground arith

  -- The revoke_and_ack that answers a commitment_signed is the one that a reconnection sends again.
  pub commitment_signed-resend :
      (msg : CommitmentSigned) (c c' : Channel) (raa : RevokeAndAck)
      (signed : Option CommitmentSigned) (closing : Option ClosingSigned)
      (update : ChannelMonitorUpdate)
      → commitment_signed x services msg c ≡ done (raa, signed, closing, update) c'
      → get_last_revoke_and_ack {E = ChannelError} x c' ≡ done raa c'
  unfolding commitment_signed build_local_commitment_secret get_last_revoke_and_ack
  commitment_signed-resend msg c c' raa signed closing update e =
      go (check_signatures x msg c) refl (check_signatures-Keeps x msg c)
    where
      go :
          (o : Outcome SignedError (
            Transaction
            × TxCreationKeys
            × List (HtlcOutputInCommitment × Option ℕ × Option HtlcSource)))
          → check_signatures x msg c ≡ o
          → Keeps c o
          → get_last_revoke_and_ack {E = ChannelError} x c' ≡ done raa c'
      go panicked e1 same = ground (arith, e)
      go (failed r c1) e1 same = ground (arith, e)
      go (done (tx, keys, sigs) c1) e1 same =
          let number = c.cur_local_commitment_transaction_number in
          let first : RevokeAndAck = record {
            channel_id = c.channel_id;
            per_commitment_secret =
                build_commitment_secret x.sha256 c.commitment_seed (add64 number 1);
            next_per_commitment_point =
                x.public_key (build_commitment_secret x.sha256 c.commitment_seed (sub64 number 1));
          } in
          let update1 = local_update tx keys sigs c in
          let accepted = accept_signature update1 c in
          ground (
            arith,
            e,
            answer-SameSecrets first accepted.1 update1 accepted.0 c' raa signed closing update,
            accepted-secrets update1 c,
          )

  funding_locked-Keeps : (c : Channel) → Keeps c (pending_funding_locked {E = ChannelError} x c)
  unfolding pending_funding_locked build_local_commitment_secret
  funding_locked-Keeps c = ground arith

  last_raa-Keeps : (c : Channel) → Keeps c (get_last_revoke_and_ack {E = ChannelError} x c)
  unfolding get_last_revoke_and_ack build_local_commitment_secret
  last_raa-Keeps c = ground arith

  last_update-Keeps :
      (c : Channel) → Keeps c (get_last_commitment_update {E = ChannelError} x services c)
  unfolding get_last_commitment_update
  last_update-Keeps c = ground arith

  restored_lem :
      (c c' : Channel) (r : Restored)
      → monitor_updating_restored {E = ChannelError} x services c ≡ done r c'
      → (r.forwards ≡ c.monitor_pending_forwards)
        × (r.failures ≡ c.monitor_pending_failures)
        × (is_some r.raa
            ≡ (not c.channel_state.peer_disconnected && c.monitor_pending_revoke_and_ack))
        × (is_some r.commitment_update
            ≡ (not c.channel_state.peer_disconnected && c.monitor_pending_commitment_signed))
        × (c' ≡ restored c)
  unfolding monitor_updating_restored
  restored_lem c c' r e =
      ground (arith, funding_locked-Keeps c, last_raa-Keeps c, last_update-Keeps c)

  -- What a failed monitor update holds back is given out when the monitor is stored: the forwards, the
  -- failures, and the two messages, which a disconnected peer does not get. The flags of the channel
  -- are those from before, and nothing is held back any more, of the forwards, the failures, the two
  -- messages or a funding_locked, so that nothing is given out twice.
  pub monitor_update_failed-restored :
      (resend_raa resend_commitment : Bool) (forwards : List (PendingHtlcInfo × ℕ))
      (failures : List (HtlcSource × ℕ × HtlcFailReason)) (c c1 c2 : Channel) (r : Restored)
      → monitor_update_failed {E = ChannelError} resend_raa resend_commitment forwards failures c
        ≡ done tt c1
      → monitor_updating_restored {E = ChannelError} x services c1 ≡ done r c2
      → (r.forwards ≡ forwards)
        × (r.failures ≡ failures)
        × (is_some r.raa ≡ (not c.channel_state.peer_disconnected && resend_raa))
        × (is_some r.commitment_update
            ≡ (not c.channel_state.peer_disconnected && resend_commitment))
        × (c2.channel_state ≡ c.channel_state)
        × (c2.monitor_pending_forwards ≡ [])
        × (c2.monitor_pending_failures ≡ [])
        × (c2.monitor_pending_revoke_and_ack ≡ false)
        × (c2.monitor_pending_commitment_signed ≡ false)
        × (c2.monitor_pending_funding_locked ≡ false)
  unfolding monitor_update_failed
  monitor_update_failed-restored resend_raa resend_commitment forwards failures c c1 c2 r e1 e2 =
      ground (arith, e1, restored_lem c1 c2 r e2)
