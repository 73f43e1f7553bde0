-- ===== src/Channel/Funds/Kept.antt =====
-- The methods that promise nothing new: adding the peer's HTLC, the removals on both sides, and a
-- commitment_signed in both directions.
use rust_lightning.Prelude.{
  ℕ, ◌≡◌, refl, Bool, true, false, not, ◌&&◌, ◌||◌, Option, none, some, List, [], ◌∷◌, arith, add64,
  sub64,
}
use rust_lightning.Bitcoin.{Extern, Transaction}
use rust_lightning.Msgs.{
  UpdateAddHtlc, UpdateFulfillHtlc, UpdateFailHtlc, UpdateFailMalformedHtlc, OnionErrorPacket,
  CommitmentSigned, RevokeAndAck,
}
use rust_lightning.ChanUtils.Keys.{TxCreationKeys}
use rust_lightning.ChanUtils.Htlc.{HtlcOutputInCommitment}
use rust_lightning.ChanUtils.Secrets.{build_commitment_secret}
use rust_lightning.Channel.Types.{
  HtlcSource, PendingHtlcStatus, HtlcFailReason, claim_htlc, fail_htlc,
}
use rust_lightning.Channel.State.{
  Channel, Services, ChannelMonitorUpdate, Outcome, done, failed, panicked,
}
use rust_lightning.Channel.Safe.{every_outbound}
use rust_lightning.Channel.Funds.{KeepsFunds, PromisesMore}
use rust_lightning.Channel.Add.{update_add_htlc}
use rust_lightning.Channel.Add.Balance.{held_sum-append}
use rust_lightning.Channel.Remove.{
  mark_outbound_htlc_removed, update_fulfill_htlc, update_fail_htlc, update_fail_malformed_htlc,
  fulfill_found, get_update_fulfill_htlc, get_update_fail_htlc,
}
use rust_lightning.Channel.Remove.Balance.{mark_removed-sum}
use rust_lightning.Channel.Closing.{maybe_propose_first_closing_signed}
use rust_lightning.Channel.Commit.{
  upgraded, send_commitment_no_status_check, build_local_commitment_secret,
}
use rust_lightning.Channel.Commit.Balance.{upgrade_outbound-sum, no_state_update-Keeps}
use rust_lightning.Channel.Signed.{SignedError, local_update, accept_signature, accept_fee}
use rust_lightning.Channel.Signed.Balance.{sign_outbound-sum, Keeps, check_signatures-Keeps}
use rust_lightning.Channel.Signed.Message.{
  check_signatures, answer_while_frozen, answer_signature, commitment_signed,
}

pub update_add_htlc-KeepsFunds :
    (msg : UpdateAddHtlc) (status : PendingHtlcStatus) (c : Channel)
    → KeepsFunds c (update_add_htlc msg status c)
unfolding update_add_htlc
update_add_htlc-KeepsFunds msg status c = ground arith

mark_outbound-KeepsFunds :
    (id : ℕ) (hash : Option ℕ) (r : Option HtlcFailReason) (c : Channel)
    → KeepsFunds c (mark_outbound_htlc_removed id hash r c)
unfolding mark_outbound_htlc_removed
mark_outbound-KeepsFunds id hash r c =
    ground (arith, mark_removed-sum every_outbound id hash r c.pending_outbound_htlcs refl)

pub update_fulfill_htlc-KeepsFunds :
    (x : Extern) (msg : UpdateFulfillHtlc) (c : Channel)
    → KeepsFunds c (update_fulfill_htlc x msg c)
unfolding update_fulfill_htlc
update_fulfill_htlc-KeepsFunds x msg c = ground (
  arith,
  mark_outbound-KeepsFunds msg.htlc_id (some (x.hash_number (x.sha256 msg.payment_preimage))) none
      c,
)

pub update_fail_htlc-KeepsFunds :
    (msg : UpdateFailHtlc) (r : HtlcFailReason) (c : Channel)
    → KeepsFunds c (update_fail_htlc msg r c)
unfolding update_fail_htlc
update_fail_htlc-KeepsFunds msg r c =
    ground (arith, mark_outbound-KeepsFunds msg.htlc_id none (some r) c)

pub update_fail_malformed_htlc-KeepsFunds :
    (msg : UpdateFailMalformedHtlc) (r : HtlcFailReason) (c : Channel)
    → KeepsFunds c (update_fail_malformed_htlc msg r c)
unfolding update_fail_malformed_htlc
update_fail_malformed_htlc-KeepsFunds msg r c =
    ground (arith, mark_outbound-KeepsFunds msg.htlc_id none (some r) c)

pub get_update_fulfill_htlc-KeepsFunds :
    (x : Extern) (id : ℕ) (preimage : List ℕ) (c : Channel)
    → KeepsFunds c (get_update_fulfill_htlc x id preimage c)
unfolding get_update_fulfill_htlc fulfill_found
get_update_fulfill_htlc-KeepsFunds x id preimage c =
    ground (arith, held_sum-append c.holding_cell_htlc_updates (claim_htlc preimage id ∷ []))

pub get_update_fail_htlc-KeepsFunds :
    (id : ℕ) (err : OnionErrorPacket) (c : Channel) → KeepsFunds c (get_update_fail_htlc id err c)
unfolding get_update_fail_htlc
get_update_fail_htlc-KeepsFunds id err c =
    ground (arith, held_sum-append c.holding_cell_htlc_updates (fail_htlc id err ∷ []))

pub propose-KeepsFunds {ℓ} :
    (E : Type ℓ) (x : Extern) (services : Services) (c : Channel)
    → KeepsFunds c (maybe_propose_first_closing_signed x services {E = E} c)
unfolding maybe_propose_first_closing_signed
propose-KeepsFunds E x services c = ground arith

module _ (x : Extern) (services : Services) where
  pub send_commitment-KeepsFunds :
      (c : Channel) → KeepsFunds c (send_commitment_no_status_check x services c)
  unfolding send_commitment_no_status_check
  send_commitment-KeepsFunds c = ground (
    arith,
    upgrade_outbound-sum c.pending_outbound_htlcs,
    no_state_update-Keeps x services (upgraded c),
  )

  accept_signature-PromisesMore :
      (update : ChannelMonitorUpdate) (c : Channel) → PromisesMore 0 c (accept_signature update c).0
  unfolding accept_signature accept_fee
  accept_signature-PromisesMore update c =
      ground (arith, sign_outbound-sum c.pending_outbound_htlcs)

  answer_frozen-KeepsFunds :
      (must_sign : Bool) (update : ChannelMonitorUpdate) (c : Channel)
      → KeepsFunds c (answer_while_frozen x services must_sign update c)
  unfolding answer_while_frozen
  answer_frozen-KeepsFunds false update c = ground arith
  answer_frozen-KeepsFunds true update c =
      let c1 : Channel = record c {
        monitor_pending_revoke_and_ack = true;
        monitor_pending_commitment_signed = c.monitor_pending_commitment_signed || true;
      } in
      ground (arith, send_commitment-KeepsFunds c1)

  answer_signature-KeepsFunds :
      (raa : RevokeAndAck) (need : Bool) (update : ChannelMonitorUpdate) (c : Channel)
      → KeepsFunds c (answer_signature x services raa need update c)
  unfolding answer_signature
  answer_signature-KeepsFunds raa need update c = ground (
    arith,
    answer_frozen-KeepsFunds (need && not c.channel_state.awaiting_remote_revoke) update c,
    send_commitment-KeepsFunds c,
    propose-KeepsFunds SignedError x services c,
  )

  pub commitment_signed-KeepsFunds :
      (msg : CommitmentSigned) (c : Channel) → KeepsFunds c (commitment_signed x services msg c)
  unfolding commitment_signed build_local_commitment_secret
  commitment_signed-KeepsFunds msg c =
      go (check_signatures x msg c) refl (check_signatures-Keeps x msg c)
    where
      go :
          (o : Outcome SignedError (
            Transaction
            × TxCreationKeys
            × List (HtlcOutputInCommitment × Option ℕ × Option HtlcSource)))
          → check_signatures x msg c ≡ o
          → Keeps c o
          → KeepsFunds c (commitment_signed x services msg c)
      go panicked e same = ground arith
      go (failed r c1) e same = ground arith
      go (done (tx, keys, sigs) c1) e same =
          let number = c.cur_local_commitment_transaction_number in
          let raa : RevokeAndAck = record {
            channel_id = c.channel_id;
            per_commitment_secret =
                build_commitment_secret x.sha256 c.commitment_seed (add64 number 1);
            next_per_commitment_point =
                x.public_key (build_commitment_secret x.sha256 c.commitment_seed (sub64 number 1));
          } in
          let update = local_update tx keys sigs c in
          let accepted = accept_signature update c in
          ground (
            arith,
            accept_signature-PromisesMore update c,
            answer_signature-KeepsFunds raa accepted.1 update accepted.0,
          )
