-- ===== src/Channel/Signed/Safety.antt =====
-- `commitment_signed` as a whole keeps the invariant of the balances.
use rust_lightning.Prelude.{
  ℕ, ◌≡◌, refl, Bool, true, false, Option, List, arith, not, ◌&&◌, ◌||◌, sub64, add64,
}
use rust_lightning.Bitcoin.{Extern, Transaction}
use rust_lightning.Msgs.{RevokeAndAck, CommitmentSigned}
use rust_lightning.ChanUtils.Keys.{TxCreationKeys}
use rust_lightning.ChanUtils.Htlc.{HtlcOutputInCommitment}
use rust_lightning.ChanUtils.Secrets.{build_commitment_secret}
use rust_lightning.Channel.Types.{HtlcSource}
use rust_lightning.Channel.State.{
  Channel, Services, ChannelMonitorUpdate, Outcome, done, failed, panicked, Leaves,
}
use rust_lightning.Channel.Safe.{IsSafeChannel}
use rust_lightning.Channel.Closing.{maybe_propose_first_closing_signed}
use rust_lightning.Channel.Commit.{build_local_commitment_secret}
use rust_lightning.Channel.Commit.Balance.{send_commitment_no_status_check-IsSafe}
use rust_lightning.Channel.Signed.{SignedError, accept_signature, local_update}
use rust_lightning.Channel.Signed.Balance.{Keeps, check_signatures-Keeps, accept_signature-IsSafe}
use rust_lightning.Channel.Signed.Message.{
  check_signatures, answer_while_frozen, answer_signature, commitment_signed,
}

module _ (x : Extern) (services : Services) where
  propose-safe :
      (c : Channel)
      → IsSafeChannel c
      → Leaves IsSafeChannel (maybe_propose_first_closing_signed x services {E = SignedError} c)
  unfolding maybe_propose_first_closing_signed
  propose-safe c s = ground arith

  answer_frozen-IsSafe :
      (must_sign : Bool) (update : ChannelMonitorUpdate) (c : Channel)
      → IsSafeChannel c
      → Leaves IsSafeChannel (answer_while_frozen x services must_sign update c)
  unfolding answer_while_frozen
  answer_frozen-IsSafe false update c s = ground arith
  answer_frozen-IsSafe true update c s =
      let c1 : Channel = record c {
        monitor_pending_revoke_and_ack = true;
        monitor_pending_commitment_signed = c.monitor_pending_commitment_signed || true;
      } in
      ground (arith, send_commitment_no_status_check-IsSafe x services c1 s)

  answer_signature-IsSafe :
      (raa : RevokeAndAck) (need : Bool) (update : ChannelMonitorUpdate) (c : Channel)
      → IsSafeChannel c
      → Leaves IsSafeChannel (answer_signature x services raa need update c)
  unfolding answer_signature
  answer_signature-IsSafe raa need update c s = ground (
    arith,
    answer_frozen-IsSafe (need && not c.channel_state.awaiting_remote_revoke) update c s,
    send_commitment_no_status_check-IsSafe x services c s,
    propose-safe c s,
  )

  -- A peer's commitment_signed leaves a safe channel safe, whether it is refused, or is accepted and
  -- answered.
  pub commitment_signed-IsSafe :
      (msg : CommitmentSigned) (c : Channel)
      → IsSafeChannel c
      → Leaves IsSafeChannel (commitment_signed x services msg c)
  unfolding commitment_signed build_local_commitment_secret
  commitment_signed-IsSafe msg c s =
      go (check_signatures x msg c) refl (check_signatures-Keeps x msg c)
    where
      go :
          (o : Outcome SignedError (
            Transaction
            × TxCreationKeys
            × List (HtlcOutputInCommitment × Option ℕ × Option HtlcSource)))
          → check_signatures x msg c ≡ o
          → Keeps c o
          → Leaves IsSafeChannel (commitment_signed x services msg c)
      go panicked e same = ground arith
      go (failed r c1) e same = ground arith
      go (done (tx, keys, sigs) c1) e same =
          let number = c.cur_local_commitment_transaction_number in
          let next = build_commitment_secret x.sha256 c.commitment_seed (sub64 number 1) in
          let raa : RevokeAndAck = record {
            channel_id = c.channel_id;
            per_commitment_secret =
                build_commitment_secret x.sha256 c.commitment_seed (add64 number 1);
            next_per_commitment_point = x.public_key next;
          } in
          let update = local_update tx keys sigs c in
          let accepted = accept_signature update c in
          ground (
            arith,
            answer_signature-IsSafe raa accepted.1 update accepted.0
                (accept_signature-IsSafe update c s),
          )
