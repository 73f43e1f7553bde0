-- ===== src/Channel/Signed/Message.antt =====
-- lightning/src/ln/channel.rs: `commitment_signed`, the whole handler.
use rust_lightning.Prelude.{
  ℕ, ◌+◌, ◌/◌, Bool, true, false, not, ◌&&◌, ◌||◌, Option, none, some, List, [], ◌∷◌, if◌then◌else◌,
  ◌==◌, length, get_elem?, add64, sub64, is_some,
}
use rust_lightning.Bitcoin.{Extern, Transaction}
use rust_lightning.Msgs.{CommitmentSigned, RevokeAndAck, ClosingSigned}
use rust_lightning.ChanUtils.Keys.{TxCreationKeys}
use rust_lightning.ChanUtils.Secrets.{build_commitment_secret}
use rust_lightning.ChanUtils.Htlc.{
  HtlcOutputInCommitment, get_htlc_redeemscript, make_funding_redeemscript, build_htlc_transaction,
}
use rust_lightning.Channel.Types.{HtlcSource}
use rust_lightning.Channel.State.{
  Channel, Services, ChannelMonitorUpdate, close, ignore, done, failed, panicked, Method, ◌>>=◌,
  ◌>>◌, unwrap, raise_if, not_operational, needs_channel_reestablish, after_closing_signed,
  invalid_signature, cannot_afford_fee, wrong_signature_count, invalid_htlc_signature,
  disconnected_or_frozen,
}
use rust_lightning.Channel.Transaction.{SourcedHtlc, build_commitment_transaction}
use rust_lightning.Channel.Closing.{maybe_propose_first_closing_signed}
use rust_lightning.Channel.Commit.{
  build_local_commitment_secret, build_local_transaction_keys, send_commitment_no_status_check,
  joined,
}
use rust_lightning.Channel.Signed.{
  SignedError, no_update, local_feerate, is_unaffordable, local_update, accept_signature,
}

abbrev pub SignedResult : Type 0
SignedResult = RevokeAndAck × Option CommitmentSigned × Option ClosingSigned × ChannelMonitorUpdate

module _ (x : Extern) where
  open x use {sighash_all, verify, tx_id}

  -- One round of the loop over the HTLCs of our transaction: an HTLC with an output has its signature
  -- checked.
  unfoldable pub check_htlc :
      TxCreationKeys
      → ℕ
      → ℕ
      → ℕ
      → List ℕ
      → ℕ
      → SourcedHtlc
      → Method SignedError (HtlcOutputInCommitment × Option ℕ × Option HtlcSource)
  check_htlc keys txid feerate delay sigs idx (htlc, source) c =
      elim htlc.transaction_output_index [
        | none ↦ done (htlc, none, source) c
        | some _ ↦
            (do
              htlc_tx ← unwrap (
                  build_htlc_transaction x txid feerate delay htlc keys.a_delayed_payment_key
                    keys.revocation_key)
              sig ← unwrap (get_elem? sigs idx)
              let htlc_sighash =
                  sighash_all htlc_tx (get_htlc_redeemscript x htlc keys) (htlc.amount_msat / 1000)
              raise_if (not (verify htlc_sighash sig keys.b_htlc_key))
                  (none, close invalid_htlc_signature)
              done (htlc, some sig, source))
              c
      ]

  -- The loop, from position `idx` on.
  unfoldable pub check_htlcs :
      TxCreationKeys
      → ℕ
      → ℕ
      → ℕ
      → List ℕ
      → ℕ
      → List SourcedHtlc
      → Method SignedError (List (HtlcOutputInCommitment × Option ℕ × Option HtlcSource))
  unfolding check_htlc
  check_htlcs keys txid feerate delay sigs idx [] c = done [] c
  check_htlcs keys txid feerate delay sigs idx (htlc ∷ htlcs) c =
      let rest = check_htlcs keys txid feerate delay sigs (idx + 1) htlcs in
      (do
        first ← check_htlc keys txid feerate delay sigs idx htlc
        checked ← rest
        done (first ∷ checked))
        c

  -- The checks: they give the transaction, its keys and its HTLCs, or an error, and change nothing.
  unfoldable pub check_signatures :
      CommitmentSigned
      → Method SignedError (
          Transaction
          × TxCreationKeys
          × List (HtlcOutputInCommitment × Option ℕ × Option HtlcSource))
  unfolding check_htlcs
  check_signatures msg c =
      (do
        theirs ← unwrap c.their_pubkeys
        let funding_script =
            make_funding_redeemscript x c.our_pubkeys.funding_pubkey theirs.funding_pubkey
        local_keys ←
            no_update (build_local_transaction_keys x c.cur_local_commitment_transaction_number)
        (tx, num_htlcs, htlcs) ← unwrap (
            build_commitment_transaction x c c.cur_local_commitment_transaction_number local_keys
              true false (local_feerate c))
        let local_sighash = sighash_all tx funding_script c.channel_value_satoshis
        raise_if (not (verify local_sighash msg.signature theirs.funding_pubkey))
            (none, close invalid_signature)
        raise_if (is_unaffordable c num_htlcs) (none, close cannot_afford_fee)
        raise_if (not (length msg.htlc_signatures == num_htlcs)) (none, close wrong_signature_count)
        checked ←
            check_htlcs local_keys (tx_id tx) (local_feerate c) c.their_to_self_delay
              msg.htlc_signatures 0 htlcs
        done (tx, local_keys, checked))
        c

module _ (x : Extern) (services : Services) where
  open x use {sha256, public_key}

  -- After the state has changed, while the monitor cannot be updated: nothing but the update.
  unfoldable pub answer_while_frozen : Bool → ChannelMonitorUpdate → Method SignedError SignedResult
  answer_while_frozen must_sign update c =
      let c1 : Channel = record c {
        monitor_pending_revoke_and_ack = true;
        monitor_pending_commitment_signed = c.monitor_pending_commitment_signed || must_sign;
      } in
      if must_sign
      then elim (send_commitment_no_status_check x services c1) [
        | panicked ↦ panicked
        | failed e c2 ↦ failed (none, e) c2
        | done (_, additional) c2 ↦
            let (update', c3) = joined x services update additional c2 in
            failed (some update', ignore disconnected_or_frozen) c3
      ]
      else failed (some update, ignore disconnected_or_frozen) c1

  -- Otherwise our own commitment_signed, if it is needed and may be sent, or the end of the channel.
  unfoldable pub answer_signature :
      RevokeAndAck → Bool → ChannelMonitorUpdate → Method SignedError SignedResult
  unfolding answer_while_frozen
  answer_signature raa need_our_commitment update c =
      let must_sign = need_our_commitment && not c.channel_state.awaiting_remote_revoke in
      if c.channel_state.monitor_update_failed
      then answer_while_frozen must_sign update c
      else if must_sign
      then elim (send_commitment_no_status_check x services c) [
        | panicked ↦ panicked
        | failed e c1 ↦ failed (none, e) c1
        | done (msg, additional) c1 ↦
            let (update', c2) = joined x services update additional c1 in
            done (raa, some msg, none, update') c2
      ]
      else if need_our_commitment
      then done (raa, none, none, update) c
      else elim (maybe_propose_first_closing_signed x services {E = SignedError} c) [
        | panicked ↦ panicked
        | failed e c1 ↦ failed e c1
        | done closing c1 ↦ done (raa, none, closing, update) c1
      ]

  unfoldable pub commitment_signed : CommitmentSigned → Method SignedError SignedResult
  unfolding check_signatures answer_signature
  commitment_signed msg c =
      (do
        let s = c.channel_state
        raise_if (not s.channel_funded) (none, close not_operational)
        raise_if s.peer_disconnected (none, close needs_channel_reestablish)
        raise_if
            (s.local_shutdown_sent && s.remote_shutdown_sent && is_some c.last_sent_closing_fee)
            (none, close after_closing_signed)
        (tx, local_keys, htlcs_and_sigs) ← check_signatures x msg
        next_secret ←
            build_local_commitment_secret x (sub64 c.cur_local_commitment_transaction_number 1)
        let raa : RevokeAndAck = record {
          channel_id = c.channel_id;
          per_commitment_secret =
              build_commitment_secret sha256 c.commitment_seed
                (add64 c.cur_local_commitment_transaction_number 1);
          next_per_commitment_point = public_key next_secret;
        }
        let update = local_update tx local_keys htlcs_and_sigs c
        let accepted = accept_signature update c
        λ _. answer_signature raa accepted.1 update accepted.0)
        c
