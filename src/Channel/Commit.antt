-- ===== src/Channel/Commit.antt =====
-- lightning/src/ln/channel.rs: `send_commitment` and its parts, which sign the peer's next commitment
-- transaction. The logging of the signed transactions is left out.
pub mod Balance
pub mod Signable
use rust_lightning.Prelude.{
  ℕ, Bool, true, false, not, ◌||◌, Option, none, some, List, [], ◌∷◌, ◌++◌, map, if◌then◌else◌,
  add64, is_some,
}
use rust_lightning.Bitcoin.{Extern, Transaction}
use rust_lightning.Msgs.{CommitmentSigned, UpdateAddHtlc, UpdateFulfillHtlc, UpdateFee, OnionPacket}
use rust_lightning.ChanUtils.Keys.{TxCreationKeys, new_tx_creation_keys}
use rust_lightning.ChanUtils.Secrets.{build_commitment_secret}
use rust_lightning.Channel.Types.{
  HtlcSource, InboundHtlcState, InboundHtlcOutput, OutboundHtlcState, OutboundHtlcOutput,
  revoke_and_ack_first,
}
use rust_lightning.Channel.State.{
  Channel, Services, ChannelMonitorUpdate, latest_remote_commitment_tx_info, Reason, ChannelError,
  close, Outcome, done, failed, panicked, Method, ◌>>=◌, ◌>>◌, unwrap, panic_if, modify, bogus_keys,
  no_signature,
}
use rust_lightning.Channel.Transaction.{SourcedHtlc, build_commitment_transaction}
use rust_lightning.Channel.Add.{send_htlc}
use rust_lightning.Channel.Remove.{get_update_fulfill_htlc, is_local_removed}

-- A result that becomes an error of the channel: `map_err` and `secp_check!`.
abbrev pub ok_or_close {ℓ} : {A : Type ℓ} → Reason → Option A → Method ChannelError A
ok_or_close r none c = failed (close r) c
ok_or_close r (some a) c = done a c

-- The HTLCs whose state waits for our commitment_signed step on when we generate it.
unfoldable pub upgrade_inbound : List InboundHtlcOutput → List InboundHtlcOutput
upgrade_inbound [] = []
upgrade_inbound (htlc ∷ htlcs) = elim htlc.state [
  | InboundHtlcState.awaiting_remote_revoke_to_announce status ↦
      record htlc { state = InboundHtlcState.awaiting_announced_remote_revoke status }
      ∷ upgrade_inbound htlcs
  | InboundHtlcState.remote_announced _ ↦ htlc ∷ upgrade_inbound htlcs
  | InboundHtlcState.awaiting_announced_remote_revoke _ ↦ htlc ∷ upgrade_inbound htlcs
  | InboundHtlcState.committed ↦ htlc ∷ upgrade_inbound htlcs
  | InboundHtlcState.local_removed _ ↦ htlc ∷ upgrade_inbound htlcs
]

unfoldable pub upgrade_outbound : List OutboundHtlcOutput → List OutboundHtlcOutput
upgrade_outbound [] = []
upgrade_outbound (htlc ∷ htlcs) = elim htlc.state [
  | OutboundHtlcState.awaiting_remote_revoke_to_remove fail_reason ↦
      record htlc { state = OutboundHtlcState.awaiting_removed_remote_revoke fail_reason }
      ∷ upgrade_outbound htlcs
  | OutboundHtlcState.local_announced _ ↦ htlc ∷ upgrade_outbound htlcs
  | OutboundHtlcState.committed ↦ htlc ∷ upgrade_outbound htlcs
  | OutboundHtlcState.remote_removed _ ↦ htlc ∷ upgrade_outbound htlcs
  | OutboundHtlcState.awaiting_removed_remote_revoke _ ↦ htlc ∷ upgrade_outbound htlcs
]

abbrev pub upgraded : Channel → Channel
upgraded c = record c {
  pending_inbound_htlcs = upgrade_inbound c.pending_inbound_htlcs;
  pending_outbound_htlcs = upgrade_outbound c.pending_outbound_htlcs;
  resend_order = revoke_and_ack_first;
}

-- The feerate of the peer's next transaction.
abbrev pub commitment_feerate : Channel → ℕ
commitment_feerate c = elim c.pending_update_fee [
  | none ↦ c.feerate_per_kw
  | some feerate ↦ if c.channel_outbound then feerate else c.feerate_per_kw
]

-- What `send_commitment` asserts to have: a fee or an HTLC to announce, or one that we removed.
unfoldable pub has_local_announced : List OutboundHtlcOutput → Bool
has_local_announced [] = false
has_local_announced (htlc ∷ htlcs) = elim htlc.state [
  | OutboundHtlcState.local_announced _ ↦ true
  | OutboundHtlcState.committed ↦ has_local_announced htlcs
  | OutboundHtlcState.remote_removed _ ↦ has_local_announced htlcs
  | OutboundHtlcState.awaiting_remote_revoke_to_remove _ ↦ has_local_announced htlcs
  | OutboundHtlcState.awaiting_removed_remote_revoke _ ↦ has_local_announced htlcs
]

unfoldable pub has_local_removed : List InboundHtlcOutput → Bool
has_local_removed [] = false
has_local_removed (htlc ∷ htlcs) = is_local_removed htlc.state || has_local_removed htlcs

module _ (x : Extern) where
  open x use {is_secret_key, public_key}

  unfoldable pub build_local_commitment_secret {ℓ} : {E : Type ℓ} → ℕ → Method E (List ℕ)
  build_local_commitment_secret idx c =
      let res = build_commitment_secret x.sha256 c.commitment_seed idx in
      unwrap (if is_secret_key res then some res else none) c

  unfoldable pub build_local_transaction_keys : ℕ → Method ChannelError TxCreationKeys
  build_local_transaction_keys commitment_number c =
      (do
        secret ← build_local_commitment_secret commitment_number
        let ours = c.our_pubkeys
        theirs ← unwrap c.their_pubkeys
        ok_or_close bogus_keys (
            new_tx_creation_keys x (public_key secret) ours.delayed_payment_basepoint
              ours.htlc_basepoint theirs.revocation_basepoint theirs.payment_basepoint
              theirs.htlc_basepoint))
        c

  unfoldable pub build_remote_transaction_keys : Method ChannelError TxCreationKeys
  build_remote_transaction_keys c =
      (do
        let ours = c.our_pubkeys
        theirs ← unwrap c.their_pubkeys
        point ← unwrap c.their_cur_commitment_point
        ok_or_close bogus_keys (
            new_tx_creation_keys x point theirs.delayed_payment_basepoint theirs.htlc_basepoint
              ours.revocation_basepoint ours.payment_basepoint ours.htlc_basepoint))
        c

  module _ (services : Services) where
    open services use {sign_remote_commitment}

    unfoldable pub send_commitment_no_state_update :
        Method ChannelError (CommitmentSigned × Transaction × List SourcedHtlc)
    unfolding build_remote_transaction_keys
    send_commitment_no_state_update c =
        (do
          remote_keys ← build_remote_transaction_keys
          (tx, _, htlcs) ← unwrap (
              build_commitment_transaction x c c.cur_remote_commitment_transaction_number
                remote_keys false true (commitment_feerate c))
          (signature, htlc_signatures) ← ok_or_close no_signature (
              sign_remote_commitment (commitment_feerate c) tx remote_keys
                (map (λ htlc. htlc.0) htlcs) c.our_to_self_delay)
          done (
            record {
              channel_id = c.channel_id;
              signature = signature;
              htlc_signatures = htlc_signatures;
            },
            tx,
            htlcs,
          ))
          c

    -- The end of `send_commitment_no_status_check`: the monitor learns the transaction.
    abbrev pub commitment_sent :
        CommitmentSigned × Transaction × List SourcedHtlc
        → ℕ
        → Method ChannelError (CommitmentSigned × ChannelMonitorUpdate)
    commitment_sent (res, tx, htlcs) point c =
        let id = add64 c.latest_monitor_update_id 1 in
        let step =
          latest_remote_commitment_tx_info tx htlcs c.cur_remote_commitment_transaction_number
            point in
        done (res, record { update_id = id; updates = step ∷ [] })
          (record c {
            latest_monitor_update_id = id;
            channel_monitor = c.channel_monitor ++ (step ∷ []);
            channel_state = record c.channel_state { awaiting_remote_revoke = true };
          })

    unfoldable pub send_commitment_no_status_check :
        Method ChannelError (CommitmentSigned × ChannelMonitorUpdate)
    send_commitment_no_status_check c =
        (do
          modify upgraded
          signed ← send_commitment_no_state_update
          point ← unwrap c.their_cur_commitment_point
          commitment_sent signed point)
          c

    unfoldable pub send_commitment : Method ChannelError (CommitmentSigned × ChannelMonitorUpdate)
    unfolding send_commitment_no_status_check
    send_commitment c =
        (do
          let s = c.channel_state
          panic_if (not s.channel_funded)
          panic_if s.awaiting_remote_revoke
          panic_if s.peer_disconnected
          panic_if s.monitor_update_failed
          panic_if (
              not (
                is_some c.pending_update_fee
                || has_local_announced c.pending_outbound_htlcs
                || has_local_removed c.pending_inbound_htlcs))
          send_commitment_no_status_check)
          c

    unfoldable pub send_htlc_and_commit :
        ℕ
        → ℕ
        → ℕ
        → HtlcSource
        → OnionPacket
        → Method ChannelError (Option (UpdateAddHtlc × CommitmentSigned × ChannelMonitorUpdate))
    unfolding send_commitment_no_status_check
    send_htlc_and_commit amount payment_hash cltv_expiry source onion c =
        elim (send_htlc amount payment_hash cltv_expiry source onion c) [
          | panicked ↦ panicked
          | failed e c1 ↦ failed e c1
          | done none c1 ↦ done none c1
          | done (some update) c1 ↦ elim (send_commitment_no_status_check c1) [
            | panicked ↦ panicked
            | failed e c2 ↦ failed e c2
            | done (signed, monitor_update) c2 ↦ done (some (update, signed, monitor_update)) c2
          ]
        ]

    -- The second update joins the first one, under its number.
    abbrev pub joined :
        ChannelMonitorUpdate → ChannelMonitorUpdate → Channel → ChannelMonitorUpdate × Channel
    joined first second c = (
      record { update_id = first.update_id; updates = first.updates ++ second.updates },
      record c { latest_monitor_update_id = first.update_id },
    )

    unfoldable pub get_update_fulfill_htlc_and_commit :
        ℕ
        → List ℕ
        → Method ChannelError
            (Option (UpdateFulfillHtlc × CommitmentSigned) × Option ChannelMonitorUpdate)
    unfolding send_commitment_no_status_check
    get_update_fulfill_htlc_and_commit htlc_id preimage c =
        elim (get_update_fulfill_htlc x htlc_id preimage c) [
          | panicked ↦ panicked
          | failed e c1 ↦ failed e c1
          | done (none, update) c1 ↦ done (none, update) c1
          | done (some fulfill, update) c1 ↦ elim (send_commitment_no_status_check c1) [
            | panicked ↦ panicked
            | failed e c2 ↦ failed e c2
            | done (signed, additional) c2 ↦ elim update [
              | none ↦ done (some (fulfill, signed), some additional) c2
              | some first ↦
                  let (update', c3) = joined first additional c2 in
                  done (some (fulfill, signed), some update') c3
            ]
          ]
        ]
