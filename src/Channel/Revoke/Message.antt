-- ===== src/Channel/Revoke/Message.antt =====
-- lightning/src/ln/channel.rs: `revoke_and_ack`, the whole handler.
use rust_lightning.Prelude.{
  ℕ, Bool, true, false, not, ◌&&◌, ◌||◌, Option, none, some, List, [], ◌∷◌, ◌++◌, if◌then◌else◌,
  ◌==◌, add64, is_some,
}
use rust_lightning.Bitcoin.{Extern}
use rust_lightning.Msgs.{RevokeAndAck}
use rust_lightning.ChanUtils.Secrets.{provide_secret}
use rust_lightning.Channel.Types.{HtlcSource, PendingHtlcInfo, HtlcFailReason}
use rust_lightning.Channel.State.{
  Channel, Services, commitment_secret, ChannelMonitorUpdate, ChannelError, close, done, failed,
  panicked, Method, ◌>>=◌, ◌>>◌, raise_if, not_operational, needs_channel_reestablish,
  after_closing_signed, invalid_secret, wrong_secret, unexpected_revoke_and_ack, mismatched_secrets,
}
use rust_lightning.Channel.Closing.{maybe_propose_first_closing_signed}
use rust_lightning.Channel.Commit.{ok_or_close, send_commitment_no_status_check, joined}
use rust_lightning.Channel.HoldingCell.{free_holding_cell_htlcs}
use rust_lightning.Channel.Revoke.{
  Promoted, promote_inbound, promote_outbound, retain_inbound, retain_outbound, revoked_htlcs,
  step_htlcs, step_fee, revoked, RevokeResult,
}

-- The secret is wrong for the point that it has to belong to, if there is one.
abbrev pub is_wrong_point : Option ℕ → ℕ → Bool
is_wrong_point none point = false
is_wrong_point (some expected) point = not (point == expected)

abbrev pub revocation : RevokeAndAck → Channel → ChannelMonitorUpdate
revocation msg c = record {
  update_id = add64 c.latest_monitor_update_id 1;
  updates =
      commitment_secret (add64 c.cur_remote_commitment_transaction_number 1)
        msg.per_commitment_secret
      ∷ [];
}

module _ (x : Extern) (services : Services) where
  open x use {sha256, is_secret_key, public_key}

  -- The end, while the monitor cannot be updated: what is to be sent waits.
  unfoldable pub revoke_while_frozen :
      Bool
      → List (PendingHtlcInfo × ℕ)
      → List (HtlcSource × ℕ × HtlcFailReason)
      → ChannelMonitorUpdate
      → Method ChannelError RevokeResult
  revoke_while_frozen require_commitment infos revoked_htlcs update c =
      let pend = λ (c' : Channel). record c' {
        monitor_pending_forwards = c'.monitor_pending_forwards ++ infos;
        monitor_pending_failures = c'.monitor_pending_failures ++ revoked_htlcs;
      } in
      if require_commitment
      then elim (send_commitment_no_status_check x services
          (record c { monitor_pending_commitment_signed = true })) [
            | panicked ↦ panicked
            | failed e c1 ↦ failed e c1
            | done (_, additional) c1 ↦
                let (update', c2) = joined x services update additional c1 in
                done (none, [], [], none, update') (pend c2)
          ]
      else done (none, [], [], none, update) (pend c)

  -- The end with nothing in the holding cell: the messages of the third loop, with a
  -- commitment_signed if one is required.
  unfoldable pub revoke_with_nothing_held :
      Bool
      → Promoted
      → List (HtlcSource × ℕ × HtlcFailReason)
      → ChannelMonitorUpdate
      → Method ChannelError RevokeResult
  revoke_with_nothing_held require_commitment promoted revoked_htlcs update c =
      if require_commitment
      then elim (send_commitment_no_status_check x services c) [
        | panicked ↦ panicked
        | failed e c1 ↦ failed e c1
        | done (commitment_signed, additional) c1 ↦
            let (update', c2) = joined x services update additional c1 in
            done
              (
                some (record {
                  update_add_htlcs = [];
                  update_fulfill_htlcs = [];
                  update_fail_htlcs = promoted.update_fail_htlcs;
                  update_fail_malformed_htlcs = promoted.update_fail_malformed_htlcs;
                  update_fee = none;
                  commitment_signed = commitment_signed;
                }),
                promoted.to_forward_infos,
                revoked_htlcs,
                none,
                update',
              )
              c2
      ]
      else elim (maybe_propose_first_closing_signed x services {E = ChannelError} c) [
        | panicked ↦ panicked
        | failed e c1 ↦ failed e c1
        | done closing c1 ↦
            done (none, promoted.to_forward_infos, revoked_htlcs, closing, update) c1
      ]

  unfoldable pub revoke_and_free :
      Bool
      → Promoted
      → List (HtlcSource × ℕ × HtlcFailReason)
      → ChannelMonitorUpdate
      → Method ChannelError RevokeResult
  unfolding revoke_with_nothing_held
  revoke_and_free require_commitment promoted revoked_htlcs update c =
      elim (free_holding_cell_htlcs x services c) [
        | panicked ↦ panicked
        | failed e c1 ↦ failed e c1
        | done none c1 ↦
            revoke_with_nothing_held require_commitment promoted revoked_htlcs update c1
        | done (some (messages, additional)) c1 ↦
            let (update', c2) = joined x services update additional c1 in
            done
              (
                some (record messages {
                  update_fail_htlcs = messages.update_fail_htlcs ++ promoted.update_fail_htlcs;
                  update_fail_malformed_htlcs =
                      messages.update_fail_malformed_htlcs ++ promoted.update_fail_malformed_htlcs;
                }),
                promoted.to_forward_infos,
                revoked_htlcs,
                none,
                update',
              )
              c2
      ]

  -- The end of the handler.
  unfoldable pub revoke_end :
      Bool
      → Promoted
      → List (HtlcSource × ℕ × HtlcFailReason)
      → ChannelMonitorUpdate
      → Method ChannelError RevokeResult
  unfolding revoke_while_frozen revoke_and_free
  revoke_end require_commitment promoted revoked_htlcs update c =
      if c.channel_state.monitor_update_failed
      then revoke_while_frozen require_commitment promoted.to_forward_infos revoked_htlcs update c
      else revoke_and_free require_commitment promoted revoked_htlcs update c

  -- Everything after the new secret is stored.
  unfoldable pub revoke_stored : RevokeAndAck → Method ChannelError RevokeResult
  unfolding revoke_end
  revoke_stored msg c =
      let update = revocation msg c in
      let promoted = promote_inbound (retain_inbound c.pending_inbound_htlcs) in
      let outbound = promote_outbound (retain_outbound c.pending_outbound_htlcs) in
      let stepped = step_fee (step_htlcs (revoked msg update c)) in
      revoke_end (promoted.require_commitment || outbound.1 || stepped.1) promoted
        (revoked_htlcs c.pending_outbound_htlcs) update stepped.0

  unfoldable pub revoke_and_ack : RevokeAndAck → Method ChannelError RevokeResult
  unfolding revoke_stored
  revoke_and_ack msg c =
      (do
        let s = c.channel_state
        raise_if (not s.channel_funded) (close not_operational)
        raise_if s.peer_disconnected (close needs_channel_reestablish)
        raise_if
            (s.local_shutdown_sent && s.remote_shutdown_sent && is_some c.last_sent_closing_fee)
            (close after_closing_signed)
        raise_if
            (is_some c.their_prev_commitment_point && not (is_secret_key msg.per_commitment_secret))
            (close invalid_secret)
        raise_if
            (is_wrong_point c.their_prev_commitment_point (public_key msg.per_commitment_secret))
            (close wrong_secret)
        raise_if (not s.awaiting_remote_revoke) (close unexpected_revoke_and_ack)
        secrets ← ok_or_close mismatched_secrets (
            provide_secret sha256 c.commitment_secrets
              (add64 c.cur_remote_commitment_transaction_number 1) msg.per_commitment_secret)
        λ c'. revoke_stored msg (record c' { commitment_secrets = secrets }))
        c
