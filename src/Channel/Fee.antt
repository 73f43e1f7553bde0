-- ===== src/Channel/Fee.antt =====
-- lightning/src/ln/channel.rs: the feerate of the commitment transactions.
use rust_lightning.Prelude.{
  ℕ, ◌+◌, ◌%◌, ◌^◌, Bool, not, ◌&&◌, Option, none, some, if◌then◌else◌, ltb, mul64,
}
use rust_lightning.Bitcoin.{Extern}
use rust_lightning.Msgs.{UpdateFee, CommitmentSigned}
use rust_lightning.Channel.State.{
  ChannelState, Services, background, high_priority, ChannelMonitorUpdate, ChannelError, close,
  done, failed, panicked, Method, ◌>>◌, raise_if, panic_if, modify, not_funder,
  needs_channel_reestablish, feerate_too_low, feerate_too_high,
}
use rust_lightning.Channel.Commit.{send_commitment_no_status_check}

abbrev pub is_usable : ChannelState → Bool
is_usable s = s.channel_funded && not s.local_shutdown_sent && not s.remote_shutdown_sent

abbrev pub is_live : ChannelState → Bool
is_live s = is_usable s && not s.peer_disconnected && not s.monitor_update_failed

-- The message may only be sent at once if we do not wait for a revocation.
unfoldable pub send_update_fee {ℓ} : {E : Type ℓ} → ℕ → Method E (Option UpdateFee)
send_update_fee feerate_per_kw c =
    (do
      let s = c.channel_state
      panic_if (not c.channel_outbound)
      panic_if (not (is_usable s))
      panic_if (not (is_live s))
      λ _.
          if s.awaiting_remote_revoke
          then done none (record c { holding_cell_update_fee = some feerate_per_kw })
          else done
              (some
                (record { channel_id = c.channel_id; feerate_per_kw = feerate_per_kw % 2 ^ 32 }))
              (record c { pending_update_fee = some feerate_per_kw }))
      c

module _ (services : Services) where
  open services use {get_est_sat_per_1000_weight}

  unfoldable pub check_remote_fee : ℕ → Method ChannelError (Unit {0})
  check_remote_fee feerate_per_kw c =
      (do
        raise_if (ltb feerate_per_kw (get_est_sat_per_1000_weight background))
            (close feerate_too_low)
        raise_if (ltb (mul64 (get_est_sat_per_1000_weight high_priority) 2) feerate_per_kw)
            (close feerate_too_high))
        c

  unfoldable pub update_fee : UpdateFee → Method ChannelError (Unit {0})
  unfolding check_remote_fee
  update_fee msg c =
      (do
        raise_if c.channel_outbound (close not_funder)
        raise_if c.channel_state.peer_disconnected (close needs_channel_reestablish)
        check_remote_fee msg.feerate_per_kw
        modify (λ c'. record c' {
          pending_update_fee = some msg.feerate_per_kw;
          update_time_counter = (c'.update_time_counter + 1) % 2 ^ 32;
        }))
        c

  unfoldable pub send_update_fee_and_commit :
      (x : Extern)
      → ℕ
      → Method ChannelError (Option (UpdateFee × CommitmentSigned × ChannelMonitorUpdate))
  unfolding send_update_fee
  send_update_fee_and_commit x feerate_per_kw c =
      elim (send_update_fee {E = ChannelError} feerate_per_kw c) [
        | panicked ↦ panicked
        | failed e c1 ↦ failed e c1
        | done none c1 ↦ done none c1
        | done (some msg) c1 ↦ elim (send_commitment_no_status_check x services c1) [
          | panicked ↦ panicked
          | failed e c2 ↦ failed e c2
          | done (signed, update) c2 ↦ done (some (msg, signed, update)) c2
        ]
      ]
