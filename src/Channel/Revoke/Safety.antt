-- ===== src/Channel/Revoke/Safety.antt =====
-- `revoke_and_ack` as a whole keeps the invariant of the balances and counts the monitor's updates.
use rust_lightning.Prelude.{
  ℕ, ◌^◌, ◌≤◌, ◌<◌, ◌≡◌, refl, Bool, true, Option, none, some, List, ◌||◌, arith, add64, inl, inr,
  Option-cases,
}
use rust_lightning.Bitcoin.{Extern}
use rust_lightning.Msgs.{RevokeAndAck, CommitmentUpdate, ClosingSigned}
use rust_lightning.ChanUtils.Secrets.{provide_secret}
use rust_lightning.Channel.Types.{HtlcSource, PendingHtlcInfo, HtlcFailReason}
use rust_lightning.Channel.State.{
  Channel, Services, ChannelMonitorUpdate, ChannelError, Outcome, done, failed, panicked, Leaves,
}
use rust_lightning.Channel.Safe.{IsSafeChannel}
use rust_lightning.Channel.Add.Balance.{held_sum}
use rust_lightning.Channel.Closing.{maybe_propose_first_closing_signed}
use rust_lightning.Channel.Commit.Balance.{send_commitment_no_status_check-IsSafe}
use rust_lightning.Channel.HoldingCell.{free_holding_cell_htlcs}
use rust_lightning.Channel.HoldingCell.Balance.{free_holding_cell_htlcs-IsSafe}
use rust_lightning.Channel.Revoke.{
  Promoted, promote_inbound, promote_outbound, retain_inbound, retain_outbound, revoked_htlcs,
  step_htlcs, step_fee, revoked,
}
use rust_lightning.Channel.Revoke.Balance.{step_htlcs-IsSafe}
use rust_lightning.Channel.Revoke.Message.{
  revocation, revoke_while_frozen, revoke_with_nothing_held, revoke_and_free, revoke_end,
  revoke_stored, revoke_and_ack,
}

-- What a revocation needs of the channel, and what its steps do not change.
record CanRevoke (c : Channel) : Type 0 where
  is_safe : IsSafeChannel c
  reserve : c.their_channel_reserve_satoshis ≤ c.channel_value_satoshis
  held : held_sum c.holding_cell_htlc_updates < 2 ^ 63

step_fee-CanRevoke : (c : Channel) → CanRevoke c → CanRevoke (step_fee c).0
unfolding step_fee
step_fee-CanRevoke c s = ground (arith, s.is_safe, s.reserve, s.held)

stepped-CanRevoke :
    (msg : RevokeAndAck) (update : ChannelMonitorUpdate) (c : Channel)
    → CanRevoke c
    → CanRevoke (step_htlcs (revoked msg update c))
unfolding step_htlcs
stepped-CanRevoke msg update c s = record {
  is_safe = step_htlcs-IsSafe (revoked msg update c) s.is_safe;
  reserve = s.reserve;
  held = s.held;
}

module _ (x : Extern) (services : Services) where
  propose-IsSafe :
      (c : Channel)
      → IsSafeChannel c
      → Leaves IsSafeChannel (maybe_propose_first_closing_signed x services {E = ChannelError} c)
  unfolding maybe_propose_first_closing_signed
  propose-IsSafe c s = ground arith

  frozen-IsSafe :
      (require : Bool) (infos : List (PendingHtlcInfo × ℕ))
      (failures : List (HtlcSource × ℕ × HtlcFailReason)) (update : ChannelMonitorUpdate)
      (c : Channel)
      → IsSafeChannel c
      → Leaves IsSafeChannel (revoke_while_frozen x services require infos failures update c)
  unfolding revoke_while_frozen
  frozen-IsSafe require infos failures update c s = ground (
    arith,
    send_commitment_no_status_check-IsSafe x services
        (record c { monitor_pending_commitment_signed = true }) s,
  )

  nothing_held-IsSafe :
      (require : Bool) (promoted : Promoted) (failures : List (HtlcSource × ℕ × HtlcFailReason))
      (update : ChannelMonitorUpdate) (c : Channel)
      → IsSafeChannel c
      → Leaves IsSafeChannel
          (revoke_with_nothing_held x services require promoted failures update c)
  unfolding revoke_with_nothing_held
  nothing_held-IsSafe require promoted failures update c s =
      ground (arith, send_commitment_no_status_check-IsSafe x services c s, propose-IsSafe c s)

  free-IsSafe :
      (require : Bool) (promoted : Promoted) (failures : List (HtlcSource × ℕ × HtlcFailReason))
      (update : ChannelMonitorUpdate) (c : Channel)
      → CanRevoke c
      → Leaves IsSafeChannel (revoke_and_free x services require promoted failures update c)
  unfolding revoke_and_free
  free-IsSafe require promoted failures update c s =
      go (free_holding_cell_htlcs x services c) refl
        (free_holding_cell_htlcs-IsSafe x services c s.is_safe s.reserve s.held)
    where
      go :
          (o : Outcome ChannelError (Option (CommitmentUpdate × ChannelMonitorUpdate)))
          → free_holding_cell_htlcs x services c ≡ o
          → Leaves IsSafeChannel o
          → Leaves IsSafeChannel (revoke_and_free x services require promoted failures update c)
      go panicked e s1 = ground arith
      go (failed r c1) e s1 = ground arith
      go (done none c1) e s1 =
          ground (arith, nothing_held-IsSafe require promoted failures update c1 s1)
      go (done (some (messages, additional)) c1) e s1 = ground arith

  end-IsSafe :
      (require : Bool) (promoted : Promoted) (failures : List (HtlcSource × ℕ × HtlcFailReason))
      (update : ChannelMonitorUpdate) (c : Channel)
      → CanRevoke c
      → Leaves IsSafeChannel (revoke_end x services require promoted failures update c)
  unfolding revoke_end
  end-IsSafe require promoted failures update c s = ground (
    arith,
    frozen-IsSafe require promoted.to_forward_infos failures update c s.is_safe,
    free-IsSafe require promoted failures update c s,
  )

  stored-IsSafe :
      (msg : RevokeAndAck) (c : Channel)
      → CanRevoke c
      → Leaves IsSafeChannel (revoke_stored x services msg c)
  unfolding revoke_stored
  stored-IsSafe msg c s =
      let update = revocation msg c in
      let promoted = promote_inbound (retain_inbound c.pending_inbound_htlcs) in
      let outbound = promote_outbound (retain_outbound c.pending_outbound_htlcs) in
      let stepped = step_fee (step_htlcs (revoked msg update c)) in
      end-IsSafe (promoted.require_commitment || outbound.1 || stepped.1) promoted
        (revoked_htlcs c.pending_outbound_htlcs) update stepped.0
        (step_fee-CanRevoke (step_htlcs (revoked msg update c)) (stepped-CanRevoke msg update c s))

  -- A peer's revocation leaves a safe channel safe, whether it is refused, or is accepted and frees
  -- the holding cell, provided that the reserve the peer asks for is at most the channel and that the
  -- cell holds less than 2 ^ 63.
  pub revoke_and_ack-IsSafe :
      (msg : RevokeAndAck) (c : Channel)
      → IsSafeChannel c
      → c.their_channel_reserve_satoshis ≤ c.channel_value_satoshis
      → held_sum c.holding_cell_htlc_updates < 2 ^ 63
      → Leaves IsSafeChannel (revoke_and_ack x services msg c)
  unfolding revoke_and_ack
  revoke_and_ack-IsSafe msg c s reserve held =
      elim (Option-cases (
        provide_secret x.sha256 c.commitment_secrets
          (add64 c.cur_remote_commitment_transaction_number 1) msg.per_commitment_secret)) [
            | inl e ↦ ground arith
            | inr (secrets, e) ↦ ground (
              arith,
              stored-IsSafe msg (record c { commitment_secrets = secrets })
                  (record { is_safe = s; reserve = reserve; held = held }),
            )
          ]

  end-update :
      (require : Bool) (promoted : Promoted) (failures : List (HtlcSource × ℕ × HtlcFailReason))
      (update : ChannelMonitorUpdate) (c c' : Channel) (messages : CommitmentUpdate)
      (infos : List (PendingHtlcInfo × ℕ)) (failures' : List (HtlcSource × ℕ × HtlcFailReason))
      (closing : Option ClosingSigned) (update' : ChannelMonitorUpdate)
      → revoke_end x services require promoted failures update c
        ≡ done (some messages, infos, failures', closing, update') c'
      → (update'.update_id ≡ update.update_id) × (c'.latest_monitor_update_id ≡ update.update_id)
  unfolding revoke_end revoke_while_frozen revoke_and_free revoke_with_nothing_held
  end-update require promoted failures update c c' messages infos failures' closing update' e =
      ground arith

  -- When a revocation makes us send a new commitment_signed, the update for the monitor has the next
  -- number, and so has the channel.
  pub revoke_and_ack-update :
      (msg : RevokeAndAck) (c c' : Channel) (messages : CommitmentUpdate)
      (infos : List (PendingHtlcInfo × ℕ)) (failures : List (HtlcSource × ℕ × HtlcFailReason))
      (closing : Option ClosingSigned) (update : ChannelMonitorUpdate)
      → revoke_and_ack x services msg c ≡ done (some messages, infos, failures, closing, update) c'
      → (update.update_id ≡ add64 c.latest_monitor_update_id 1)
        × (c'.latest_monitor_update_id ≡ update.update_id)
  unfolding revoke_and_ack revoke_stored
  revoke_and_ack-update msg c c' messages infos failures closing update e =
      let promoted = promote_inbound (retain_inbound c.pending_inbound_htlcs) in
      let outbound = promote_outbound (retain_outbound c.pending_outbound_htlcs) in
      elim (Option-cases (
        provide_secret x.sha256 c.commitment_secrets
          (add64 c.cur_remote_commitment_transaction_number 1) msg.per_commitment_secret)) [
            | inl none_stored ↦ ground arith
            | inr (secrets, stored) ↦
                let c1 : Channel = record c { commitment_secrets = secrets } in
                let first = revocation msg c1 in
                let stepped = step_fee (step_htlcs (revoked msg first c1)) in
                ground (
                  arith,
                  end-update (promoted.require_commitment || outbound.1 || stepped.1) promoted
                      (revoked_htlcs c.pending_outbound_htlcs) first stepped.0 c' messages infos
                      failures closing update,
                )
          ]
