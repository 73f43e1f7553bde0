-- ===== src/Channel/Funds/Revoked.antt =====
-- The peer's revocation settles the HTLCs that are gone, and keeps our promises covered.
use rust_lightning.Prelude.{
  ℕ, ◌≡◌, refl, Bool, true, ◌||◌, Option, none, some, List, arith, Option-cases, inl, inr, add64,
}
use rust_lightning.Bitcoin.{Extern}
use rust_lightning.Msgs.{CommitmentUpdate, RevokeAndAck}
use rust_lightning.ChanUtils.Secrets.{provide_secret}
use rust_lightning.Channel.Types.{HtlcSource, PendingHtlcInfo, HtlcFailReason}
use rust_lightning.Channel.State.{
  Channel, Services, ChannelMonitorUpdate, ChannelError, Outcome, done, failed, panicked, Leaves,
}
use rust_lightning.Channel.Funds.{KeepsFunds, IsCovered, IsSound, Leaves-IsCovered}
use rust_lightning.Channel.Funds.Kept.{send_commitment-KeepsFunds, propose-KeepsFunds}
use rust_lightning.Channel.Funds.Spent.{free_holding_cell_htlcs-KeepsFunds}
use rust_lightning.Channel.HoldingCell.{free_holding_cell_htlcs}
use rust_lightning.Channel.Revoke.{
  Promoted, promote_inbound, retain_inbound, promote_outbound, retain_outbound, revoked_htlcs,
  revoked, step_htlcs, step_fee,
}
use rust_lightning.Channel.Revoke.Balance.{promote_outbound-every, step_htlcs-value}
use rust_lightning.Channel.Revoke.Message.{
  revocation, revoke_while_frozen, revoke_with_nothing_held, revoke_and_free, revoke_end,
  revoke_stored, revoke_and_ack,
}

module _ (x : Extern) (services : Services) where
  frozen-KeepsFunds :
      (require : Bool) (infos : List (PendingHtlcInfo × ℕ))
      (failures : List (HtlcSource × ℕ × HtlcFailReason)) (update : ChannelMonitorUpdate)
      (c : Channel)
      → KeepsFunds c (revoke_while_frozen x services require infos failures update c)
  unfolding revoke_while_frozen
  frozen-KeepsFunds require infos failures update c = ground (
    arith,
    send_commitment-KeepsFunds x services (record c { monitor_pending_commitment_signed = true }),
  )

  module _ (require : Bool) (promoted : Promoted)
      (failures : List (HtlcSource × ℕ × HtlcFailReason)) (update : ChannelMonitorUpdate) where
    nothing_held-KeepsFunds :
        (c : Channel)
        → KeepsFunds c (revoke_with_nothing_held x services require promoted failures update c)
    unfolding revoke_with_nothing_held
    nothing_held-KeepsFunds c = ground (
      arith,
      send_commitment-KeepsFunds x services c,
      propose-KeepsFunds ChannelError x services c,
    )

    free-KeepsFunds :
        (c : Channel) → KeepsFunds c (revoke_and_free x services require promoted failures update c)
    unfolding revoke_and_free
    free-KeepsFunds c =
        go (free_holding_cell_htlcs x services c) refl
          (free_holding_cell_htlcs-KeepsFunds x services c)
      where
        go :
            (o : Outcome ChannelError (Option (CommitmentUpdate × ChannelMonitorUpdate)))
            → free_holding_cell_htlcs x services c ≡ o
            → KeepsFunds c o
            → KeepsFunds c (revoke_and_free x services require promoted failures update c)
        go panicked e p = ground arith
        go (failed r c1) e p = ground arith
        go (done none c1) e p = ground (arith, nothing_held-KeepsFunds c1)
        go (done (some (messages, additional)) c1) e p = ground arith

    end-KeepsFunds :
        (c : Channel) → KeepsFunds c (revoke_end x services require promoted failures update c)
    unfolding revoke_end
    end-KeepsFunds c = ground (
      arith,
      frozen-KeepsFunds require promoted.to_forward_infos failures update c,
      free-KeepsFunds c,
    )

  -- What the peer has been paid was promised before.
  stepped-IsCovered :
      (msg : RevokeAndAck) (update : ChannelMonitorUpdate) (c : Channel)
      → IsSound c
      → IsCovered 0 (step_fee (step_htlcs (revoked msg update c))).0
  unfolding step_fee step_htlcs
  stepped-IsCovered msg update c s =
      let h = s.is_covered in
      let value = step_htlcs-value (revoked msg update c) s.is_safe in
      let every = promote_outbound-every c.pending_outbound_htlcs in
      record {
        reserve_fits = ground (arith, h.reserve_fits);
        promised_fits = ground (arith, h.promised_fits, value, every);
      }

  stored-IsCovered :
      (msg : RevokeAndAck) (c : Channel)
      → IsSound c
      → Leaves (IsCovered 0) (revoke_stored x services msg c)
  unfolding revoke_stored
  stored-IsCovered msg c s =
      let update = revocation msg c in
      let promoted = promote_inbound (retain_inbound c.pending_inbound_htlcs) in
      let outbound = promote_outbound (retain_outbound c.pending_outbound_htlcs) in
      let stepped = step_fee (step_htlcs (revoked msg update c)) in
      Leaves-IsCovered stepped.0 _
        (end-KeepsFunds (promoted.require_commitment || outbound.1 || stepped.1) promoted
          (revoked_htlcs c.pending_outbound_htlcs) update stepped.0)
        (stepped-IsCovered msg update c s)

  pub revoke_and_ack-IsCovered :
      (msg : RevokeAndAck) (c : Channel)
      → IsSound c
      → Leaves (IsCovered 0) (revoke_and_ack x services msg c)
  unfolding revoke_and_ack
  revoke_and_ack-IsCovered msg c s =
      elim (Option-cases (
        provide_secret x.sha256 c.commitment_secrets
          (add64 c.cur_remote_commitment_transaction_number 1) msg.per_commitment_secret)) [
            | inl e ↦ ground (arith, s.is_covered)
            | inr (secrets, e) ↦ ground (
              arith,
              s.is_covered,
              stored-IsCovered msg (record c { commitment_secrets = secrets })
                  (record {
                    is_safe = s.is_safe;
                    is_covered = record {
                      reserve_fits = s.is_covered.reserve_fits;
                      promised_fits = s.is_covered.promised_fits;
                    };
                  }),
            )
          ]
