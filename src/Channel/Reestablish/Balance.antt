-- ===== src/Channel/Reestablish/Balance.antt =====
-- `channel_reestablish` keeps the balances safe and the promises covered.
use rust_lightning.Prelude.{ℕ, ◌≡◌, refl, Option, none, some, arith}
use rust_lightning.Bitcoin.{Extern}
use rust_lightning.Msgs.{
  Shutdown, ChannelReestablish, FundingLocked, RevokeAndAck, CommitmentUpdate,
}
use rust_lightning.Channel.State.{
  Channel, Services, ChannelMonitorUpdate, ChannelError, ignore, close, close_delay_broadcast,
  Outcome, done, failed, panicked, Leaves,
}
use rust_lightning.Channel.Outcomes.{bind-Leaves, if-Leaves}
use rust_lightning.Channel.Funds.{IsSound, Leaves-IsCovered, Leaves-IsSound}
use rust_lightning.Channel.Funds.Same.{
  KeepsBalances, SameBalances-IsSound, KeepsBalances-IsSound, last_raa-KeepsBalances,
  last_update-KeepsBalances,
}
use rust_lightning.Channel.Funds.Spent.{free_holding_cell_htlcs-KeepsFunds}
use rust_lightning.Channel.Commit.{build_local_commitment_secret}
use rust_lightning.Channel.HoldingCell.{free_holding_cell_htlcs}
use rust_lightning.Channel.HoldingCell.Balance.{free_holding_cell_htlcs-IsSafe}
use rust_lightning.Channel.Reestablish.{
  reconnected, our_next_remote_commitment_number, check_data_loss, check_reestablish,
  locked_message, reestablish_unfunded, required_revoke, resend_funding_locked, reestablish_current,
  reestablish_lost, reestablish_end, reestablish_funded, reestablish_again, channel_reestablish,
}

module _ (x : Extern) where
  check_reestablish-KeepsBalances :
      (msg : ChannelReestablish) (c : Channel) → KeepsBalances c (check_reestablish x msg c)
  unfolding check_reestablish check_data_loss
  check_reestablish-KeepsBalances msg c = ground arith

  locked_message-KeepsBalances : (c : Channel) → KeepsBalances c (locked_message x c)
  unfolding locked_message build_local_commitment_secret
  locked_message-KeepsBalances c = ground arith

  unfunded-KeepsBalances :
      (msg : ChannelReestablish) (shutdown_msg : Option Shutdown) (c : Channel)
      → KeepsBalances c (reestablish_unfunded x msg shutdown_msg c)
  unfolding reestablish_unfunded
  unfunded-KeepsBalances msg shutdown_msg c = ground (arith, locked_message-KeepsBalances c)

  required_revoke-KeepsBalances :
      (msg : ChannelReestablish) (c : Channel) → KeepsBalances c (required_revoke x msg c)
  unfolding required_revoke
  required_revoke-KeepsBalances msg c = ground (arith, last_raa-KeepsBalances x c)

  resend_locked-KeepsBalances :
      (msg : ChannelReestablish) (c : Channel) → KeepsBalances c (resend_funding_locked x msg c)
  unfolding resend_funding_locked
  resend_locked-KeepsBalances msg c = ground (arith, locked_message-KeepsBalances c)

  module _ (services : Services) where
    pub free_holding_cell_htlcs-IsSound :
        (c : Channel) → IsSound c → Leaves IsSound (free_holding_cell_htlcs x services c)
    free_holding_cell_htlcs-IsSound c s =
        let h = s.is_covered in
        Leaves-IsSound (free_holding_cell_htlcs x services c)
          (free_holding_cell_htlcs-IsSafe x services c s.is_safe h.reserve_fits
            (omega (arith, h.promised_fits, s.is_safe.self_fits, s.is_safe.value_fits)))
          (Leaves-IsCovered c _ (free_holding_cell_htlcs-KeepsFunds x services c) h)

    current-IsSound :
        (locked : Option FundingLocked) (raa : Option RevokeAndAck) (shutdown_msg : Option Shutdown)
        (c : Channel)
        → IsSound c
        → Leaves IsSound (reestablish_current x services locked raa shutdown_msg c)
    unfolding reestablish_current
    current-IsSound locked raa shutdown_msg c s =
        go (free_holding_cell_htlcs x services c) refl (free_holding_cell_htlcs-IsSound c s)
      where
        go :
            (o : Outcome ChannelError (Option (CommitmentUpdate × ChannelMonitorUpdate)))
            → free_holding_cell_htlcs x services c ≡ o
            → Leaves IsSound o
            → Leaves IsSound (reestablish_current x services locked raa shutdown_msg c)
        go panicked e h = ground (arith, s.is_safe, s.is_covered, h)
        go (failed (ignore r) c1) e h = ground (arith, s.is_safe, s.is_covered, h)
        go (failed (close r) c1) e h = ground (arith, s.is_safe, s.is_covered, h)
        go (failed (close_delay_broadcast r u) c1) e h = ground (arith, s.is_safe, s.is_covered, h)
        go (done none c1) e h = ground (arith, s.is_safe, s.is_covered, h)
        go (done (some (update, monitor)) c1) e h = ground (arith, s.is_safe, s.is_covered, h)

    lost-KeepsBalances :
        (locked : Option FundingLocked) (raa : Option RevokeAndAck) (shutdown_msg : Option Shutdown)
        (c : Channel)
        → KeepsBalances c (reestablish_lost x services locked raa shutdown_msg c)
    unfolding reestablish_lost
    lost-KeepsBalances locked raa shutdown_msg c =
        ground (arith, last_update-KeepsBalances x services c)

    end-IsSound :
        (msg : ChannelReestablish) (ours : ℕ) (shutdown_msg : Option Shutdown)
        (raa : Option RevokeAndAck) (locked : Option FundingLocked) (c : Channel)
        → IsSound c
        → Leaves IsSound (reestablish_end x services msg ours shutdown_msg raa locked c)
    unfolding reestablish_end
    end-IsSound msg ours shutdown_msg raa locked c s = ground (
      arith,
      s.is_safe,
      s.is_covered,
      current-IsSound locked raa shutdown_msg c s,
      KeepsBalances-IsSound c _ (lost-KeepsBalances locked raa shutdown_msg c) s,
    )

    funded-IsSound :
        (msg : ChannelReestablish) (shutdown_msg : Option Shutdown) (c : Channel)
        → IsSound c
        → Leaves IsSound (reestablish_funded x services msg shutdown_msg c)
    unfolding reestablish_funded
    funded-IsSound msg shutdown_msg c s =
        bind-Leaves IsSound (required_revoke x msg) _ c
          (KeepsBalances-IsSound c _ (required_revoke-KeepsBalances msg c) s)
          (λ raa c1 s1.
            bind-Leaves IsSound (resend_funding_locked x msg) _ c1
              (KeepsBalances-IsSound c1 _ (resend_locked-KeepsBalances msg c1) s1)
              (end-IsSound msg (our_next_remote_commitment_number c) shutdown_msg raa))

    again-IsSound :
        (msg : ChannelReestablish) (shutdown_msg : Option Shutdown) (c : Channel)
        → IsSound c
        → Leaves IsSound (reestablish_again x services msg shutdown_msg c)
    unfolding reestablish_again
    again-IsSound msg shutdown_msg c s =
        if-Leaves IsSound c.channel_state.funding_sent _ _
          (KeepsBalances-IsSound c _ (unfunded-KeepsBalances msg shutdown_msg c) s)
          (funded-IsSound msg shutdown_msg c s)

    pub channel_reestablish-IsSound :
        (msg : ChannelReestablish) (c : Channel)
        → IsSound c
        → Leaves IsSound (channel_reestablish x services msg c)
    unfolding channel_reestablish
    channel_reestablish-IsSound msg c s =
        bind-Leaves IsSound (check_reestablish x msg) _ c
          (KeepsBalances-IsSound c _ (check_reestablish-KeepsBalances msg c) s)
          (λ _ c1 s1.
            again-IsSound msg _ (reconnected c1)
              (SameBalances-IsSound c1 (reconnected c1) (refl, refl, refl, refl, refl, refl) s1))
