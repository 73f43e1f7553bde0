-- ===== src/Channel/Calls/Sound.antt =====
-- Every call keeps a channel sound, so the commitment transactions of every channel that is reached
-- can be built.
use rust_lightning.Prelude.{◌≡◌, subst, Bool, Option, none, some}
use rust_lightning.Bitcoin.{Extern}
use rust_lightning.Msgs.{RevokeAndAck}
use rust_lightning.Channel.State.{Channel, Services, Outcome, done, failed, panicked, Leaves}
use rust_lightning.Channel.Commitment.{commitment_values}
use rust_lightning.Channel.Commitment.Balance.{to_self_msat, to_remote_msat}
use rust_lightning.Channel.Safe.{IsSafeChannel, IsSafe-commitment_values}
use rust_lightning.Channel.Funds.{IsSound, KeepsFunds, Leaves-IsCovered, Leaves-IsSound}
use rust_lightning.Channel.Funds.Kept.{
  update_add_htlc-KeepsFunds, update_fulfill_htlc-KeepsFunds, update_fail_htlc-KeepsFunds,
  update_fail_malformed_htlc-KeepsFunds, get_update_fulfill_htlc-KeepsFunds,
  get_update_fail_htlc-KeepsFunds, commitment_signed-KeepsFunds,
}
use rust_lightning.Channel.Funds.Revoked.{revoke_and_ack-IsCovered}
use rust_lightning.Channel.Funds.Same.{
  KeepsBalances, KeepsBalances-IsSound, send_update_fee-KeepsBalances, update_fee-KeepsBalances,
  funding_locked-KeepsBalances, monitor_update_failed-KeepsBalances,
  monitor_updating_restored-KeepsBalances, closing_signed-KeepsBalances,
}
use rust_lightning.Channel.Add.Balance.{update_add_htlc-IsSafe}
use rust_lightning.Channel.Remove.Balance.{
  update_fulfill_htlc-IsSafe, update_fail_htlc-IsSafe, update_fail_malformed_htlc-IsSafe,
  get_update_fulfill_htlc-IsSafe, get_update_fail_htlc-IsSafe,
}
use rust_lightning.Channel.Revoke.Message.{revoke_and_ack}
use rust_lightning.Channel.Revoke.Safety.{revoke_and_ack-IsSafe}
use rust_lightning.Channel.Signed.Safety.{commitment_signed-IsSafe}
use rust_lightning.Channel.Pause.Balance.{remove_uncommitted-IsSafe}
use rust_lightning.Channel.Reestablish.Balance.{channel_reestablish-IsSound}
use rust_lightning.Channel.Shutdown.Balance.{shutdown-IsSafe, get_shutdown-IsSafe}
use rust_lightning.Channel.Open.Sound.{accept_channel-IsSound}
use rust_lightning.Channel.Calls.{
  Call, on_accept_channel, on_funding_locked, on_update_add_htlc, on_update_fulfill_htlc,
  on_update_fail_htlc, on_update_fail_malformed_htlc, on_commitment_signed, on_revoke_and_ack,
  on_update_fee, on_channel_reestablish, on_shutdown, on_closing_signed, to_send_htlc,
  to_send_htlc_and_commit, to_fulfill, to_fulfill_and_commit, to_fail, to_send_commitment,
  to_send_update_fee, to_send_update_fee_and_commit, to_shut_down, disconnected, monitor_failed,
  monitor_restored, left_channel, run, Reach, here, next,
}
use rust_lightning.Channel.Calls.Commits.{
  send_htlc-IsSound, send_htlc_and_commit-IsSound, send_commitment-IsSound,
  get_update_fulfill_htlc_and_commit-IsSound, send_update_fee_and_commit-IsSound,
  shutdown-KeepsFunds, get_shutdown-KeepsFunds, remove_uncommitted-KeepsFunds, held_fits,
}

-- The channel, if there is one, is sound.
abbrev IsSoundIf : Option Channel → Type 0
IsSoundIf none = Unit
IsSoundIf (some c) = IsSound c

left-IsSound {ℓ κ} :
    {E : Type ℓ} {A : Type κ} (o : Outcome E A) → Leaves IsSound o → IsSoundIf (left_channel o)
left-IsSound (done a c) h = h
left-IsSound (failed e c) h = h
left-IsSound panicked h = tt

-- A method that keeps the funds and the balances' safety.
kept-IsSound {ℓ κ} :
    {E : Type ℓ} {A : Type κ} (c : Channel) (o : Outcome E A)
    → IsSound c
    → Leaves IsSafeChannel o
    → KeepsFunds c o
    → IsSoundIf (left_channel o)
kept-IsSound c o s safe kept =
    left-IsSound o (Leaves-IsSound o safe (Leaves-IsCovered c o kept s.is_covered))

same-IsSound {ℓ κ} :
    {E : Type ℓ} {A : Type κ} (c : Channel) (o : Outcome E A)
    → IsSound c
    → KeepsBalances c o
    → IsSoundIf (left_channel o)
same-IsSound c o s same = left-IsSound o (KeepsBalances-IsSound c o same s)

module _ (x : Extern) (services : Services) where
  revoke_and_ack-IsSound :
      (msg : RevokeAndAck) (c : Channel)
      → IsSound c
      → Leaves IsSound (revoke_and_ack x services msg c)
  revoke_and_ack-IsSound msg c s =
      Leaves-IsSound _
        (revoke_and_ack-IsSafe x services msg c s.is_safe s.is_covered.reserve_fits (held_fits c s))
        (revoke_and_ack-IsCovered x services msg c s)

  run-IsSoundIf : (call : Call) (c : Channel) → IsSound c → IsSoundIf (run x services call c)
  unfolding run
  run-IsSoundIf (on_accept_channel config features msg) c s =
      left-IsSound _ (accept_channel-IsSound x config features msg c s)
  run-IsSoundIf (on_funding_locked msg) c s =
      same-IsSound c _ s (funding_locked-KeepsBalances msg c)
  run-IsSoundIf (on_update_add_htlc msg status) c s =
      kept-IsSound c _ s (update_add_htlc-IsSafe msg status c s.is_safe)
        (update_add_htlc-KeepsFunds msg status c)
  run-IsSoundIf (on_update_fulfill_htlc msg) c s =
      kept-IsSound c _ s (update_fulfill_htlc-IsSafe x msg c s.is_safe)
        (update_fulfill_htlc-KeepsFunds x msg c)
  run-IsSoundIf (on_update_fail_htlc msg r) c s =
      kept-IsSound c _ s (update_fail_htlc-IsSafe msg r c s.is_safe)
        (update_fail_htlc-KeepsFunds msg r c)
  run-IsSoundIf (on_update_fail_malformed_htlc msg r) c s =
      kept-IsSound c _ s (update_fail_malformed_htlc-IsSafe msg r c s.is_safe)
        (update_fail_malformed_htlc-KeepsFunds msg r c)
  run-IsSoundIf (on_commitment_signed msg) c s =
      kept-IsSound c _ s (commitment_signed-IsSafe x services msg c s.is_safe)
        (commitment_signed-KeepsFunds x services msg c)
  run-IsSoundIf (on_revoke_and_ack msg) c s = left-IsSound _ (revoke_and_ack-IsSound msg c s)
  run-IsSoundIf (on_update_fee msg) c s =
      same-IsSound c _ s (update_fee-KeepsBalances services msg c)
  run-IsSoundIf (on_channel_reestablish msg) c s =
      left-IsSound _ (channel_reestablish-IsSound x services msg c s)
  run-IsSoundIf (on_shutdown msg) c s =
      kept-IsSound c _ s (shutdown-IsSafe x services msg c s.is_safe)
        (shutdown-KeepsFunds x services msg c)
  run-IsSoundIf (on_closing_signed msg) c s =
      same-IsSound c _ s (closing_signed-KeepsBalances x services msg c)
  run-IsSoundIf (to_send_htlc amount hash cltv source onion) c s =
      left-IsSound _ (send_htlc-IsSound amount hash cltv source onion c s)
  run-IsSoundIf (to_send_htlc_and_commit amount hash cltv source onion) c s =
      left-IsSound _ (send_htlc_and_commit-IsSound x services amount hash cltv source onion c s)
  run-IsSoundIf (to_fulfill id preimage) c s =
      kept-IsSound c _ s (get_update_fulfill_htlc-IsSafe x id preimage c s.is_safe)
        (get_update_fulfill_htlc-KeepsFunds x id preimage c)
  run-IsSoundIf (to_fulfill_and_commit id preimage) c s =
      left-IsSound _ (get_update_fulfill_htlc_and_commit-IsSound x services id preimage c s)
  run-IsSoundIf (to_fail id err) c s =
      kept-IsSound c _ s (get_update_fail_htlc-IsSafe id err c s.is_safe)
        (get_update_fail_htlc-KeepsFunds id err c)
  run-IsSoundIf to_send_commitment c s = left-IsSound _ (send_commitment-IsSound x services c s)
  run-IsSoundIf (to_send_update_fee feerate) c s =
      same-IsSound c _ s (send_update_fee-KeepsBalances feerate c)
  run-IsSoundIf (to_send_update_fee_and_commit feerate) c s =
      left-IsSound _ (send_update_fee_and_commit-IsSound x services feerate c s)
  run-IsSoundIf to_shut_down c s =
      kept-IsSound c _ s (get_shutdown-IsSafe x c s.is_safe) (get_shutdown-KeepsFunds x services c)
  run-IsSoundIf disconnected c s =
      kept-IsSound c _ s (remove_uncommitted-IsSafe c s.is_safe) (remove_uncommitted-KeepsFunds c)
  run-IsSoundIf (monitor_failed resend_raa resend_commitment forwards failures) c s =
      same-IsSound c _ s
        (monitor_update_failed-KeepsBalances resend_raa resend_commitment forwards failures c)
  run-IsSoundIf monitor_restored c s =
      same-IsSound c _ s (monitor_updating_restored-KeepsBalances x services c)

  Reach-IsSound : (c c' : Channel) → Reach x services c c' → IsSound c → IsSound c'
  Reach-IsSound c c' here s = s
  Reach-IsSound c c' (next {c' = c1} call reach e) s =
      subst IsSoundIf e (run-IsSoundIf call c1 (Reach-IsSound c c1 reach s))

  -- From a sound channel, whatever the peer sends and the user wants, however often the connection is
  -- lost and the monitor is late, and in whichever order: in every channel that is reached the two
  -- assertions of `build_commitment_transaction` hold, for our transaction and for the peer's, and
  -- the balances are what the HTLCs' sums say.
  pub Reach-commitment_values :
      (c c' : Channel) (g : Bool)
      → IsSound c
      → Reach x services c c'
      → commitment_values g c' ≡ some (to_self_msat g c', to_remote_msat g c')
  Reach-commitment_values c c' g s reach =
      IsSafe-commitment_values g c' (Reach-IsSound c c' reach s).is_safe
