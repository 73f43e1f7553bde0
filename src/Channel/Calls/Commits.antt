-- ===== src/Channel/Calls/Commits.antt =====
-- The calls that send something together with a commitment_signed keep a channel sound, and so do
-- those that drop what waits in the holding cell.
use rust_lightning.Prelude.{ℕ, ◌^◌, ◌<◌, ◌≡◌, refl, Option, none, some, List, [], ◌∷◌, arith}
use rust_lightning.Bitcoin.{Extern}
use rust_lightning.Msgs.{OnionPacket, UpdateAddHtlc, UpdateFulfillHtlc, UpdateFee, Shutdown}
use rust_lightning.Channel.Types.{
  HtlcSource, HtlcUpdateAwaitingAck, add_htlc, claim_htlc, fail_htlc,
}
use rust_lightning.Channel.State.{
  Channel, Services, ChannelMonitorUpdate, ChannelError, Outcome, done, failed, panicked, Leaves,
}
use rust_lightning.Channel.Safe.{IsSafeChannel, every_outbound}
use rust_lightning.Channel.Funds.{
  IsSound, KeepsFunds, PromisesMore-IsCovered, Leaves-IsCovered, Leaves-IsSound,
}
use rust_lightning.Channel.Funds.Kept.{
  send_commitment-KeepsFunds, get_update_fulfill_htlc-KeepsFunds, propose-KeepsFunds,
}
use rust_lightning.Channel.Funds.Spent.{send_htlc-Promises, Promises}
use rust_lightning.Channel.Funds.Same.{KeepsBalances-IsSound, send_update_fee-KeepsBalances}
use rust_lightning.Channel.Add.{send_htlc}
use rust_lightning.Channel.Add.Balance.{held_sum, send_htlc-IsSafe, send_htlc-reserve}
use rust_lightning.Channel.Remove.{get_update_fulfill_htlc}
use rust_lightning.Channel.Commit.{
  send_commitment_no_status_check, send_commitment, send_htlc_and_commit,
  get_update_fulfill_htlc_and_commit,
}
use rust_lightning.Channel.Commit.Balance.{
  send_commitment_no_status_check-IsSafe, get_update_fulfill_htlc_and_commit-IsSafe,
}
use rust_lightning.Channel.Fee.{send_update_fee, send_update_fee_and_commit}
use rust_lightning.Channel.Pause.{drop_held, paused, remove_uncommitted_htlcs_and_mark_paused}
use rust_lightning.Channel.Pause.Balance.{restore_removed-sum}
use rust_lightning.Channel.Shutdown.{
  check_shutdown, shutdown, get_shutdown, remote_shut_down, local_shut_down,
}

drop_held-sum : (updates : List HtlcUpdateAwaitingAck) → held_sum (drop_held updates).0 ≡ 0
unfolding drop_held
drop_held-sum [] = refl
drop_held-sum (add_htlc add ∷ updates) = drop_held-sum updates
drop_held-sum (claim_htlc preimage id ∷ updates) = drop_held-sum updates
drop_held-sum (fail_htlc id err ∷ updates) = drop_held-sum updates

pub remove_uncommitted-KeepsFunds :
    (c : Channel) → KeepsFunds c (remove_uncommitted_htlcs_and_mark_paused {E = ChannelError} c)
unfolding remove_uncommitted_htlcs_and_mark_paused paused
remove_uncommitted-KeepsFunds c = ground (
  arith,
  drop_held-sum c.holding_cell_htlc_updates,
  restore_removed-sum every_outbound (λ r. refl) c.pending_outbound_htlcs,
)

pub held_fits : (c : Channel) → IsSound c → held_sum c.holding_cell_htlc_updates < 2 ^ 63
held_fits c s = omega (arith, s.is_covered.promised_fits, s.is_safe.self_fits, s.is_safe.value_fits)

pub send_htlc-IsSound :
    (amount hash cltv : ℕ) (source : HtlcSource) (onion : OnionPacket) (c : Channel)
    → IsSound c
    → Leaves IsSound (send_htlc amount hash cltv source onion c)
send_htlc-IsSound amount hash cltv source onion c s =
    let h = s.is_covered in
    go (send_htlc amount hash cltv source onion c) refl
      (send_htlc-IsSafe amount hash cltv source onion c s.is_safe h.reserve_fits (held_fits c s))
      (send_htlc-Promises amount hash cltv source onion c)
  where
    go :
        (o : Outcome ChannelError (Option UpdateAddHtlc))
        → send_htlc amount hash cltv source onion c ≡ o
        → Leaves IsSafeChannel o
        → Promises amount c o
        → Leaves IsSound o
    go panicked e s1 p = tt
    go (failed r c1) e s1 p = record {
      is_safe = s1;
      is_covered = PromisesMore-IsCovered 0 0 c c1 p s.is_covered;
    }
    go (done msg c1) e s1 (value, reserve, self, promised) =
        let kept =
          send_htlc-reserve amount hash cltv source onion c c1 msg s.is_safe
            s.is_covered.reserve_fits (held_fits c s) e in
        record {
          is_safe = s1;
          is_covered = record {
            reserve_fits = omega (arith, s.is_covered.reserve_fits);
            promised_fits = omega (arith, kept);
          };
        }

module _ (x : Extern) (services : Services) where
  pub shutdown-KeepsFunds :
      (msg : Shutdown) (c : Channel) → KeepsFunds c (shutdown x services msg c)
  unfolding shutdown check_shutdown remote_shut_down
  shutdown-KeepsFunds msg c = ground (
    arith,
    drop_held-sum c.holding_cell_htlc_updates,
    propose-KeepsFunds ChannelError x services (remote_shut_down msg c),
  )

  pub get_shutdown-KeepsFunds : (c : Channel) → KeepsFunds c (get_shutdown x c)
  unfolding get_shutdown local_shut_down
  get_shutdown-KeepsFunds c = ground (arith, drop_held-sum c.holding_cell_htlc_updates)

  commit-IsSound :
      (c : Channel) → IsSound c → Leaves IsSound (send_commitment_no_status_check x services c)
  commit-IsSound c s =
      Leaves-IsSound _ (send_commitment_no_status_check-IsSafe x services c s.is_safe)
        (Leaves-IsCovered c _ (send_commitment-KeepsFunds x services c) s.is_covered)

  pub send_commitment-IsSound :
      (c : Channel) → IsSound c → Leaves IsSound (send_commitment x services c)
  unfolding send_commitment
  send_commitment-IsSound c s = ground (arith, s.is_safe, s.is_covered, commit-IsSound c s)

  pub send_htlc_and_commit-IsSound :
      (amount hash cltv : ℕ) (source : HtlcSource) (onion : OnionPacket) (c : Channel)
      → IsSound c
      → Leaves IsSound (send_htlc_and_commit x services amount hash cltv source onion c)
  unfolding send_htlc_and_commit
  send_htlc_and_commit-IsSound amount hash cltv source onion c s =
      go (send_htlc amount hash cltv source onion c) refl
        (send_htlc-IsSound amount hash cltv source onion c s)
    where
      go :
          (o : Outcome ChannelError (Option UpdateAddHtlc))
          → send_htlc amount hash cltv source onion c ≡ o
          → Leaves IsSound o
          → Leaves IsSound (send_htlc_and_commit x services amount hash cltv source onion c)
      go (done none c1) e s1 = ground (arith, s1.is_safe, s1.is_covered)
      go (done (some update) c1) e s1 = ground (arith, commit-IsSound c1 s1)
      go (failed r c1) e s1 = ground (arith, s1.is_safe, s1.is_covered)
      go panicked e s1 = ground arith

  fulfill_and_commit-KeepsFunds :
      (id : ℕ) (preimage : List ℕ) (c : Channel)
      → KeepsFunds c (get_update_fulfill_htlc_and_commit x services id preimage c)
  unfolding get_update_fulfill_htlc_and_commit
  fulfill_and_commit-KeepsFunds id preimage c =
      go (get_update_fulfill_htlc x id preimage c) refl
        (get_update_fulfill_htlc-KeepsFunds x id preimage c)
    where
      go :
          (o : Outcome ChannelError (Option UpdateFulfillHtlc × Option ChannelMonitorUpdate))
          → get_update_fulfill_htlc x id preimage c ≡ o
          → KeepsFunds c o
          → KeepsFunds c (get_update_fulfill_htlc_and_commit x services id preimage c)
      go (done (none, update) c1) e p = ground arith
      go (done (some fulfill, update) c1) e p =
          ground (arith, send_commitment-KeepsFunds x services c1)
      go (failed r c1) e p = ground arith
      go panicked e p = ground arith

  pub get_update_fulfill_htlc_and_commit-IsSound :
      (id : ℕ) (preimage : List ℕ) (c : Channel)
      → IsSound c
      → Leaves IsSound (get_update_fulfill_htlc_and_commit x services id preimage c)
  get_update_fulfill_htlc_and_commit-IsSound id preimage c s =
      Leaves-IsSound _
        (get_update_fulfill_htlc_and_commit-IsSafe x services id preimage c s.is_safe)
        (Leaves-IsCovered c _ (fulfill_and_commit-KeepsFunds id preimage c) s.is_covered)

  pub send_update_fee_and_commit-IsSound :
      (feerate : ℕ) (c : Channel)
      → IsSound c
      → Leaves IsSound (send_update_fee_and_commit services x feerate c)
  unfolding send_update_fee_and_commit
  send_update_fee_and_commit-IsSound feerate c s =
      go (send_update_fee {E = ChannelError} feerate c) refl
        (KeepsBalances-IsSound c _ (send_update_fee-KeepsBalances feerate c) s)
    where
      go :
          (o : Outcome ChannelError (Option UpdateFee))
          → send_update_fee feerate c ≡ o
          → Leaves IsSound o
          → Leaves IsSound (send_update_fee_and_commit services x feerate c)
      go (done none c1) e s1 = ground (arith, s1.is_safe, s1.is_covered)
      go (done (some msg) c1) e s1 = ground (arith, commit-IsSound c1 s1)
      go (failed r c1) e s1 = ground (arith, s1.is_safe, s1.is_covered)
      go panicked e s1 = ground arith
