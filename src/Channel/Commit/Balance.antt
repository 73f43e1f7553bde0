-- ===== src/Channel/Commit/Balance.antt =====
-- Signing the peer's next transaction keeps the invariant of the balances, and tells the monitor what
-- was signed.
use rust_lightning.Prelude.{ℕ, ◌^◌, ◌≤◌, ◌<◌, ◌≡◌, refl, Option, none, some, List, [], ◌∷◌, arith}
use rust_lightning.Bitcoin.{Extern}
use rust_lightning.Msgs.{OnionPacket, UpdateAddHtlc, UpdateFulfillHtlc}
use rust_lightning.Channel.Types.{HtlcSource, InboundHtlcOutput, OutboundHtlcOutput}
use rust_lightning.Channel.State.{
  Channel, Services, ChannelMonitorUpdate, ChannelError, Outcome, done, failed, panicked, Leaves,
}
use rust_lightning.Channel.Commitment.Balance.{inbound_sum, outbound_sum}
use rust_lightning.Channel.Safe.{IsSafeChannel, every_inbound, every_outbound, is_locked, is_paid}
use rust_lightning.Channel.Add.{is_removed_fulfilled, send_htlc}
use rust_lightning.Channel.Add.Balance.{held_sum, send_htlc-IsSafe}
use rust_lightning.Channel.Remove.{get_update_fulfill_htlc}
use rust_lightning.Channel.Remove.Balance.{get_update_fulfill_htlc-IsSafe}
use rust_lightning.Channel.Commit.{
  upgrade_inbound, upgrade_outbound, upgraded, build_remote_transaction_keys,
  send_commitment_no_state_update, send_commitment_no_status_check, send_htlc_and_commit,
  get_update_fulfill_htlc_and_commit,
}

upgrade_inbound-sum :
    (htlcs : List InboundHtlcOutput)
    → inbound_sum every_inbound (upgrade_inbound htlcs) ≡ inbound_sum every_inbound htlcs
unfolding upgrade_inbound
upgrade_inbound-sum [] = refl
upgrade_inbound-sum (htlc ∷ htlcs) = ground (arith, upgrade_inbound-sum htlcs)

upgrade_inbound-locked :
    (htlcs : List InboundHtlcOutput)
    → inbound_sum is_locked (upgrade_inbound htlcs) ≤ inbound_sum every_inbound htlcs
unfolding upgrade_inbound
upgrade_inbound-locked [] = omega arith
upgrade_inbound-locked (htlc ∷ htlcs) = ground (arith, upgrade_inbound-locked htlcs)

pub upgrade_outbound-sum :
    (htlcs : List OutboundHtlcOutput)
    → outbound_sum every_outbound (upgrade_outbound htlcs) ≡ outbound_sum every_outbound htlcs
unfolding upgrade_outbound
upgrade_outbound-sum [] = refl
upgrade_outbound-sum (htlc ∷ htlcs) = ground (arith, upgrade_outbound-sum htlcs)

upgrade_outbound-removed :
    (htlcs : List OutboundHtlcOutput)
    → outbound_sum is_removed_fulfilled (upgrade_outbound htlcs)
      ≡ outbound_sum is_removed_fulfilled htlcs
unfolding upgrade_outbound
upgrade_outbound-removed [] = refl
upgrade_outbound-removed (htlc ∷ htlcs) = ground (arith, upgrade_outbound-removed htlcs)

-- Every removal that the peer may count on is paid for in the transaction that we sign.
upgrade_outbound-paid :
    (htlcs : List OutboundHtlcOutput)
    → outbound_sum is_paid (upgrade_outbound htlcs) ≡ outbound_sum is_removed_fulfilled htlcs
unfolding upgrade_outbound
upgrade_outbound-paid [] = refl
upgrade_outbound-paid (htlc ∷ htlcs) = ground (arith, upgrade_outbound-paid htlcs)

upgraded-IsSafe : (c : Channel) → IsSafeChannel c → IsSafeChannel (upgraded c)
upgraded-IsSafe c s = ground (
  arith,
  upgrade_inbound-sum c.pending_inbound_htlcs,
  upgrade_inbound-locked c.pending_inbound_htlcs,
  upgrade_outbound-sum c.pending_outbound_htlcs,
  upgrade_outbound-removed c.pending_outbound_htlcs,
  upgrade_outbound-paid c.pending_outbound_htlcs,
)

module _ (x : Extern) (services : Services) where
  -- Generating a commitment_signed does not change the channel.
  abbrev pub Keeps {ℓ κ} : {E : Type ℓ} {A : Type κ} → Channel → Outcome E A → Type 0
  Keeps c o = Leaves (λ c'. c' ≡ c) o

  pub no_state_update-Keeps : (c : Channel) → Keeps c (send_commitment_no_state_update x services c)
  unfolding send_commitment_no_state_update build_remote_transaction_keys
  no_state_update-Keeps c = ground arith

  -- A commitment_signed leaves a safe channel safe, also if it could not be made.
  pub send_commitment_no_status_check-IsSafe :
      (c : Channel)
      → IsSafeChannel c
      → Leaves IsSafeChannel (send_commitment_no_status_check x services c)
  unfolding send_commitment_no_status_check
  send_commitment_no_status_check-IsSafe c s =
      ground (arith, upgraded-IsSafe c s, no_state_update-Keeps (upgraded c))

  -- Offering an HTLC and signing it at once keeps a safe channel safe, provided that the reserve the
  -- peer asks for is at most the channel and that the holding cell holds less than 2 ^ 63.
  pub send_htlc_and_commit-IsSafe :
      (amount hash cltv : ℕ) (source : HtlcSource) (onion : OnionPacket) (c : Channel)
      → IsSafeChannel c
      → c.their_channel_reserve_satoshis ≤ c.channel_value_satoshis
      → held_sum c.holding_cell_htlc_updates < 2 ^ 63
      → Leaves IsSafeChannel (send_htlc_and_commit x services amount hash cltv source onion c)
  unfolding send_htlc_and_commit
  send_htlc_and_commit-IsSafe amount hash cltv source onion c s reserve held =
      go (send_htlc amount hash cltv source onion c) refl
        (send_htlc-IsSafe amount hash cltv source onion c s reserve held)
    where
      go :
          (o : Outcome ChannelError (Option UpdateAddHtlc))
          → send_htlc amount hash cltv source onion c ≡ o
          → Leaves IsSafeChannel o
          → Leaves IsSafeChannel (send_htlc_and_commit x services amount hash cltv source onion c)
      go (done none c1) e s1 = ground arith
      go (done (some update) c1) e s1 = ground (arith, send_commitment_no_status_check-IsSafe c1 s1)
      go (failed r c1) e s1 = ground arith
      go panicked e s1 = ground arith

  -- Claiming an HTLC and signing its removal at once keeps a safe channel safe.
  pub get_update_fulfill_htlc_and_commit-IsSafe :
      (id : ℕ) (preimage : List ℕ) (c : Channel)
      → IsSafeChannel c
      → Leaves IsSafeChannel (get_update_fulfill_htlc_and_commit x services id preimage c)
  unfolding get_update_fulfill_htlc_and_commit
  get_update_fulfill_htlc_and_commit-IsSafe id preimage c s =
      go (get_update_fulfill_htlc x id preimage c) refl
        (get_update_fulfill_htlc-IsSafe x id preimage c s)
    where
      go :
          (o : Outcome ChannelError (Option UpdateFulfillHtlc × Option ChannelMonitorUpdate))
          → get_update_fulfill_htlc x id preimage c ≡ o
          → Leaves IsSafeChannel o
          → Leaves IsSafeChannel (get_update_fulfill_htlc_and_commit x services id preimage c)
      go (done (none, update) c1) e s1 = ground arith
      go (done (some fulfill, update) c1) e s1 =
          ground (arith, send_commitment_no_status_check-IsSafe c1 s1)
      go (failed r c1) e s1 = ground arith
      go panicked e s1 = ground arith
