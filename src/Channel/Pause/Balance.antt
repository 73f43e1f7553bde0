-- ===== src/Channel/Pause/Balance.antt =====
-- A disconnection keeps the invariant of the balances, and a second one changes nothing.
use rust_lightning.Prelude.{
  ℕ, ◌≤◌, ◌≡◌, refl, sym, Bool, true, false, Option, List, [], ◌∷◌, arith, inl, inr, Bool-cases,
  ltb,
}
use rust_lightning.Channel.Types.{
  HtlcSource, InboundHtlcOutput, OutboundHtlcState, OutboundHtlcOutput, HtlcUpdateAwaitingAck,
  add_htlc, claim_htlc, fail_htlc,
}
use rust_lightning.Channel.State.{ChannelState, to_u32, Channel, ChannelError, done, Leaves}
use rust_lightning.Channel.Commitment.Balance.{inbound_sum, outbound_sum}
use rust_lightning.Channel.Safe.{IsSafeChannel, every_inbound, every_outbound, is_locked, is_paid}
use rust_lightning.Channel.Add.{is_removed_fulfilled}
use rust_lightning.Channel.Pause.{
  drop_announced, restore_removed, drop_held, paused, remove_uncommitted_htlcs_and_mark_paused,
}

drop_announced-sum :
    (htlcs : List InboundHtlcOutput)
    → inbound_sum every_inbound (drop_announced htlcs).0 ≤ inbound_sum every_inbound htlcs
unfolding drop_announced
drop_announced-sum [] = omega arith
drop_announced-sum (htlc ∷ htlcs) = ground (arith, drop_announced-sum htlcs)

drop_announced-locked :
    (htlcs : List InboundHtlcOutput)
    → inbound_sum is_locked (drop_announced htlcs).0 ≡ inbound_sum is_locked htlcs
unfolding drop_announced
drop_announced-locked [] = refl
drop_announced-locked (htlc ∷ htlcs) = ground (arith, drop_announced-locked htlcs)

-- Taking back a removal does not change a sum that treats both states alike.
pub restore_removed-sum :
    (test : OutboundHtlcState → Bool)
    → ((r : Option _)
        → test (OutboundHtlcState.remote_removed r) ≡ test OutboundHtlcState.committed)
    → (htlcs : List OutboundHtlcOutput)
    → outbound_sum test (restore_removed htlcs) ≡ outbound_sum test htlcs
unfolding restore_removed
restore_removed-sum test same [] = refl
restore_removed-sum test same (htlc ∷ htlcs) =
    grind (arith, restore_removed-sum test same htlcs, same)

-- A disconnection leaves a safe channel safe.
pub remove_uncommitted-IsSafe :
    (c : Channel)
    → IsSafeChannel c
    → Leaves IsSafeChannel (remove_uncommitted_htlcs_and_mark_paused {E = ChannelError} c)
unfolding remove_uncommitted_htlcs_and_mark_paused paused
remove_uncommitted-IsSafe c s = ground (
  arith,
  drop_announced-sum c.pending_inbound_htlcs,
  drop_announced-locked c.pending_inbound_htlcs,
  restore_removed-sum every_outbound (λ r. refl) c.pending_outbound_htlcs,
  restore_removed-sum is_removed_fulfilled (λ r. refl) c.pending_outbound_htlcs,
  restore_removed-sum is_paid (λ r. refl) c.pending_outbound_htlcs,
)

drop_announced-again :
    (htlcs : List InboundHtlcOutput)
    → drop_announced (drop_announced htlcs).0 ≡ ((drop_announced htlcs).0, 0)
unfolding drop_announced
drop_announced-again [] = refl
drop_announced-again (htlc ∷ htlcs) = ground (arith, drop_announced-again htlcs)

restore_removed-again :
    (htlcs : List OutboundHtlcOutput)
    → restore_removed (restore_removed htlcs) ≡ restore_removed htlcs
unfolding restore_removed
restore_removed-again [] = refl
restore_removed-again (htlc ∷ htlcs) = ground (arith, restore_removed-again htlcs)

drop_held-again :
    (updates : List HtlcUpdateAwaitingAck)
    → drop_held (drop_held updates).0 ≡ ((drop_held updates).0, [])
unfolding drop_held
drop_held-again [] = refl
drop_held-again (add_htlc add ∷ updates) = drop_held-again updates
drop_held-again (claim_htlc preimage id ∷ updates) = ground (arith, drop_held-again updates)
drop_held-again (fail_htlc id err ∷ updates) = ground (arith, drop_held-again updates)

paused-again : (c : Channel) → paused (paused c) ≡ paused c
unfolding paused
paused-again c = ground (
  arith,
  drop_announced-again c.pending_inbound_htlcs,
  restore_removed-again c.pending_outbound_htlcs,
  drop_held-again c.holding_cell_htlc_updates,
)

paused-drops : (c : Channel) → (drop_held (paused c).holding_cell_htlc_updates).1 ≡ []
unfolding paused
paused-drops c = ground (arith, drop_held-again c.holding_cell_htlc_updates)

to_u32-disconnected : (s : ChannelState) → 8 ≤ to_u32 (record s { peer_disconnected = true })
unfolding to_u32
to_u32-disconnected s = omega arith

not_below : (n : ℕ) → 8 ≤ n → ltb n 8 ≡ false
not_below n h = ground arith

paused-funded : (c : Channel) → ltb (to_u32 (paused c).channel_state) 8 ≡ false
unfolding paused
paused-funded c = not_below _ (to_u32-disconnected c.channel_state)

-- A second disconnection of a channel that is still open changes nothing and drops nothing.
pub remove_uncommitted-twice :
    (c c' : Channel) (drops : List (HtlcSource × ℕ))
    → remove_uncommitted_htlcs_and_mark_paused {E = ChannelError} c ≡ done drops c'
    → c'.channel_state.shutdown_complete ≡ false
    → remove_uncommitted_htlcs_and_mark_paused {E = ChannelError} c' ≡ done [] c'
unfolding remove_uncommitted_htlcs_and_mark_paused
remove_uncommitted-twice c c' drops e open_still =
    elim (Bool-cases c.channel_state.shutdown_complete) [
      | inl closed ↦ ground arith
      | inr open_before ↦ elim (Bool-cases (ltb (to_u32 c.channel_state) 8)) [
        | inl unfunded ↦ ground arith
        | inr funded ↦
            let same : paused c ≡ c' = ground arith in
            rw (sym same)
              (ground (arith, paused-again c, paused-drops c, paused-funded c, open_still, same))
      ]
    ]
