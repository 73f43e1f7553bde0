-- ===== src/Channel/Revoke/Balance.antt =====
-- A revocation keeps the invariant of the balances.
use rust_lightning.Prelude.{ℕ, ◌+◌, ◌%◌, ◌^◌, ◌≤◌, ◌<◌, ◌≡◌, refl, List, [], ◌∷◌, arith}
use rust_lightning.Channel.Types.{InboundHtlcOutput, OutboundHtlcOutput}
use rust_lightning.Channel.State.{Channel}
use rust_lightning.Channel.Commitment.Balance.{inbound_sum, outbound_sum, HasU64Amounts}
use rust_lightning.Channel.Safe.{
  IsSafeChannel, every_inbound, every_outbound, is_locked, is_paid, amounts_fit,
}
use rust_lightning.Channel.Add.{is_removed_fulfilled}
use rust_lightning.Channel.Revoke.{
  is_claimed, retain_inbound, retain_outbound, claimed_diff, value_to_self_msat_diff,
  promote_inbound, promote_outbound, step_htlcs,
}

-- The i64 arithmetic of the first two loops.
claimed_diff-sum :
    (htlcs : List InboundHtlcOutput) → claimed_diff htlcs ≡ inbound_sum is_claimed htlcs % 2 ^ 64
unfolding claimed_diff
claimed_diff-sum [] = omega arith
claimed_diff-sum (htlc ∷ htlcs) = ground (arith, claimed_diff-sum htlcs)

value_diff-sum :
    (htlcs : List OutboundHtlcOutput) (start : ℕ)
    → start < 2 ^ 64
    → HasU64Amounts htlcs
    → (value_to_self_msat_diff htlcs start + outbound_sum is_paid htlcs) % 2 ^ 64 ≡ start % 2 ^ 64
unfolding value_to_self_msat_diff
value_diff-sum [] start h u = omega arith
value_diff-sum (htlc ∷ htlcs) start h u = ground (arith, value_diff-sum htlcs start)

value_diff-lt :
    (htlcs : List OutboundHtlcOutput) (start : ℕ)
    → start < 2 ^ 64
    → value_to_self_msat_diff htlcs start < 2 ^ 64
unfolding value_to_self_msat_diff
value_diff-lt [] start h = h
value_diff-lt (htlc ∷ htlcs) start h = ground (arith, value_diff-lt htlcs start)

-- What is left of the sums: a claimed HTLC is gone, and a paid one.
inbound-claimed :
    (htlcs : List InboundHtlcOutput) → inbound_sum is_claimed htlcs ≤ inbound_sum is_locked htlcs
inbound-claimed [] = omega arith
inbound-claimed (htlc ∷ htlcs) = ground (arith, inbound-claimed htlcs)

promote_inbound-every :
    (htlcs : List InboundHtlcOutput)
    → inbound_sum every_inbound (promote_inbound (retain_inbound htlcs)).htlcs
        + inbound_sum is_claimed htlcs
      ≤ inbound_sum every_inbound htlcs
unfolding promote_inbound retain_inbound
promote_inbound-every [] = omega arith
promote_inbound-every (htlc ∷ htlcs) = ground (arith, promote_inbound-every htlcs)

promote_inbound-locked :
    (htlcs : List InboundHtlcOutput)
    → inbound_sum is_locked (promote_inbound (retain_inbound htlcs)).htlcs
        + inbound_sum is_claimed htlcs
      ≤ inbound_sum every_inbound htlcs
unfolding promote_inbound retain_inbound
promote_inbound-locked [] = omega arith
promote_inbound-locked (htlc ∷ htlcs) = ground (arith, promote_inbound-locked htlcs)

pub promote_outbound-every :
    (htlcs : List OutboundHtlcOutput)
    → outbound_sum every_outbound (promote_outbound (retain_outbound htlcs)).0
        + outbound_sum is_paid htlcs
      ≤ outbound_sum every_outbound htlcs
unfolding promote_outbound retain_outbound
promote_outbound-every [] = omega arith
promote_outbound-every (htlc ∷ htlcs) = ground (arith, promote_outbound-every htlcs)

promote_outbound-removed :
    (htlcs : List OutboundHtlcOutput)
    → outbound_sum is_removed_fulfilled (promote_outbound (retain_outbound htlcs)).0
        + outbound_sum is_paid htlcs
      ≡ outbound_sum is_removed_fulfilled htlcs
unfolding promote_outbound retain_outbound
promote_outbound-removed [] = refl
promote_outbound-removed (htlc ∷ htlcs) = ground (arith, promote_outbound-removed htlcs)

promote_outbound-paid :
    (htlcs : List OutboundHtlcOutput)
    → outbound_sum is_paid (promote_outbound (retain_outbound htlcs)).0 + outbound_sum is_paid htlcs
      ≡ outbound_sum is_removed_fulfilled htlcs
unfolding promote_outbound retain_outbound
promote_outbound-paid [] = refl
promote_outbound-paid (htlc ∷ htlcs) = ground (arith, promote_outbound-paid htlcs)

-- The balance of a safe channel grows by exactly what we claimed and shrinks by exactly what the peer
-- claimed: the i64 difference does not wrap for good.
pub step_htlcs-value :
    (c : Channel)
    → IsSafeChannel c
    → (step_htlcs c).value_to_self_msat + outbound_sum is_paid c.pending_outbound_htlcs
      ≡ c.value_to_self_msat + inbound_sum is_claimed c.pending_inbound_htlcs
unfolding step_htlcs
step_htlcs-value c s =
    let start : ℕ = claimed_diff c.pending_inbound_htlcs in
    let fits : start < 2 ^ 64 = omega (arith, claimed_diff-sum c.pending_inbound_htlcs) in
    ground (
      arith,
      claimed_diff-sum c.pending_inbound_htlcs,
      inbound-claimed c.pending_inbound_htlcs,
      promote_outbound-every c.pending_outbound_htlcs,
      value_diff-sum c.pending_outbound_htlcs start fits
          (amounts_fit c.pending_outbound_htlcs (omega arith)),
      value_diff-lt c.pending_outbound_htlcs start fits,
    )

-- The HTLCs and the balance after a revocation are those of a safe channel again.
pub step_htlcs-IsSafe : (c : Channel) → IsSafeChannel c → IsSafeChannel (step_htlcs c)
unfolding step_htlcs
step_htlcs-IsSafe c s = ground (
  arith,
  step_htlcs-value c s,
  inbound-claimed c.pending_inbound_htlcs,
  promote_inbound-every c.pending_inbound_htlcs,
  promote_inbound-locked c.pending_inbound_htlcs,
  promote_outbound-every c.pending_outbound_htlcs,
  promote_outbound-removed c.pending_outbound_htlcs,
  promote_outbound-paid c.pending_outbound_htlcs,
)
