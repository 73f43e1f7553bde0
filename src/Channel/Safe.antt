-- ===== src/Channel/Safe.antt =====
-- The invariant of a channel's balances, and that it makes every commitment transaction buildable.
use rust_lightning.Prelude.{
  ℕ, ◌+◌, ◌*◌, ◌^◌, ◌≤◌, ◌<◌, ◌≡◌, Bool, true, false, none, some, List, [], ◌∷◌, arith,
}
use rust_lightning.Channel.Types.{
  InboundHtlcState, InboundHtlcOutput, OutboundHtlcState, OutboundHtlcOutput,
}
use rust_lightning.Channel.State.{Channel}
use rust_lightning.Channel.Commitment.{
  inbound_included, outbound_included, inbound_fulfilled, outbound_fulfilled, commitment_values,
}
use rust_lightning.Channel.Commitment.Balance.{
  inbound_sum, outbound_sum, HasU64Amounts, IsSolvent, to_self_msat, to_remote_msat,
  commitment_values_lem,
}
use rust_lightning.Channel.Add.{is_removed_fulfilled}

abbrev pub every_inbound : InboundHtlcState → Bool
every_inbound _ = true

abbrev pub every_outbound : OutboundHtlcState → Bool
every_outbound _ = true

-- The inbound HTLCs that our last commitment_signed covers, or that it has already removed.
abbrev pub is_locked : InboundHtlcState → Bool
is_locked (InboundHtlcState.remote_announced _) = false
is_locked (InboundHtlcState.awaiting_remote_revoke_to_announce _) = false
is_locked (InboundHtlcState.awaiting_announced_remote_revoke _) = true
is_locked InboundHtlcState.committed = true
is_locked (InboundHtlcState.local_removed _) = true

-- The outbound HTLCs that the peer fulfilled and our last commitment_signed left out.
abbrev pub is_paid : OutboundHtlcState → Bool
is_paid (OutboundHtlcState.awaiting_removed_remote_revoke none) = true
is_paid _ = false

-- What we have offered is ours. What the peer has offered is the peer's, where an outbound HTLC that
-- it has fulfilled counts as the peer's, although `value_to_self_msat` still contains it; the same
-- holds for the HTLCs of our last commitment_signed alone. The peer's HTLCs respect our limit.
pub record IsSafe (channel_value_satoshis value_to_self_msat : ℕ) (inbound : List InboundHtlcOutput)
    (outbound : List OutboundHtlcOutput) : Type 0 where
  pub value_fits : channel_value_satoshis ≤ 2 ^ 24
  pub self_fits : value_to_self_msat ≤ channel_value_satoshis * 1000
  pub ours : outbound_sum every_outbound outbound ≤ value_to_self_msat
  pub theirs :
      value_to_self_msat + inbound_sum every_inbound inbound
      ≤ channel_value_satoshis * 1000 + outbound_sum is_removed_fulfilled outbound
  pub locked :
      value_to_self_msat + inbound_sum is_locked inbound
      ≤ channel_value_satoshis * 1000 + outbound_sum is_paid outbound
  pub in_flight : inbound_sum every_inbound inbound ≤ channel_value_satoshis * 100

abbrev pub IsSafeChannel : Channel → Type 0
IsSafeChannel c =
    IsSafe c.channel_value_satoshis c.value_to_self_msat c.pending_inbound_htlcs
      c.pending_outbound_htlcs

-- The HTLCs of each transaction are among those counted above.
inbound-locked :
    (htlcs : List InboundHtlcOutput)
    → inbound_sum (inbound_included true) htlcs + inbound_sum (inbound_fulfilled true) htlcs
      ≤ inbound_sum is_locked htlcs
inbound-locked [] = omega arith
inbound-locked (htlc ∷ htlcs) = ground (arith, inbound-locked htlcs)

inbound-every :
    (htlcs : List InboundHtlcOutput)
    → inbound_sum (inbound_included false) htlcs + inbound_sum (inbound_fulfilled false) htlcs
      ≤ inbound_sum every_inbound htlcs
inbound-every [] = omega arith
inbound-every (htlc ∷ htlcs) = ground (arith, inbound-every htlcs)

fulfilled-every :
    (htlcs : List InboundHtlcOutput)
    → inbound_sum (inbound_fulfilled true) htlcs ≤ inbound_sum every_inbound htlcs
fulfilled-every [] = omega arith
fulfilled-every (htlc ∷ htlcs) = ground (arith, fulfilled-every htlcs)

outbound-every :
    (g : Bool) (htlcs : List OutboundHtlcOutput)
    → outbound_sum (outbound_included g) htlcs + outbound_sum (outbound_fulfilled g) htlcs
      ≤ outbound_sum every_outbound htlcs
outbound-every g [] = omega arith
outbound-every g (htlc ∷ htlcs) = ground (arith, outbound-every g htlcs)

paid-fulfilled :
    (htlcs : List OutboundHtlcOutput)
    → outbound_sum is_paid htlcs ≤ outbound_sum (outbound_fulfilled true) htlcs
paid-fulfilled [] = omega arith
paid-fulfilled (htlc ∷ htlcs) = ground (arith, paid-fulfilled htlcs)

removed-fulfilled :
    (htlcs : List OutboundHtlcOutput)
    → outbound_sum is_removed_fulfilled htlcs ≤ outbound_sum (outbound_fulfilled false) htlcs
removed-fulfilled [] = omega arith
removed-fulfilled (htlc ∷ htlcs) = ground (arith, removed-fulfilled htlcs)

pub amounts_fit :
    (htlcs : List OutboundHtlcOutput)
    → outbound_sum every_outbound htlcs < 2 ^ 64
    → HasU64Amounts htlcs
amounts_fit [] h = tt
amounts_fit (htlc ∷ htlcs) h = (omega arith, amounts_fit htlcs (omega arith))

pub IsSafe-IsSolvent : (g : Bool) (c : Channel) → IsSafeChannel c → IsSolvent g c
IsSafe-IsSolvent true c s =
    let amounts = amounts_fit c.pending_outbound_htlcs (omega arith) in
    ground (
      arith,
      amounts,
      inbound-locked c.pending_inbound_htlcs,
      fulfilled-every c.pending_inbound_htlcs,
      outbound-every true c.pending_outbound_htlcs,
      paid-fulfilled c.pending_outbound_htlcs,
    )
IsSafe-IsSolvent false c s =
    let amounts = amounts_fit c.pending_outbound_htlcs (omega arith) in
    ground (
      arith,
      amounts,
      inbound-every c.pending_inbound_htlcs,
      outbound-every false c.pending_outbound_htlcs,
      removed-fulfilled c.pending_outbound_htlcs,
    )

-- In a safe channel the balances of the next commitment transaction exist, whoever generates it: the
-- two assertions of the code hold.
pub IsSafe-commitment_values :
    (g : Bool) (c : Channel)
    → IsSafeChannel c
    → commitment_values g c ≡ some (to_self_msat g c, to_remote_msat g c)
IsSafe-commitment_values g c s = commitment_values_lem g c (IsSafe-IsSolvent g c s)
