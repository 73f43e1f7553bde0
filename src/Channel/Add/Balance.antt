-- ===== src/Channel/Add/Balance.antt =====
-- Adding an HTLC keeps the invariant of the balances, within the limits.
use rust_lightning.Prelude.{
  ℕ, ◌+◌, ◌*◌, ◌%◌, ◌^◌, ◌≤◌, ◌<◌, ◌≡◌, Bool, Option, List, [], ◌∷◌, ◌++◌, arith,
}
use rust_lightning.Msgs.{UpdateAddHtlc, OnionPacket}
use rust_lightning.Channel.Types.{
  HtlcSource, PendingHtlcStatus, InboundHtlcState, InboundHtlcOutput, OutboundHtlcState,
  OutboundHtlcOutput, HtlcUpdateAwaitingAck, AddHtlc, add_htlc, claim_htlc, fail_htlc,
}
use rust_lightning.Channel.State.{Channel, done, Leaves}
use rust_lightning.Channel.Commitment.Balance.{inbound_sum, outbound_sum}
use rust_lightning.Channel.Safe.{IsSafeChannel, every_inbound, every_outbound, is_locked, is_paid}
use rust_lightning.Channel.Add.{
  inbound_value_msat, outbound_value_msat, held_adds, removed_outbound_total_msat,
  is_removed_fulfilled, get_our_max_htlc_value_in_flight_msat, get_our_channel_reserve_satoshis,
  get_inbound_pending_htlc_stats, get_outbound_pending_htlc_stats,
  get_inbound_outbound_available_balance_msat, update_add_htlc, send_htlc,
}

-- The accumulators of the loops are the sums, modulo 2 ^ 64.
pub inbound_value_msat-sum :
    (htlcs : List InboundHtlcOutput)
    → inbound_value_msat htlcs ≡ inbound_sum every_inbound htlcs % 2 ^ 64
unfolding inbound_value_msat
inbound_value_msat-sum [] = omega arith
inbound_value_msat-sum (htlc ∷ htlcs) = omega (arith, inbound_value_msat-sum htlcs)

pub outbound_value_msat-sum :
    (htlcs : List OutboundHtlcOutput)
    → outbound_value_msat htlcs ≡ outbound_sum every_outbound htlcs % 2 ^ 64
unfolding outbound_value_msat
outbound_value_msat-sum [] = omega arith
outbound_value_msat-sum (htlc ∷ htlcs) = omega (arith, outbound_value_msat-sum htlcs)

removed_outbound-sum :
    (htlcs : List OutboundHtlcOutput)
    → removed_outbound_total_msat htlcs ≡ outbound_sum is_removed_fulfilled htlcs % 2 ^ 64
unfolding removed_outbound_total_msat
removed_outbound-sum [] = omega arith
removed_outbound-sum (htlc ∷ htlcs) = ground (arith, removed_outbound-sum htlcs)

removed-every :
    (htlcs : List OutboundHtlcOutput)
    → outbound_sum is_removed_fulfilled htlcs ≤ outbound_sum every_outbound htlcs
removed-every [] = omega arith
removed-every (htlc ∷ htlcs) = ground (arith, removed-every htlcs)

pub inbound_sum-append :
    (test : InboundHtlcState → Bool) (xs ys : List InboundHtlcOutput)
    → inbound_sum test (xs ++ ys) ≡ inbound_sum test xs + inbound_sum test ys
inbound_sum-append test [] ys = omega arith
inbound_sum-append test (x ∷ xs) ys = omega (arith, inbound_sum-append test xs ys)

pub outbound_sum-append :
    (test : OutboundHtlcState → Bool) (xs ys : List OutboundHtlcOutput)
    → outbound_sum test (xs ++ ys) ≡ outbound_sum test xs + outbound_sum test ys
outbound_sum-append test [] ys = omega arith
outbound_sum-append test (x ∷ xs) ys = omega (arith, outbound_sum-append test xs ys)

-- The peer's own reserve is at most the channel.
reserve-le : (value : ℕ) → get_our_channel_reserve_satoshis value ≤ value
unfolding get_our_channel_reserve_satoshis
reserve-le value = omega arith

-- Whatever the peer adds, a safe channel stays safe: the checks of `update_add_htlc`, made in u64
-- arithmetic, are enough.
pub update_add_htlc-IsSafe :
    (msg : UpdateAddHtlc) (status : PendingHtlcStatus) (c : Channel)
    → IsSafeChannel c
    → Leaves IsSafeChannel (update_add_htlc msg status c)
unfolding update_add_htlc get_inbound_pending_htlc_stats get_our_max_htlc_value_in_flight_msat
update_add_htlc-IsSafe msg status c s =
    let new : InboundHtlcOutput = record {
      htlc_id = msg.htlc_id;
      amount_msat = msg.amount_msat;
      cltv_expiry = msg.cltv_expiry;
      payment_hash = msg.payment_hash;
      state = InboundHtlcState.remote_announced status;
    } in
    ground (
      arith,
      inbound_value_msat-sum c.pending_inbound_htlcs,
      removed_outbound-sum c.pending_outbound_htlcs,
      removed-every c.pending_outbound_htlcs,
      reserve-le c.channel_value_satoshis,
      inbound_sum-append every_inbound c.pending_inbound_htlcs (new ∷ []),
      inbound_sum-append is_locked c.pending_inbound_htlcs (new ∷ []),
    )

-- The amounts that wait in the holding cell, as a plain sum.
abbrev pub held_sum : List HtlcUpdateAwaitingAck → ℕ
held_sum [] = 0
held_sum (add_htlc add ∷ updates) = add.amount_msat + held_sum updates
held_sum (claim_htlc _ _ ∷ updates) = held_sum updates
held_sum (fail_htlc _ _ ∷ updates) = held_sum updates

pub held_adds-sum :
    (updates : List HtlcUpdateAwaitingAck) → (held_adds updates).1 ≡ held_sum updates % 2 ^ 64
unfolding held_adds
held_adds-sum [] = omega arith
held_adds-sum (add_htlc add ∷ updates) = omega (arith, held_adds-sum updates)
held_adds-sum (claim_htlc _ _ ∷ updates) = held_adds-sum updates
held_adds-sum (fail_htlc _ _ ∷ updates) = held_adds-sum updates

pub held_sum-append :
    (xs ys : List HtlcUpdateAwaitingAck) → held_sum (xs ++ ys) ≡ held_sum xs + held_sum ys
held_sum-append [] ys = omega arith
held_sum-append (add_htlc add ∷ xs) ys = omega (arith, held_sum-append xs ys)
held_sum-append (claim_htlc _ _ ∷ xs) ys = held_sum-append xs ys
held_sum-append (fail_htlc _ _ ∷ xs) ys = held_sum-append xs ys

-- We never offer more than is ours: `send_htlc` keeps the channel safe, provided that the reserve the
-- peer asks for is at most the channel and that the holding cell holds less than 2 ^ 63.
pub send_htlc-IsSafe :
    (amount hash cltv : ℕ) (source : HtlcSource) (onion : OnionPacket) (c : Channel)
    → IsSafeChannel c
    → c.their_channel_reserve_satoshis ≤ c.channel_value_satoshis
    → held_sum c.holding_cell_htlc_updates < 2 ^ 63
    → Leaves IsSafeChannel (send_htlc amount hash cltv source onion c)
unfolding send_htlc get_outbound_pending_htlc_stats
send_htlc-IsSafe amount hash cltv source onion c s reserve held =
    let new : OutboundHtlcOutput = record {
      htlc_id = c.next_local_htlc_id;
      amount_msat = amount;
      cltv_expiry = cltv;
      payment_hash = hash;
      state = OutboundHtlcState.local_announced onion;
      source = source;
    } in
    ground (
      arith,
      outbound_value_msat-sum c.pending_outbound_htlcs,
      held_adds-sum c.holding_cell_htlc_updates,
      outbound_sum-append every_outbound c.pending_outbound_htlcs (new ∷ []),
      outbound_sum-append is_removed_fulfilled c.pending_outbound_htlcs (new ∷ []),
      outbound_sum-append is_paid c.pending_outbound_htlcs (new ∷ []),
    )

-- An accepted HTLC leaves us at least the reserve that the peer asks for, counting what waits, if the
-- channel is safe, the reserve is at most the channel and the holding cell holds less than 2 ^ 63.
pub send_htlc-reserve :
    (amount hash cltv : ℕ) (source : HtlcSource) (onion : OnionPacket) (c c' : Channel)
    (msg : Option UpdateAddHtlc)
    → IsSafeChannel c
    → c.their_channel_reserve_satoshis ≤ c.channel_value_satoshis
    → held_sum c.holding_cell_htlc_updates < 2 ^ 63
    → send_htlc amount hash cltv source onion c ≡ done msg c'
    → outbound_sum every_outbound c'.pending_outbound_htlcs
        + held_sum c'.holding_cell_htlc_updates
        + c.their_channel_reserve_satoshis * 1000
      ≤ c'.value_to_self_msat
unfolding send_htlc get_outbound_pending_htlc_stats
send_htlc-reserve amount hash cltv source onion c c' msg s reserve held e =
    let new : OutboundHtlcOutput = record {
      htlc_id = c.next_local_htlc_id;
      amount_msat = amount;
      cltv_expiry = cltv;
      payment_hash = hash;
      state = OutboundHtlcState.local_announced onion;
      source = source;
    } in
    let held_add : AddHtlc = record {
      amount_msat = amount;
      cltv_expiry = cltv;
      payment_hash = hash;
      source = source;
      onion_routing_packet = onion;
    } in
    ground (
      arith,
      outbound_value_msat-sum c.pending_outbound_htlcs,
      held_adds-sum c.holding_cell_htlc_updates,
      outbound_sum-append every_outbound c.pending_outbound_htlcs (new ∷ []),
      held_sum-append c.holding_cell_htlc_updates (add_htlc held_add ∷ []),
    )

-- `get_inbound_outbound_available_balance_msat` takes the minimum with 0 where the maximum is meant: of
-- a safe channel it reports (0, 0), provided that our balance covers what we have offered together
-- with what waits in the holding cell, and that our balance and the peer's HTLCs are together at most
-- the channel's value.
pub available_balance-zero :
    (c : Channel)
    → IsSafeChannel c
    → held_sum c.holding_cell_htlc_updates + outbound_sum every_outbound c.pending_outbound_htlcs
      ≤ c.value_to_self_msat
    → c.value_to_self_msat + inbound_sum every_inbound c.pending_inbound_htlcs
      ≤ c.channel_value_satoshis * 1000
    → get_inbound_outbound_available_balance_msat c ≡ (0, 0)
unfolding get_inbound_outbound_available_balance_msat get_inbound_pending_htlc_stats
    get_outbound_pending_htlc_stats
available_balance-zero c s outbound inbound = ground (
  arith,
  inbound_value_msat-sum c.pending_inbound_htlcs,
  outbound_value_msat-sum c.pending_outbound_htlcs,
  held_adds-sum c.holding_cell_htlc_updates,
)
