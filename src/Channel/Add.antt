-- ===== src/Channel/Add.antt =====
-- lightning/src/ln/channel.rs: what is in flight, and the two ways in which an HTLC is added: the
-- peer's `update_add_htlc`, and our own `send_htlc`.
pub mod Balance
use rust_lightning.Prelude.{
  ℕ, ◌+◌, ◌*◌, ◌/◌, ◌%◌, ◌^◌, Bool, true, false, not, ◌&&◌, ◌||◌, Option, none, some, List, [], ◌∷◌,
  ◌++◌, ltb, leb, ◌==◌, if◌then◌else◌, length, add64, sub64, mul64, is_nonneg_i64, le_i64,
}
use Prim.Native.Nat.{min, max}
use rust_lightning.Msgs.{UpdateAddHtlc, OnionPacket}
use rust_lightning.Channel.Types.{
  HtlcSource, PendingHtlcStatus, forward, fail, InboundHtlcState, InboundHtlcOutput,
  OutboundHtlcState, OutboundHtlcOutput, HtlcUpdateAwaitingAck, add_htlc, claim_htlc, fail_htlc,
}
use rust_lightning.Channel.State.{
  Channel, ChannelError, ignore, close, Reason, our_max_htlcs, Outcome, done, Method, ◌>>=◌, ◌>>◌,
  raise_if, panic_if, not_operational, needs_channel_reestablish, more_than_channel_value,
  zero_msat, below_minimum, too_many_htlcs, over_max_in_flight, over_reserve, skipped_htlc_id,
  cltv_in_seconds, disconnected_or_frozen,
}

unfoldable pub get_our_max_htlc_value_in_flight_msat : ℕ → ℕ
get_our_max_htlc_value_in_flight_msat channel_value_satoshis =
    mul64 channel_value_satoshis 1000 / 10

unfoldable pub get_our_channel_reserve_satoshis : ℕ → ℕ
get_our_channel_reserve_satoshis channel_value_satoshis =
    min channel_value_satoshis (max (channel_value_satoshis / 100) 1000)

unfoldable pub inbound_value_msat : List InboundHtlcOutput → ℕ
inbound_value_msat [] = 0
inbound_value_msat (htlc ∷ htlcs) = add64 (inbound_value_msat htlcs) htlc.amount_msat

-- The count is a u32.
unfoldable pub get_inbound_pending_htlc_stats : Channel → ℕ × ℕ
get_inbound_pending_htlc_stats c =
    (length c.pending_inbound_htlcs % 2 ^ 32, inbound_value_msat c.pending_inbound_htlcs)

unfoldable pub outbound_value_msat : List OutboundHtlcOutput → ℕ
outbound_value_msat [] = 0
outbound_value_msat (htlc ∷ htlcs) = add64 (outbound_value_msat htlcs) htlc.amount_msat

-- The number and the value of the adds in the holding cell.
unfoldable pub held_adds : List HtlcUpdateAwaitingAck → ℕ × ℕ
held_adds [] = (0, 0)
held_adds (add_htlc add ∷ updates) =
    let (count, value) = held_adds updates in (count + 1, add64 value add.amount_msat)
held_adds (claim_htlc _ _ ∷ updates) = held_adds updates
held_adds (fail_htlc _ _ ∷ updates) = held_adds updates

unfoldable pub get_outbound_pending_htlc_stats : Channel → ℕ × ℕ
get_outbound_pending_htlc_stats c =
    let (count, value) = held_adds c.holding_cell_htlc_updates in
    (
      (length c.pending_outbound_htlcs + count) % 2 ^ 32,
      add64 (outbound_value_msat c.pending_outbound_htlcs) value,
    )

-- `cmp::min(a, b)` of two i64
abbrev pub min_i64 : ℕ → ℕ → ℕ
min_i64 a b = if le_i64 a b then a else b

-- The subtractions are of i64, and `min` keeps what is not above zero.
unfoldable pub get_inbound_outbound_available_balance_msat : Channel → ℕ × ℕ
get_inbound_outbound_available_balance_msat c =
    let (_, inbound) = get_inbound_pending_htlc_stats c in
    let (_, outbound) = get_outbound_pending_htlc_stats c in
    (
      min_i64 (sub64 (sub64 (mul64 c.channel_value_satoshis 1000) c.value_to_self_msat) inbound) 0,
      min_i64 (sub64 c.value_to_self_msat outbound) 0,
    )

-- `removed_outbound_total_msat`
abbrev pub is_removed_fulfilled : OutboundHtlcState → Bool
is_removed_fulfilled (OutboundHtlcState.awaiting_remote_revoke_to_remove none) = true
is_removed_fulfilled (OutboundHtlcState.awaiting_removed_remote_revoke none) = true
is_removed_fulfilled _ = false

unfoldable pub removed_outbound_total_msat : List OutboundHtlcOutput → ℕ
removed_outbound_total_msat [] = 0
removed_outbound_total_msat (htlc ∷ htlcs) =
    let rest = removed_outbound_total_msat htlcs in
    if is_removed_fulfilled htlc.state then add64 rest htlc.amount_msat else rest

abbrev pub is_forward : PendingHtlcStatus → Bool
is_forward (forward _) = true
is_forward (fail _) = false

unfoldable pub update_add_htlc : UpdateAddHtlc → PendingHtlcStatus → Method ChannelError (Unit {0})
update_add_htlc msg pending_forward_state c =
    (do
      let s = c.channel_state
      let (inbound_htlc_count, htlc_inbound_value_msat) = get_inbound_pending_htlc_stats c
      let reserve = get_our_channel_reserve_satoshis c.channel_value_satoshis
      let removed = removed_outbound_total_msat c.pending_outbound_htlcs
      raise_if (not s.channel_funded || s.remote_shutdown_sent) (close not_operational)
      raise_if s.peer_disconnected (close needs_channel_reestablish)
      raise_if (ltb (mul64 c.channel_value_satoshis 1000) msg.amount_msat)
          (close more_than_channel_value)
      raise_if (msg.amount_msat == 0) (close zero_msat)
      raise_if (ltb msg.amount_msat c.our_htlc_minimum_msat) (close below_minimum)
      raise_if (ltb our_max_htlcs ((inbound_htlc_count + 1) % 2 ^ 32)) (close too_many_htlcs)
      raise_if
          (ltb (get_our_max_htlc_value_in_flight_msat c.channel_value_satoshis)
            (add64 htlc_inbound_value_msat msg.amount_msat))
          (close over_max_in_flight)
      raise_if
          (ltb (add64 (mul64 (sub64 c.channel_value_satoshis reserve) 1000) removed)
            (add64 (add64 htlc_inbound_value_msat msg.amount_msat) c.value_to_self_msat))
          (close over_reserve)
      raise_if (not (c.next_remote_htlc_id == msg.htlc_id)) (close skipped_htlc_id)
      raise_if (leb 500000000 msg.cltv_expiry) (close cltv_in_seconds)
      panic_if (s.local_shutdown_sent && is_forward pending_forward_state)
      λ _. done tt (record c {
        next_remote_htlc_id = add64 c.next_remote_htlc_id 1;
        pending_inbound_htlcs =
            c.pending_inbound_htlcs
            ++ (record {
              htlc_id = msg.htlc_id;
              amount_msat = msg.amount_msat;
              cltv_expiry = msg.cltv_expiry;
              payment_hash = msg.payment_hash;
              state = InboundHtlcState.remote_announced pending_forward_state;
            }
                ∷ []);
      }))
      c

-- `some`: the message to send; `none`: the HTLC waits in the holding cell.
unfoldable pub send_htlc :
    ℕ → ℕ → ℕ → HtlcSource → OnionPacket → Method ChannelError (Option UpdateAddHtlc)
send_htlc amount payment_hash cltv_expiry source onion_routing_packet c =
    (do
      let s = c.channel_state
      let (outbound_htlc_count, htlc_outbound_value_msat) = get_outbound_pending_htlc_stats c
      raise_if (not s.channel_funded || s.local_shutdown_sent || s.remote_shutdown_sent)
          (ignore not_operational)
      raise_if (ltb (mul64 c.channel_value_satoshis 1000) amount) (ignore more_than_channel_value)
      raise_if (amount == 0) (ignore zero_msat)
      raise_if (ltb amount c.their_htlc_minimum_msat) (ignore below_minimum)
      raise_if (s.peer_disconnected || s.monitor_update_failed) (ignore disconnected_or_frozen)
      raise_if (ltb c.their_max_accepted_htlcs ((outbound_htlc_count + 1) % 2 ^ 32))
          (ignore too_many_htlcs)
      raise_if (ltb c.their_max_htlc_value_in_flight_msat (add64 htlc_outbound_value_msat amount))
          (ignore over_max_in_flight)
      raise_if
          (ltb c.value_to_self_msat (
            add64 (add64 (mul64 c.their_channel_reserve_satoshis 1000) amount)
              htlc_outbound_value_msat))
          (ignore over_reserve)
      λ _.
          if s.awaiting_remote_revoke
          then done none (record c {
            holding_cell_htlc_updates =
                c.holding_cell_htlc_updates
                ++ (add_htlc (record {
                  amount_msat = amount;
                  cltv_expiry = cltv_expiry;
                  payment_hash = payment_hash;
                  source = source;
                  onion_routing_packet = onion_routing_packet;
                })
                    ∷ []);
          })
          else done
              (some (record {
                channel_id = c.channel_id;
                htlc_id = c.next_local_htlc_id;
                amount_msat = amount;
                payment_hash = payment_hash;
                cltv_expiry = cltv_expiry;
                onion_routing_packet = onion_routing_packet;
              }))
              (record c {
                next_local_htlc_id = add64 c.next_local_htlc_id 1;
                pending_outbound_htlcs =
                    c.pending_outbound_htlcs
                    ++ (record {
                      htlc_id = c.next_local_htlc_id;
                      amount_msat = amount;
                      cltv_expiry = cltv_expiry;
                      payment_hash = payment_hash;
                      state = OutboundHtlcState.local_announced onion_routing_packet;
                      source = source;
                    }
                        ∷ []);
              }))
      c
