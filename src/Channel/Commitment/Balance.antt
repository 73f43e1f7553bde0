-- ===== src/Channel/Commitment/Balance.antt =====
-- The balances of a commitment transaction, as plain sums.
use rust_lightning.Prelude.{
  ℕ, ◌+◌, ◌-◌, ◌*◌, ◌%◌, ◌^◌, ◌≤◌, ◌<◌, ◌≡◌, Bool, some, List, [], ◌∷◌, arith, if◌then◌else◌,
}
use rust_lightning.Channel.Types.{
  InboundHtlcOutput, OutboundHtlcOutput, InboundHtlcState, OutboundHtlcState,
}
use rust_lightning.Channel.State.{Channel}
use rust_lightning.Channel.Commitment.{
  inbound_included, outbound_included, inbound_fulfilled, outbound_fulfilled,
  remote_htlc_total_msat, local_htlc_total_msat, inbound_offset, value_to_self_msat_offset,
  commitment_values,
}

-- The amounts of the HTLCs whose state passes a test, as plain numbers.
abbrev pub inbound_sum : (InboundHtlcState → Bool) → List InboundHtlcOutput → ℕ
inbound_sum test [] = 0
inbound_sum test (htlc ∷ htlcs) =
    (if test htlc.state then htlc.amount_msat else 0) + inbound_sum test htlcs

abbrev pub outbound_sum : (OutboundHtlcState → Bool) → List OutboundHtlcOutput → ℕ
outbound_sum test [] = 0
outbound_sum test (htlc ∷ htlcs) =
    (if test htlc.state then htlc.amount_msat else 0) + outbound_sum test htlcs

-- The HTLCs have amounts of 64 bits.
abbrev pub HasU64Amounts : List OutboundHtlcOutput → Type 0
HasU64Amounts [] = Unit
HasU64Amounts (htlc ∷ htlcs) = (htlc.amount_msat < 2 ^ 64) × HasU64Amounts htlcs

module _ (g : Bool) where
  pub remote_total-sum :
      (htlcs : List InboundHtlcOutput)
      → remote_htlc_total_msat g htlcs ≡ inbound_sum (inbound_included g) htlcs % 2 ^ 64
  unfolding remote_htlc_total_msat
  remote_total-sum [] = omega arith
  remote_total-sum (htlc ∷ htlcs) = ground (arith, remote_total-sum htlcs)

  pub local_total-sum :
      (htlcs : List OutboundHtlcOutput)
      → local_htlc_total_msat g htlcs ≡ outbound_sum (outbound_included g) htlcs % 2 ^ 64
  unfolding local_htlc_total_msat
  local_total-sum [] = omega arith
  local_total-sum (htlc ∷ htlcs) = ground (arith, local_total-sum htlcs)

  pub inbound_offset-sum :
      (htlcs : List InboundHtlcOutput)
      → inbound_offset g htlcs ≡ inbound_sum (inbound_fulfilled g) htlcs % 2 ^ 64
  unfolding inbound_offset
  inbound_offset-sum [] = omega arith
  inbound_offset-sum (htlc ∷ htlcs) = ground (arith, inbound_offset-sum htlcs)

  pub offset-sum :
      (htlcs : List OutboundHtlcOutput) (start : ℕ)
      → start < 2 ^ 64
      → HasU64Amounts htlcs
      → (value_to_self_msat_offset g htlcs start + outbound_sum (outbound_fulfilled g) htlcs)
          % 2 ^ 64
        ≡ start % 2 ^ 64
  unfolding value_to_self_msat_offset
  offset-sum [] start h u = omega arith
  offset-sum (htlc ∷ htlcs) start h u = ground (arith, offset-sum htlcs start)

  pub offset-lt :
      (htlcs : List OutboundHtlcOutput) (start : ℕ)
      → start < 2 ^ 64
      → value_to_self_msat_offset g htlcs start < 2 ^ 64
  unfolding value_to_self_msat_offset
  offset-lt [] start h = h
  offset-lt (htlc ∷ htlcs) start h = ground (arith, offset-lt htlcs start)

  -- Neither side has promised more than it owns. The HTLCs that the transaction leaves out, and whose
  -- amounts have changed hands, are counted on the side that has them now.
  pub record IsSolvent (c : Channel) : Type 0 where
    pub ours :
        outbound_sum (outbound_included g) c.pending_outbound_htlcs
          + outbound_sum (outbound_fulfilled g) c.pending_outbound_htlcs
        ≤ c.value_to_self_msat + inbound_sum (inbound_fulfilled g) c.pending_inbound_htlcs
    pub theirs :
        c.value_to_self_msat
          + inbound_sum (inbound_included g) c.pending_inbound_htlcs
          + inbound_sum (inbound_fulfilled g) c.pending_inbound_htlcs
        ≤ c.channel_value_satoshis * 1000
          + outbound_sum (outbound_fulfilled g) c.pending_outbound_htlcs
    pub outbound_fits :
        outbound_sum (outbound_included g) c.pending_outbound_htlcs ≤ c.value_to_self_msat
    pub claims_fit :
        inbound_sum (inbound_fulfilled g) c.pending_inbound_htlcs ≤ c.channel_value_satoshis * 1000
    pub self_fits : c.value_to_self_msat ≤ c.channel_value_satoshis * 1000
    pub value_fits : c.channel_value_satoshis * 1000 < 2 ^ 60
    pub amounts : HasU64Amounts c.pending_outbound_htlcs

  abbrev pub to_self_msat : Channel → ℕ
  to_self_msat c =
      c.value_to_self_msat
      + inbound_sum (inbound_fulfilled g) c.pending_inbound_htlcs
      - outbound_sum (outbound_included g) c.pending_outbound_htlcs
      - outbound_sum (outbound_fulfilled g) c.pending_outbound_htlcs

  abbrev pub to_remote_msat : Channel → ℕ
  to_remote_msat c =
      c.channel_value_satoshis * 1000
      + outbound_sum (outbound_fulfilled g) c.pending_outbound_htlcs
      - c.value_to_self_msat
      - inbound_sum (inbound_included g) c.pending_inbound_htlcs
      - inbound_sum (inbound_fulfilled g) c.pending_inbound_htlcs

  -- Of a solvent channel no assertion of the code fails, and the two balances are what the sums say:
  -- no step of the u64 and i64 arithmetic wraps for good.
  pub commitment_values_lem :
      (c : Channel) → IsSolvent c → commitment_values g c ≡ some (to_self_msat c, to_remote_msat c)
  unfolding commitment_values
  commitment_values_lem c s =
      let start : ℕ = inbound_offset g c.pending_inbound_htlcs in
      let fits : start < 2 ^ 64 = omega (arith, inbound_offset-sum c.pending_inbound_htlcs) in
      ground (
        arith,
        remote_total-sum c.pending_inbound_htlcs,
        local_total-sum c.pending_outbound_htlcs,
        inbound_offset-sum c.pending_inbound_htlcs,
        offset-sum c.pending_outbound_htlcs start fits s.amounts,
        offset-lt c.pending_outbound_htlcs start fits,
      )

  -- The balances and the pending HTLCs of a solvent channel's commitment transaction add up to the
  -- channel's value, to the millisatoshi.
  pub commitment_values-sum :
      (c : Channel) (to_self to_remote : ℕ)
      → IsSolvent c
      → commitment_values g c ≡ some (to_self, to_remote)
      → to_self
          + to_remote
          + inbound_sum (inbound_included g) c.pending_inbound_htlcs
          + outbound_sum (outbound_included g) c.pending_outbound_htlcs
        ≡ c.channel_value_satoshis * 1000
  commitment_values-sum c to_self to_remote s e = ground (arith, commitment_values_lem c s)
