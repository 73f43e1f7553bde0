-- ===== src/Channel/Transaction/Outputs.antt =====
-- What the outputs of a commitment transaction add up to.
use rust_lightning.Prelude.{
  ℕ, ◌+◌, ◌*◌, ◌/◌, ◌^◌, ◌≤◌, ◌<◌, ◌≡◌, refl, ◌∙◌, sym, Bool, some, List, [], ◌∷◌, ◌++◌, map, arith,
  if◌then◌else◌, sub64, length,
}
use rust_lightning.Bitcoin.{Extern, TxOut, Transaction}
use rust_lightning.ChanUtils.Keys.{TxCreationKeys}
use rust_lightning.ChanUtils.Htlc.{get_revokeable_redeemscript}
use rust_lightning.TransactionUtils.{sort_outputs}
use rust_lightning.TransactionUtils.Sorted.{sum_outputs, sum-sort_outputs}
use rust_lightning.Channel.Types.{InboundHtlcOutput, OutboundHtlcOutput}
use rust_lightning.Channel.State.{Channel}
use rust_lightning.Channel.Commitment.{inbound_included, outbound_included, commitment_values}
use rust_lightning.Channel.Commitment.Balance.{
  inbound_sum, outbound_sum, IsSolvent, to_self_msat, to_remote_msat, commitment_values_lem,
}
use rust_lightning.Channel.Transaction.{
  SourcedHtlc, TaggedOutput, included_inbound, included_outbound, included_htlcs, keep, has_output,
  tie_breaker, value_output, commitment_fee, htlc_output, unsorted_outputs, dust_limit,
  build_commitment_transaction,
}

abbrev pub sum_values : List TxOut → ℕ
sum_values [] = 0
sum_values (out ∷ outputs) = out.value + sum_values outputs

abbrev tagged_value : TaggedOutput → ℕ
tagged_value (out, _) = out.value

abbrev sum_tagged : List TaggedOutput → ℕ
sum_tagged [] = 0
sum_tagged (out ∷ outputs) = tagged_value out + sum_tagged outputs

abbrev sum_amounts : List SourcedHtlc → ℕ
sum_amounts [] = 0
sum_amounts ((htlc, _) ∷ htlcs) = htlc.amount_msat + sum_amounts htlcs

sum_values-map :
    (outputs : List TaggedOutput) → sum_values (map (λ out. out.0) outputs) ≡ sum_tagged outputs
sum_values-map [] = refl
sum_values-map (out ∷ outputs) = omega (arith, sum_values-map outputs)

sum_tagged-sort :
    (outputs : List TaggedOutput)
    → sum_tagged (sort_outputs tie_breaker outputs) ≡ sum_tagged outputs
sum_tagged-sort outputs =
    sym (as_weight (sort_outputs tie_breaker outputs))
    ∙ sum-sort_outputs tie_breaker tagged_value outputs
    ∙ as_weight outputs
  where
    as_weight :
        (outputs : List TaggedOutput)
        → sum_outputs tie_breaker tagged_value outputs ≡ sum_tagged outputs
    as_weight [] = refl
    as_weight (out ∷ outputs) = omega (arith, as_weight outputs)

sum_tagged-append :
    (xs ys : List TaggedOutput) → sum_tagged (xs ++ ys) ≡ sum_tagged xs + sum_tagged ys
sum_tagged-append [] ys = omega arith
sum_tagged-append (x ∷ xs) ys = omega (arith, sum_tagged-append xs ys)

sum_amounts-append :
    (xs ys : List SourcedHtlc) → sum_amounts (xs ++ ys) ≡ sum_amounts xs + sum_amounts ys
sum_amounts-append [] ys = omega arith
sum_amounts-append (x ∷ xs) ys = omega (arith, sum_amounts-append xs ys)

sum_amounts-inbound :
    (local g : Bool) (htlcs : List InboundHtlcOutput)
    → sum_amounts (included_inbound local g htlcs) ≡ inbound_sum (inbound_included g) htlcs
unfolding included_inbound
sum_amounts-inbound local g [] = refl
sum_amounts-inbound local g (htlc ∷ htlcs) = ground (arith, sum_amounts-inbound local g htlcs)

sum_amounts-outbound :
    (local g : Bool) (htlcs : List OutboundHtlcOutput)
    → sum_amounts (included_outbound local g htlcs) ≡ outbound_sum (outbound_included g) htlcs
unfolding included_outbound
sum_amounts-outbound local g [] = refl
sum_amounts-outbound local g (htlc ∷ htlcs) = ground (arith, sum_amounts-outbound local g htlcs)

-- An output is worth its HTLC, rounded down to a satoshi.
sum_tagged-keep :
    (x : Extern) (keys : TxCreationKeys) (test : SourcedHtlc → Bool) (htlcs : List SourcedHtlc)
    → sum_tagged (map (htlc_output x keys) (keep test htlcs)) * 1000 ≤ sum_amounts htlcs
unfolding htlc_output
sum_tagged-keep x keys test [] = omega arith
sum_tagged-keep x keys test ((htlc, source) ∷ htlcs) =
    ground (arith, sum_tagged-keep x keys test htlcs)

-- A balance below zero has no output, so paying the fee never adds value.
sum_tagged-value_output :
    (dust value : ℕ) (script : List ℕ)
    → dust < 2 ^ 63
    → value < 2 ^ 60
    → sum_tagged (value_output dust value script) ≤ value
unfolding value_output
sum_tagged-value_output dust value script hd hv = ground arith

sum_tagged-after_fee :
    (dust value feerate_per_kw htlcs : ℕ) (script : List ℕ)
    → dust < 2 ^ 63
    → value < 2 ^ 60
    → sum_tagged (value_output dust (sub64 value (commitment_fee feerate_per_kw htlcs)) script)
      ≤ value
unfolding value_output commitment_fee
sum_tagged-after_fee dust value feerate_per_kw htlcs script hd hv = ground arith

included_htlcs-sum :
    (c : Channel) (local g : Bool)
    → sum_amounts (included_htlcs c local g)
      ≡ inbound_sum (inbound_included g) c.pending_inbound_htlcs
        + outbound_sum (outbound_included g) c.pending_outbound_htlcs
unfolding included_htlcs
included_htlcs-sum c local g =
    sum_amounts-append (included_inbound local g c.pending_inbound_htlcs) _
    ∙ omega (
      arith,
      sum_amounts-inbound local g c.pending_inbound_htlcs,
      sum_amounts-outbound local g c.pending_outbound_htlcs,
    )

-- Whichever side pays the fee, and whosever transaction it is.
both_outputs-le :
    (local outbound : Bool) (dust to_self to_remote feerate_per_kw htlcs : ℕ)
    (first second : List ℕ)
    → dust < 2 ^ 63
    → to_self < 2 ^ 60
    → to_remote < 2 ^ 60
    → let fee = commitment_fee feerate_per_kw htlcs in
      let value_to_self = (if outbound then sub64 to_self fee else to_self) in
      let value_to_remote = (if outbound then to_remote else sub64 to_remote fee) in
      sum_tagged (value_output dust (if local then value_to_self else value_to_remote) first)
        + sum_tagged (value_output dust (if local then value_to_remote else value_to_self) second)
      ≤ to_self + to_remote
both_outputs-le local outbound dust to_self to_remote feerate_per_kw htlcs first second hd hs hr =
    ground (
      arith,
      sum_tagged-after_fee dust to_self feerate_per_kw htlcs first hd hs,
      sum_tagged-after_fee dust to_self feerate_per_kw htlcs second hd hs,
      sum_tagged-after_fee dust to_remote feerate_per_kw htlcs first hd hr,
      sum_tagged-after_fee dust to_remote feerate_per_kw htlcs second hd hr,
      sum_tagged-value_output dust to_self first hd hs,
      sum_tagged-value_output dust to_self second hd hs,
      sum_tagged-value_output dust to_remote first hd hr,
      sum_tagged-value_output dust to_remote second hd hr,
    )

module _ (x : Extern) (c : Channel) (keys : TxCreationKeys) (local g : Bool)
    (feerate_per_kw : ℕ) where
  unsorted_outputs-le :
      (to_self to_remote : ℕ)
      → dust_limit c local < 2 ^ 63
      → to_self < 2 ^ 60
      → to_remote < 2 ^ 60
      → sum_tagged (unsorted_outputs x c keys local g feerate_per_kw (to_self, to_remote)) * 1000
        ≤ inbound_sum (inbound_included g) c.pending_inbound_htlcs
          + outbound_sum (outbound_included g) c.pending_outbound_htlcs
          + to_self
          + to_remote
  unfolding unsorted_outputs
  unsorted_outputs-le to_self to_remote hd hs hr =
      let test : SourcedHtlc → Bool = has_output (dust_limit c local) feerate_per_kw in
      let htlcs : List SourcedHtlc = keep test (included_htlcs c local g) in
      let to_local : List ℕ = x.to_v0_p2wsh (
        get_revokeable_redeemscript x keys.revocation_key
          (if local then c.their_to_self_delay else c.our_to_self_delay)
          keys.a_delayed_payment_key) in
      rw
        (
          sum_tagged-append (map (htlc_output x keys) htlcs) _,
          sum_tagged-append (value_output _ _ _) _,
        )
        (omega (
          arith,
          included_htlcs-sum c local g,
          sum_tagged-keep x keys test (included_htlcs c local g),
          both_outputs-le local c.channel_outbound (dust_limit c local) (to_self / 1000)
              (to_remote / 1000) feerate_per_kw (length htlcs) to_local
              (x.p2wpkh keys.b_payment_key) hd (omega arith) (omega arith),
        ))

  built_outputs :
      (number n : ℕ) (tx : Transaction) (htlcs : List SourcedHtlc) (values : ℕ × ℕ)
      → commitment_values g c ≡ some values
      → build_commitment_transaction x c number keys local g feerate_per_kw ≡ some (tx, n, htlcs)
      → tx.output
        ≡ map
            (λ out. out.0)
            (sort_outputs tie_breaker (unsorted_outputs x c keys local g feerate_per_kw values))
  unfolding build_commitment_transaction
  built_outputs number n tx htlcs values v e = ground arith

  -- A commitment transaction of a solvent channel whose dust limit is below 2 ^ 63 never spends more
  -- than the channel holds: the outputs, in satoshis, add up to at most the channel's value, whichever
  -- side built it, whosever it is, and also where the funder cannot pay the fee.
  pub build_commitment_transaction-le :
      (number n : ℕ) (tx : Transaction) (htlcs : List SourcedHtlc)
      → IsSolvent g c
      → dust_limit c local < 2 ^ 63
      → build_commitment_transaction x c number keys local g feerate_per_kw ≡ some (tx, n, htlcs)
      → sum_values tx.output ≤ c.channel_value_satoshis
  build_commitment_transaction-le number n tx htlcs s hd e =
      let total = unsorted_outputs-le (to_self_msat g c) (to_remote_msat g c) hd in
      rw
        (
          built_outputs number n tx htlcs _ (commitment_values_lem g c s) e,
          sum_values-map,
          sum_tagged-sort,
        )
        (omega (arith, total (omega arith) (omega arith)))
