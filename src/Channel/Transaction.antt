-- ===== src/Channel/Transaction.antt =====
-- lightning/src/ln/channel.rs: the outputs of `build_commitment_transaction`, over the values of
-- `Channel.Commitment`. Logging has no effect, and the running maxima of debug builds are left out.
pub mod Outputs
use Prim.Native.Nat.{compare, Ordering, bit_xor, bit_or}
use rust_lightning.Prelude.{
  ℕ, ◌+◌, ◌-◌, ◌*◌, ◌/◌, ◌%◌, ◌^◌, Bool, true, false, not, Option, none, some, List, [], ◌∷◌, ◌++◌,
  map, leb, if◌then◌else◌, drop, get_or, length, add64, sub64, mul64, le_i64,
}
use rust_lightning.Bitcoin.{Extern, TxOut, TxIn, Transaction, OutPoint}
use rust_lightning.ChanUtils.Keys.{TxCreationKeys, ChannelPublicKeys}
use rust_lightning.ChanUtils.Htlc.{
  HtlcOutputInCommitment, htlc_success_tx_weight, htlc_timeout_tx_weight, get_htlc_redeemscript,
  get_revokeable_redeemscript,
}
use rust_lightning.TransactionUtils.{sort_outputs, then_with}
use rust_lightning.Channel.Types.{HtlcSource, InboundHtlcOutput, OutboundHtlcOutput}
use rust_lightning.Channel.State.{
  Channel, initial_commitment_number, commitment_tx_base_weight, commitment_tx_weight_per_htlc,
}
use rust_lightning.Channel.Commitment.{inbound_included, outbound_included, commitment_values}

abbrev pub SourcedHtlc : Type 0
SourcedHtlc = HtlcOutputInCommitment × Option HtlcSource

abbrev pub TaggedOutput : Type 0
TaggedOutput = TxOut × Option SourcedHtlc

-- The HTLCs of the transaction, as the two loops meet them. One is offered if it goes out of the
-- side whose transaction this is (`local`: ours).
unfoldable pub included_inbound : Bool → Bool → List InboundHtlcOutput → List SourcedHtlc
included_inbound local generated_by_local [] = []
included_inbound local generated_by_local (htlc ∷ htlcs) =
    let rest = included_inbound local generated_by_local htlcs in
    if inbound_included generated_by_local htlc.state
    then (
      record {
        offered = not local;
        amount_msat = htlc.amount_msat;
        cltv_expiry = htlc.cltv_expiry;
        payment_hash = htlc.payment_hash;
        transaction_output_index = none;
      },
      none,
    )
      ∷ rest
    else rest

unfoldable pub included_outbound : Bool → Bool → List OutboundHtlcOutput → List SourcedHtlc
included_outbound local generated_by_local [] = []
included_outbound local generated_by_local (htlc ∷ htlcs) =
    let rest = included_outbound local generated_by_local htlcs in
    if outbound_included generated_by_local htlc.state
    then (
      record {
        offered = local;
        amount_msat = htlc.amount_msat;
        cltv_expiry = htlc.cltv_expiry;
        payment_hash = htlc.payment_hash;
        transaction_output_index = none;
      },
      some htlc.source,
    )
      ∷ rest
    else rest

-- Whether the HTLC is worth an output of its own at this fee.
unfoldable pub has_output : ℕ → ℕ → SourcedHtlc → Bool
has_output dust_limit_satoshis feerate_per_kw (htlc, source) =
    let weight = (if htlc.offered then htlc_timeout_tx_weight else htlc_success_tx_weight) in
    leb (add64 dust_limit_satoshis (mul64 feerate_per_kw weight / 1000)) (htlc.amount_msat / 1000)

-- The two lists that the loops fill: `txouts` and `included_dust_htlcs`.
abbrev pub keep {ℓ} : {A : Type ℓ} → (A → Bool) → List A → List A
keep test [] = []
keep test (a ∷ rest) = if test a then a ∷ keep test rest else keep test rest

abbrev pub tie_breaker : Option SourcedHtlc → Option SourcedHtlc → Ordering
tie_breaker (some (a, _)) (some (b, _)) =
    then_with (compare a.cltv_expiry b.cltv_expiry) (compare a.payment_hash b.payment_hash)
tie_breaker (some _) none = Ordering.eq
tie_breaker none _ = Ordering.eq

-- The last loop: the outputs, and the HTLCs that have one, each with its index.
unfoldable pub indexed_htlcs : ℕ → List TaggedOutput → List SourcedHtlc
indexed_htlcs idx [] = []
indexed_htlcs idx ((_, none) ∷ txouts) = indexed_htlcs (idx + 1) txouts
indexed_htlcs idx ((_, some (htlc, source)) ∷ txouts) =
    (record htlc { transaction_output_index = some idx }, source) ∷ indexed_htlcs (idx + 1) txouts

-- `if value >= dust_limit_satoshis as i64 { txouts.push(..) }`
unfoldable pub value_output : ℕ → ℕ → List ℕ → List TaggedOutput
value_output dust_limit_satoshis value script_pubkey =
    if le_i64 dust_limit_satoshis value
    then (record { value = value; script_pubkey = script_pubkey }, none) ∷ []
    else []

-- `feerate_per_kw * (BASE + htlcs * PER_HTLC) / 1000`
unfoldable pub commitment_fee : ℕ → ℕ → ℕ
commitment_fee feerate_per_kw htlcs =
    mul64 feerate_per_kw
      (add64 commitment_tx_base_weight (mul64 htlcs commitment_tx_weight_per_htlc))
    / 1000

abbrev pub dust_limit : Channel → Bool → ℕ
dust_limit c local = if local then c.our_dust_limit_satoshis else c.their_dust_limit_satoshis

unfoldable pub included_htlcs : Channel → Bool → Bool → List SourcedHtlc
included_htlcs c local generated_by_local =
    included_inbound local generated_by_local c.pending_inbound_htlcs
    ++ included_outbound local generated_by_local c.pending_outbound_htlcs

module _ (x : Extern) where
  open x use {sha256, serialize, to_v0_p2wsh, p2wpkh}

  -- `none` stands for the unwrap of a peer's keys that are not there yet.
  unfoldable pub get_commitment_transaction_number_obscure_factor : Channel → Option ℕ
  get_commitment_transaction_number_obscure_factor c = elim c.their_pubkeys [
    | none ↦ none
    | some theirs ↦
        let our_payment_basepoint = serialize c.our_pubkeys.payment_basepoint in
        let their_payment_basepoint = serialize theirs.payment_basepoint in
        let res = sha256 (
          if c.channel_outbound
          then our_payment_basepoint ++ their_payment_basepoint
          else their_payment_basepoint ++ our_payment_basepoint) in
        some (
          get_or res 26 0 * 2 ^ 40
          + get_or res 27 0 * 2 ^ 32
          + get_or res 28 0 * 2 ^ 24
          + get_or res 29 0 * 2 ^ 16
          + get_or res 30 0 * 2 ^ 8
          + get_or res 31 0)
  ]

  unfoldable pub htlc_output : TxCreationKeys → SourcedHtlc → TaggedOutput
  htlc_output keys (htlc, source) = (
    record {
      value = htlc.amount_msat / 1000;
      script_pubkey = to_v0_p2wsh (get_htlc_redeemscript x htlc keys);
    },
    some (htlc, source),
  )

  module _ (c : Channel) (keys : TxCreationKeys) (local generated_by_local : Bool)
      (feerate_per_kw : ℕ) where
    -- The outputs before they are sorted: HTLCs, then ours or the peer's by whose transaction it is.
    unfoldable pub unsorted_outputs : ℕ × ℕ → List TaggedOutput
    unsorted_outputs (value_to_self_msat, value_to_remote_msat) =
        let dust = dust_limit c local in
        let htlcs =
          keep (has_output dust feerate_per_kw) (included_htlcs c local generated_by_local) in
        let total_fee = commitment_fee feerate_per_kw (length htlcs) in
        let value_to_self =
          (if c.channel_outbound
            then sub64 (value_to_self_msat / 1000) total_fee
            else value_to_self_msat / 1000) in
        let value_to_remote =
          (if c.channel_outbound
            then value_to_remote_msat / 1000
            else sub64 (value_to_remote_msat / 1000) total_fee) in
        let value_to_a = (if local then value_to_self else value_to_remote) in
        let value_to_b = (if local then value_to_remote else value_to_self) in
        map (htlc_output keys) htlcs
        ++ (value_output dust value_to_a (
              to_v0_p2wsh (
                get_revokeable_redeemscript x keys.revocation_key
                  (if local then c.their_to_self_delay else c.our_to_self_delay)
                  keys.a_delayed_payment_key))
            ++ value_output dust value_to_b (p2wpkh keys.b_payment_key))

  -- The transaction, the number of its HTLC outputs, and the HTLCs, those with an output first.
  -- `none`: an unwrap or an assertion failed.
  unfoldable pub build_commitment_transaction :
      Channel → ℕ → TxCreationKeys → Bool → Bool → ℕ → Option (Transaction × ℕ × List SourcedHtlc)
  unfolding unsorted_outputs
  build_commitment_transaction c commitment_number keys local generated_by_local feerate_per_kw =
      elim (get_commitment_transaction_number_obscure_factor c) [
        | none ↦ none
        | some factor ↦ elim c.funding_txo [
          | none ↦ none
          | some funding_txo ↦ elim (commitment_values generated_by_local c) [
            | none ↦ none
            | some values ↦
                let obscured = bit_xor factor (sub64 initial_commitment_number commitment_number) in
                let dust =
                  keep (λ htlc. not (has_output (dust_limit c local) feerate_per_kw htlc))
                    (included_htlcs c local generated_by_local) in
                let txouts =
                  sort_outputs tie_breaker
                    (unsorted_outputs c keys local generated_by_local feerate_per_kw values) in
                let htlcs_included = indexed_htlcs 0 txouts in
                some (
                  record {
                    version = 2;
                    lock_time = bit_or (0x20 * 2 ^ 24) (obscured % 2 ^ 24);
                    input =
                        record {
                          previous_output = funding_txo;
                          sequence = bit_or (0x80 * 2 ^ 24) (obscured / 2 ^ 24 % 2 ^ 32);
                          witness = [];
                        }
                        ∷ [];
                    output = map (λ out. out.0) txouts;
                  },
                  length htlcs_included,
                  htlcs_included ++ dust,
                )
          ]
        ]
      ]
