-- ===== src/Channel/Closing/Values.antt =====
-- What the closing transaction pays.
use Prim.Native.Nat.{Ordering}
use rust_lightning.Prelude.{
  ℕ, ◌+◌, ◌-◌, ◌*◌, ◌/◌, ◌^◌, ◌≤◌, ◌<◌, ◌≡◌, refl, ◌∙◌, Bool, true, false, some, List, [], ◌∷◌, map,
  arith, if◌then◌else◌, Option-cases, inl, inr,
}
use rust_lightning.Bitcoin.{Extern, TxOut, Transaction}
use rust_lightning.TransactionUtils.{sort_outputs}
use rust_lightning.TransactionUtils.Sorted.{sum_outputs, sum-sort_outputs}
use rust_lightning.Channel.State.{Channel}
use rust_lightning.Channel.Transaction.Outputs.{sum_values}
use rust_lightning.Channel.Closing.{
  closing_output, closing_value_to_self, closing_value_to_remote, adjusted_fee, closing_outputs,
  build_closing_transaction,
}

abbrev unit_value : TxOut × Unit {0} → ℕ
unit_value (out, _) = out.value

abbrev sum_unsorted : List (TxOut × Unit {0}) → ℕ
sum_unsorted [] = 0
sum_unsorted (out ∷ outputs) = unit_value out + sum_unsorted outputs

sum_values-sorted :
    (outputs : List (TxOut × Unit {0}))
    → sum_values (map (λ out. out.0) (sort_outputs (λ _ _. Ordering.eq) outputs))
      ≡ sum_unsorted outputs
sum_values-sorted outputs =
    as_map (sort_outputs (λ _ _. Ordering.eq) outputs)
    ∙ sum-sort_outputs (λ _ _. Ordering.eq) unit_value outputs
    ∙ as_weight outputs
  where
    as_map :
        (outputs : List (TxOut × Unit {0}))
        → sum_values (map (λ out. out.0) outputs)
          ≡ sum_outputs (λ _ _. Ordering.eq) unit_value outputs
    as_map [] = refl
    as_map (out ∷ outputs) = omega (arith, as_map outputs)

    as_weight :
        (outputs : List (TxOut × Unit {0}))
        → sum_outputs (λ _ _. Ordering.eq) unit_value outputs ≡ sum_unsorted outputs
    as_weight [] = refl
    as_weight (out ∷ outputs) = omega (arith, as_weight outputs)

-- The channel's values are in range.
pub record HasClosingValues (c : Channel) : Type 0 where
  pub value_fits : c.channel_value_satoshis ≤ 2 ^ 24
  pub self_fits : c.value_to_self_msat ≤ c.channel_value_satoshis * 1000

-- The whole satoshis of the side that pays the fee.
abbrev pub funder_satoshis : Channel → ℕ
funder_satoshis c =
    if c.channel_outbound
    then c.value_to_self_msat / 1000
    else (c.channel_value_satoshis * 1000 - c.value_to_self_msat) / 1000

module _ (x : Extern) where
  closing_outputs-le :
      (c : Channel) (skip : Bool) (fee : ℕ) (outputs : List (TxOut × Unit {0}))
      → HasClosingValues c
      → fee ≤ funder_satoshis c
      → closing_outputs x c skip (closing_value_to_self c fee) (closing_value_to_remote c fee)
        ≡ some outputs
      → sum_unsorted outputs + fee ≤ c.channel_value_satoshis
  unfolding closing_outputs closing_value_to_self closing_value_to_remote closing_output
  closing_outputs-le c skip fee outputs v h e = ground arith

  pub built_closing :
      (c : Channel) (skip : Bool) (fee fee' : ℕ) (tx : Transaction)
      → build_closing_transaction x c fee skip ≡ some (tx, fee')
      → (adjusted_fee c (closing_value_to_self c fee) (closing_value_to_remote c fee) fee
          ≡ some fee')
        × ((outputs : List (TxOut × Unit {0})) × (closing_outputs x c skip
                (closing_value_to_self c fee)
                (closing_value_to_remote c fee)
              ≡ some outputs)
            × (sum_values tx.output ≡ sum_unsorted outputs))
  unfolding build_closing_transaction
  built_closing c skip fee fee' tx e =
      let found =
        closing_outputs x c skip (closing_value_to_self c fee) (closing_value_to_remote c fee) in
      elim (Option-cases found) [
        | inl missing ↦ ground arith
        | inr (outputs, is) ↦
            (ground arith, (outputs, is, ground (arith, sum_values-sorted outputs)))
      ]

  -- A fee that its side can pay is not adjusted, and the outputs leave room for it.
  pub build_closing_transaction-le :
      (c : Channel) (skip : Bool) (fee fee' : ℕ) (tx : Transaction)
      → HasClosingValues c
      → fee ≤ funder_satoshis c
      → build_closing_transaction x c fee skip ≡ some (tx, fee')
      → (fee' ≡ fee) × (sum_values tx.output + fee ≤ c.channel_value_satoshis)
  unfolding adjusted_fee closing_value_to_self closing_value_to_remote
  build_closing_transaction-le c skip fee fee' tx v h e =
      let (adjusted, (outputs, is, sum)) = built_closing c skip fee fee' tx e in
      (ground arith, omega (arith, closing_outputs-le c skip fee outputs v h is))

  closing_outputs-whole :
      (c : Channel) (fee : ℕ) (outputs : List (TxOut × Unit {0}))
      → HasClosingValues c
      → fee ≤ funder_satoshis c
      → closing_outputs x c false (closing_value_to_self c fee) (closing_value_to_remote c fee)
        ≡ some outputs
      → c.channel_value_satoshis ≤ sum_unsorted outputs + fee + 2 * c.our_dust_limit_satoshis + 1
  unfolding closing_outputs closing_value_to_self closing_value_to_remote closing_output
  closing_outputs-whole c fee outputs v h e = ground arith

  -- In a channel of at most 2 ^ 24 satoshis that contains our balance, where the side that pays can pay
  -- the proposed fee, a closing transaction with the peer's output is built for that fee. Its outputs
  -- and the fee together are at most the channel's value, and what they fall short of it, so that it
  -- goes to the miners too, is at most our dust limit for each side and one satoshi.
  pub build_closing_transaction-pays :
      (c : Channel) (fee fee' : ℕ) (tx : Transaction)
      → HasClosingValues c
      → fee ≤ funder_satoshis c
      → build_closing_transaction x c fee false ≡ some (tx, fee')
      → (fee' ≡ fee)
        × (sum_values tx.output + fee ≤ c.channel_value_satoshis)
        × (c.channel_value_satoshis
            ≤ sum_values tx.output + fee + 2 * c.our_dust_limit_satoshis + 1)
  build_closing_transaction-pays c fee fee' tx v h e =
      let (same, most) = build_closing_transaction-le c false fee fee' tx v h e in
      let (_, (outputs, is, sum)) = built_closing c false fee fee' tx e in
      (same, most, omega (arith, closing_outputs-whole c fee outputs v h is))

  -- In a channel of at most 2 ^ 24 satoshis that contains our balance, where we fund the channel and own
  -- less than the fee, and the fee and our dust limit are below 2 ^ 62, a closing transaction that is
  -- built has outputs of more than the channel holds: our negative balance is cast to u64.
  pub build_closing_transaction-overspends :
      (c : Channel) (skip : Bool) (fee fee' : ℕ) (tx : Transaction)
      → HasClosingValues c
      → c.channel_outbound ≡ true
      → c.value_to_self_msat / 1000 < fee
      → fee < 2 ^ 62
      → c.our_dust_limit_satoshis < 2 ^ 62
      → build_closing_transaction x c fee skip ≡ some (tx, fee')
      → c.channel_value_satoshis < sum_values tx.output
  unfolding closing_outputs closing_value_to_self closing_value_to_remote closing_output
  build_closing_transaction-overspends c skip fee fee' tx v funder short small dust e =
      let (adjusted, (outputs, is, sum)) = built_closing c skip fee fee' tx e in ground arith
