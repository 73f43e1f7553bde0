-- ===== src/Channel/Closing/Agreed.antt =====
-- What the closing transaction pays that both sides have signed.
use rust_lightning.Prelude.{
  ℕ, ◌+◌, ◌^◌, ◌≤◌, ◌<◌, ◌≡◌, Bool, true, false, Option, none, some, List, arith, inl, inr,
  Option-cases,
}
use rust_lightning.Bitcoin.{Extern, Transaction, TxOut}
use rust_lightning.Msgs.{ClosingSigned}
use rust_lightning.Channel.State.{Channel, Services, done}
use rust_lightning.Channel.Outcomes.{Gives, bind-done}
use rust_lightning.Channel.Transaction.Outputs.{sum_values}
use rust_lightning.Channel.Closing.{
  closing_value_to_self, closing_value_to_remote, adjusted_fee, build_closing_transaction,
}
use rust_lightning.Channel.Closing.Values.{
  HasClosingValues, funder_satoshis, built_closing, build_closing_transaction-le,
}
use rust_lightning.Channel.Closing.Message.{
  build_signed_closing_transaction, check_closing_signed, counter_feerate, propose_new_feerate,
  agreed_signature, close_with, answer_closing, closing_signed,
}

-- A fee that is not adjusted is one that its side can pay.
adjusted_fee-same :
    (c : Channel) (fee : ℕ)
    → HasClosingValues c
    → fee < 2 ^ 62
    → adjusted_fee c (closing_value_to_self c fee) (closing_value_to_remote c fee) fee ≡ some fee
    → fee ≤ funder_satoshis c
unfolding adjusted_fee closing_value_to_self closing_value_to_remote
adjusted_fee-same c fee v small e = ground arith

abbrev HasOutputs : List TxOut → Option Transaction → Type 0
HasOutputs outputs none = Unit
HasOutputs outputs (some tx) = tx.output ≡ outputs

-- The outputs and the fee are within the channel.
abbrev pub IsPaid : Channel → ℕ → Transaction → Type 0
IsPaid c fee tx = sum_values tx.output + fee ≤ c.channel_value_satoshis

module _ (x : Extern) where
  build_closing_transaction-IsPaid :
      (c : Channel) (skip : Bool) (fee : ℕ) (tx : Transaction)
      → HasClosingValues c
      → fee < 2 ^ 62
      → build_closing_transaction x c fee skip ≡ some (tx, fee)
      → IsPaid c fee tx
  build_closing_transaction-IsPaid c skip fee tx v small e =
      let (adjusted, _) = built_closing x c skip fee fee tx e in
      (build_closing_transaction-le x c skip fee fee tx v (adjusted_fee-same c fee v small adjusted)
        e).1

  build_closing_transaction-fee :
      (c : Channel) (skip : Bool) (fee fee' used : ℕ) (tx tx' : Transaction)
      → build_closing_transaction x c fee false ≡ some (tx, used)
      → build_closing_transaction x c fee skip ≡ some (tx', fee')
      → fee' ≡ used
  build_closing_transaction-fee c skip fee fee' used tx tx' e e' =
      let (a, _) = built_closing x c false fee used tx e in
      let (b, _) = built_closing x c skip fee fee' tx' e' in cc

  check_closing_signed-IsPaid :
      (msg : ClosingSigned) (c : Channel)
      → HasClosingValues c
      → Gives (λ tx c'. IsPaid c msg.fee_satoshis tx × (c' ≡ c)) (check_closing_signed x msg c)
  unfolding check_closing_signed
  check_closing_signed-IsPaid msg c v =
      let fee = msg.fee_satoshis in
      let first = build_closing_transaction x c fee false in
      let second = build_closing_transaction x c fee true in
      elim (Option-cases first) [
        | inl missing ↦ ground arith
        | inr ((tx, used), e) ↦ elim (Option-cases second) [
          | inl missing ↦ ground (arith, build_closing_transaction-IsPaid c false fee tx v)
          | inr ((tx', used'), e') ↦ ground (
            arith,
            build_closing_transaction-IsPaid c false fee tx v,
            build_closing_transaction-IsPaid c true fee tx' v,
            build_closing_transaction-fee c true fee used' used tx tx' e e',
          )
        ]
      ]

  signed_outputs :
      (c : Channel) (tx tx' : Transaction) (their_sig our_sig : ℕ)
      → build_signed_closing_transaction x c tx their_sig our_sig ≡ some tx'
      → tx'.output ≡ tx.output
  unfolding build_signed_closing_transaction
  signed_outputs c tx tx' their_sig our_sig e = ground arith

  module _ (services : Services) where
    close_with-outputs :
        (closing_tx : Transaction) (msg : ClosingSigned) (sig : ℕ) (answers : Bool) (c : Channel)
        → Gives
            (λ r _. HasOutputs closing_tx.output r.1)
            (close_with x services closing_tx msg sig answers c)
    close_with-outputs closing_tx msg sig answers c =
        elim (Option-cases (build_signed_closing_transaction x c closing_tx msg.signature sig)) [
          | inl missing ↦ ground arith
          | inr (tx, e) ↦ ground (arith, signed_outputs c closing_tx tx msg.signature sig e)
        ]

    answer_closing-outputs :
        (closing_tx : Transaction) (msg : ClosingSigned) (c : Channel)
        → Gives
            (λ r _. HasOutputs closing_tx.output r.1)
            (answer_closing x services closing_tx msg c)
    unfolding answer_closing counter_feerate propose_new_feerate
    answer_closing-outputs closing_tx msg c =
        elim (Option-cases (agreed_signature c msg.fee_satoshis)) [
          | inl missing ↦ elim (Option-cases (services.sign_closing_transaction closing_tx)) [
            | inl unsigned ↦ ground arith
            | inr (sig, e) ↦ ground (arith, close_with-outputs closing_tx msg sig true c)
          ]
          | inr (sig, e) ↦ ground (arith, close_with-outputs closing_tx msg sig false c)
        ]

    -- The transaction that `closing_signed` gives out to be broadcast pays at least the fee of the
    -- message: that fee and its outputs are together at most the channel's value. The channel must
    -- have at most 2 ^ 24 satoshis, and our balance must be within it; nothing is asked of the fee,
    -- nor that the side that pays can afford it.
    pub closing_signed-IsPaid :
        (msg : ClosingSigned) (c c' : Channel) (answer : Option ClosingSigned) (tx : Transaction)
        → HasClosingValues c
        → closing_signed x services msg c ≡ done (answer, some tx) c'
        → IsPaid c msg.fee_satoshis tx
    unfolding closing_signed
    closing_signed-IsPaid msg c c' answer tx v e =
        let (closing_tx, c1, checked, answered) =
          bind-done (check_closing_signed x msg) (λ t. answer_closing x services t msg) c c'
            (answer, some tx) e in
        ground
          (arith, check_closing_signed-IsPaid msg c v, answer_closing-outputs closing_tx msg c1)
