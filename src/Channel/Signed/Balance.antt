-- ===== src/Channel/Signed/Balance.antt =====
-- A commitment_signed of the peer keeps the invariant of the balances.
use rust_lightning.Prelude.{
  ℕ, ◌+◌, ◌≤◌, ◌≡◌, refl, true, false, some, List, [], ◌∷◌, arith, inl, inr, Option-cases,
}
use rust_lightning.Bitcoin.{Extern}
use rust_lightning.Msgs.{CommitmentSigned}
use rust_lightning.ChanUtils.Keys.{TxCreationKeys, ChannelPublicKeys}
use rust_lightning.Channel.Types.{InboundHtlcOutput, OutboundHtlcOutput}
use rust_lightning.Channel.State.{
  Channel, ChannelMonitorUpdate, Outcome, done, failed, panicked, Leaves,
}
use rust_lightning.Channel.Transaction.{SourcedHtlc, build_commitment_transaction}
use rust_lightning.Channel.Commitment.Balance.{inbound_sum, outbound_sum}
use rust_lightning.Channel.Safe.{IsSafeChannel, every_inbound, every_outbound, is_locked, is_paid}
use rust_lightning.Channel.Add.{is_removed_fulfilled}
use rust_lightning.Channel.Commit.{build_local_commitment_secret, build_local_transaction_keys}
use rust_lightning.Channel.Signed.{
  SignedError, no_update, local_feerate, sign_inbound, sign_outbound, accept_fee, accept_signature,
}
use rust_lightning.Channel.Signed.Message.{check_htlc, check_htlcs, check_signatures}

sign_inbound-sum :
    (htlcs : List InboundHtlcOutput)
    → inbound_sum every_inbound (sign_inbound htlcs).0 ≡ inbound_sum every_inbound htlcs
unfolding sign_inbound
sign_inbound-sum [] = refl
sign_inbound-sum (htlc ∷ htlcs) = ground (arith, sign_inbound-sum htlcs)

sign_inbound-locked :
    (htlcs : List InboundHtlcOutput)
    → inbound_sum is_locked (sign_inbound htlcs).0 ≡ inbound_sum is_locked htlcs
unfolding sign_inbound
sign_inbound-locked [] = refl
sign_inbound-locked (htlc ∷ htlcs) = ground (arith, sign_inbound-locked htlcs)

pub sign_outbound-sum :
    (htlcs : List OutboundHtlcOutput)
    → outbound_sum every_outbound (sign_outbound htlcs).0 ≡ outbound_sum every_outbound htlcs
unfolding sign_outbound
sign_outbound-sum [] = refl
sign_outbound-sum (htlc ∷ htlcs) = ground (arith, sign_outbound-sum htlcs)

sign_outbound-paid :
    (htlcs : List OutboundHtlcOutput)
    → outbound_sum is_paid (sign_outbound htlcs).0 ≡ outbound_sum is_paid htlcs
unfolding sign_outbound
sign_outbound-paid [] = refl
sign_outbound-paid (htlc ∷ htlcs) = ground (arith, sign_outbound-paid htlcs)

sign_outbound-removed :
    (htlcs : List OutboundHtlcOutput)
    → outbound_sum is_removed_fulfilled htlcs
      ≤ outbound_sum is_removed_fulfilled (sign_outbound htlcs).0
unfolding sign_outbound
sign_outbound-removed [] = omega arith
sign_outbound-removed (htlc ∷ htlcs) = ground (arith, sign_outbound-removed htlcs)

pub accept_signature-IsSafe :
    (update : ChannelMonitorUpdate) (c : Channel)
    → IsSafeChannel c
    → IsSafeChannel (accept_signature update c).0
unfolding accept_signature accept_fee
accept_signature-IsSafe update c s = ground (
  arith,
  sign_inbound-sum c.pending_inbound_htlcs,
  sign_inbound-locked c.pending_inbound_htlcs,
  sign_outbound-sum c.pending_outbound_htlcs,
  sign_outbound-paid c.pending_outbound_htlcs,
  sign_outbound-removed c.pending_outbound_htlcs,
)

-- The checks change nothing.
abbrev pub Keeps {ℓ κ} : {E : Type ℓ} {A : Type κ} → Channel → Outcome E A → Type 0
Keeps c o = Leaves (λ c'. c' ≡ c) o

module _ (x : Extern) where
  check_htlc-Keeps :
      (keys : TxCreationKeys) (txid feerate delay : ℕ) (sigs : List ℕ) (idx : ℕ)
      (htlc : SourcedHtlc) (c : Channel)
      → Keeps c (check_htlc x keys txid feerate delay sigs idx htlc c)
  unfolding check_htlc
  check_htlc-Keeps keys txid feerate delay sigs idx (htlc, source) c = ground arith

  check_htlcs-Keeps :
      (keys : TxCreationKeys) (txid feerate delay : ℕ) (sigs : List ℕ) (idx : ℕ)
      (htlcs : List SourcedHtlc) (c : Channel)
      → Keeps c (check_htlcs x keys txid feerate delay sigs idx htlcs c)
  unfolding check_htlcs
  check_htlcs-Keeps keys txid feerate delay sigs idx [] c = refl
  check_htlcs-Keeps keys txid feerate delay sigs idx (htlc ∷ htlcs) c = ground (
    arith,
    check_htlc-Keeps keys txid feerate delay sigs idx htlc c,
    check_htlcs-Keeps keys txid feerate delay sigs (idx + 1) htlcs c,
  )

  local_keys-Keeps :
      (number : ℕ) (c : Channel) → Keeps c (no_update (build_local_transaction_keys x number) c)
  unfolding build_local_transaction_keys build_local_commitment_secret
  local_keys-Keeps number c = ground arith

  pub check_signatures-Keeps :
      (msg : CommitmentSigned) (c : Channel) → Keeps c (check_signatures x msg c)
  unfolding check_signatures
  check_signatures-Keeps msg c = elim (Option-cases c.their_pubkeys) [
    | inl e ↦ ground arith
    | inr (theirs, e) ↦
        go theirs e (no_update (build_local_transaction_keys x number) c) refl
          (local_keys-Keeps number c)
  ]
    where
      number : ℕ
      number = c.cur_local_commitment_transaction_number

      go :
          (theirs : ChannelPublicKeys)
          → c.their_pubkeys ≡ some theirs
          → (o : Outcome SignedError TxCreationKeys)
          → no_update (build_local_transaction_keys x number) c ≡ o
          → Keeps c o
          → Keeps c (check_signatures x msg c)
      go theirs e panicked e1 same = ground arith
      go theirs e (failed r c1) e1 same = ground arith
      go theirs e (done keys c1) e1 same =
          let built = build_commitment_transaction x c number keys true false (local_feerate c) in
          elim (Option-cases built) [
            | inl e2 ↦ ground arith
            | inr ((tx, num_htlcs, htlcs), e2) ↦ ground (
              arith,
              check_htlcs-Keeps keys (x.tx_id tx) (local_feerate c) c.their_to_self_delay
                  msg.htlc_signatures 0 htlcs c,
            )
          ]
