-- ===== src/Channel/Commit/Signable.antt =====
-- The commitment transaction of a safe channel can be made and signed.
use rust_lightning.Prelude.{ℕ, ◌≡◌, true, false, is_some, List, arith}
use rust_lightning.Bitcoin.{Extern, Transaction}
use rust_lightning.ChanUtils.Keys.{
  TxCreationKeys, derive_public_key, derive_public_revocation_key, new_tx_creation_keys,
}
use rust_lightning.ChanUtils.Htlc.{HtlcOutputInCommitment}
use rust_lightning.Channel.State.{Channel, Services}
use rust_lightning.Channel.Outcomes.{Succeeds, Succeeds-same}
use rust_lightning.Channel.Safe.{IsSafeChannel, IsSafe-commitment_values}
use rust_lightning.Channel.Transaction.{
  get_commitment_transaction_number_obscure_factor, build_commitment_transaction,
}
use rust_lightning.Channel.Commit.{
  commitment_feerate, build_remote_transaction_keys, send_commitment_no_state_update,
}

-- What goes wrong in secp256k1 only with negligible probability does not, and the signer signs.
pub record Signs (x : Extern) (services : Services) : Type 0 where
  pub secret_key : (bytes : List ℕ) → x.is_secret_key bytes ≡ true
  pub combine : (a b : ℕ) → is_some (x.combine a b) ≡ true
  pub mul_assign : (a : ℕ) (bytes : List ℕ) → is_some (x.mul_assign a bytes) ≡ true
  pub sign :
      (feerate : ℕ) (tx : Transaction) (keys : TxCreationKeys) (htlcs : List HtlcOutputInCommitment)
      (delay : ℕ)
      → is_some (services.sign_remote_commitment feerate tx keys htlcs delay) ≡ true

-- The channel has what its transactions are made of.
pub record IsFunded (c : Channel) : Type 0 where
  pub pubkeys : is_some c.their_pubkeys ≡ true
  pub point : is_some c.their_cur_commitment_point ≡ true
  pub txo : is_some c.funding_txo ≡ true

module _ (x : Extern) (services : Services) (signs : Signs x services) where
  derive_public_key-is_some : (point base : ℕ) → is_some (derive_public_key x point base) ≡ true
  unfolding derive_public_key
  derive_public_key-is_some point base = grind (arith, signs.secret_key, signs.combine)

  revocation_key-is_some :
      (point base : ℕ) → is_some (derive_public_revocation_key x point base) ≡ true
  unfolding derive_public_revocation_key
  revocation_key-is_some point base = grind (arith, signs.mul_assign, signs.combine)

  tx_creation_keys-is_some :
      (point a b d e f : ℕ) → is_some (new_tx_creation_keys x point a b d e f) ≡ true
  unfolding new_tx_creation_keys
  tx_creation_keys-is_some point a b d e f =
      grind (arith, derive_public_key-is_some, revocation_key-is_some)

  commitment-is_some :
      (c : Channel) (number feerate : ℕ) (keys : TxCreationKeys)
      → IsSafeChannel c
      → IsFunded c
      → is_some (build_commitment_transaction x c number keys false true feerate) ≡ true
  unfolding build_commitment_transaction get_commitment_transaction_number_obscure_factor
  commitment-is_some c number feerate keys safe funded =
      ground (arith, IsSafe-commitment_values true c safe, funded.pubkeys, funded.txo)

  remote_keys-Succeeds :
      (c : Channel) → IsFunded c → Succeeds (λ _ c'. c' ≡ c) (build_remote_transaction_keys x c)
  unfolding build_remote_transaction_keys
  remote_keys-Succeeds c funded =
      grind (arith, tx_creation_keys-is_some, funded.pubkeys, funded.point)

  -- A commitment_signed for the channel as it is can be made, and leaves the channel as it is.
  pub no_state_update-Succeeds :
      (c : Channel)
      → IsSafeChannel c
      → IsFunded c
      → Succeeds (λ _ c'. c' ≡ c) (send_commitment_no_state_update x services c)
  unfolding send_commitment_no_state_update
  no_state_update-Succeeds c safe funded =
      let (keys, made) =
        Succeeds-same c (build_remote_transaction_keys x c) (remote_keys-Succeeds c funded) in
      let number = c.cur_remote_commitment_transaction_number in
      let feerate = commitment_feerate c in
      let built = commitment-is_some c number feerate keys safe funded in
      grind (arith, made, built, signs.sign)
