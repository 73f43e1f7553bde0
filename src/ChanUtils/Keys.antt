-- ===== src/ChanUtils/Keys.antt =====
-- lightning/src/ln/chan_utils.rs: the keys of a commitment transaction, derived from the base keys
-- and the per-commitment point.
use rust_lightning.Prelude.{ℕ, ◌++◌, Option, none, some, if◌then◌else◌}
use rust_lightning.Bitcoin.{Extern}

pub record TxCreationKeys : Type 0 where
  pub per_commitment_point : ℕ
  pub revocation_key : ℕ
  pub a_htlc_key : ℕ
  pub b_htlc_key : ℕ
  pub a_delayed_payment_key : ℕ
  pub b_payment_key : ℕ

pub record ChannelPublicKeys : Type 0 where
  pub funding_pubkey : ℕ
  pub revocation_basepoint : ℕ
  pub payment_basepoint : ℕ
  pub delayed_payment_basepoint : ℕ
  pub htlc_basepoint : ℕ

infixl 5 ◌>>=◌
abbrev ◌>>=◌ {ℓ κ} : {A : Type ℓ} {B : Type κ} → Option A → (A → Option B) → Option B
none >>= f = none
some a >>= f = f a

module _ (x : Extern) where
  open x use {sha256, is_secret_key, public_key, serialize, combine, mul_assign}

  unfoldable pub derive_public_key : ℕ → ℕ → Option ℕ
  derive_public_key per_commitment_point base_point =
      let res = sha256 (serialize per_commitment_point ++ serialize base_point) in
      if is_secret_key res then combine base_point (public_key res) else none

  unfoldable pub derive_public_revocation_key : ℕ → ℕ → Option ℕ
  derive_public_revocation_key per_commitment_point revocation_base_point = do
    let rev_append_commit_hash_key =
        sha256 (serialize revocation_base_point ++ serialize per_commitment_point)
    let commit_append_rev_hash_key =
        sha256 (serialize per_commitment_point ++ serialize revocation_base_point)
    part_a ← mul_assign revocation_base_point rev_append_commit_hash_key
    part_b ← mul_assign per_commitment_point commit_append_rev_hash_key
    combine part_a part_b

  -- `TxCreationKeys::new`
  unfoldable pub new_tx_creation_keys : ℕ → ℕ → ℕ → ℕ → ℕ → ℕ → Option TxCreationKeys
  new_tx_creation_keys point a_delayed_payment_base a_htlc_base b_revocation_base b_payment_base
        b_htlc_base =
      do
        revocation ← derive_public_revocation_key point b_revocation_base
        a_htlc ← derive_public_key point a_htlc_base
        b_htlc ← derive_public_key point b_htlc_base
        a_delayed ← derive_public_key point a_delayed_payment_base
        b_payment ← derive_public_key point b_payment_base
        some (record {
          per_commitment_point = point;
          revocation_key = revocation;
          a_htlc_key = a_htlc;
          b_htlc_key = b_htlc;
          a_delayed_payment_key = a_delayed;
          b_payment_key = b_payment;
        })
