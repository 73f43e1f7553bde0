-- ===== src/ChanUtils/Secrets/Store.antt =====
-- The store of a counterparty that reveals the secrets of one seed.
use rust_lightning.Prelude.{
  ℕ, zero, suc, ◌+◌, ◌*◌, ◌/◌, ◌^◌, ◌≤◌, ◌<◌, ◌≡◌, refl, ◌⊎◌, inl, inr, some, List, [], ◌∷◌, arith,
  All, length, set, length-set,
}
use rust_lightning.ChanUtils.Secrets.{
  CounterpartyCommitmentSecrets, new_secrets, build_commitment_secret, derive_secret,
  provide_secret, place_secret, find_secret, get_secret,
}
use rust_lightning.ChanUtils.Secrets.Derive.{derive_secret-build}
use native.Mathlib.Nat.{div-mul-le_self}

module _ (sha256 : List ℕ → List ℕ) (seed : List ℕ) where
  -- An entry is unused, or holds the secret of its number.
  abbrev pub IsHonestEntry : List ℕ × ℕ → Type 0
  IsHonestEntry (secret, idx) = (idx ≡ 2 ^ 48) ⊎ (secret ≡ build_commitment_secret sha256 seed idx)

  abbrev pub IsHonest : CounterpartyCommitmentSecrets → Type 0
  IsHonest entries = All IsHonestEntry entries × (length entries ≡ 49)

  pub new_secrets-IsHonest : IsHonest new_secrets
  unfolding new_secrets
  new_secrets-IsHonest = ground arith

  All-set :
      (entries : CounterpartyCommitmentSecrets) (i : ℕ) (e : List ℕ × ℕ)
      → All IsHonestEntry entries
      → IsHonestEntry e
      → All IsHonestEntry (set entries i e)
  All-set [] i e h he = h
  All-set (x ∷ entries) zero e h he = (he, h.1)
  All-set (x ∷ entries) (suc i) e h he = (h.0, All-set entries i e h.1 he)

  -- If an honest store accepts a secret of the seed, it stays honest.
  pub provide_secret-IsHonest :
      (old_secrets : CounterpartyCommitmentSecrets) (idx : ℕ) {new : CounterpartyCommitmentSecrets}
      → IsHonest old_secrets
      → provide_secret sha256 old_secrets idx (build_commitment_secret sha256 seed idx) ≡ some new
      → IsHonest new
  unfolding provide_secret
  provide_secret-IsHonest old_secrets idx h e =
      let entry : List ℕ × ℕ = (build_commitment_secret sha256 seed idx, idx) in
      let place = place_secret idx in
      ground
        (arith, All-set old_secrets place entry h.0 (inr refl), length-set old_secrets place entry)

  matching_entry :
      (i idx old_idx : ℕ) (secret : List ℕ)
      → i ≤ 48
      → idx < 2 ^ 48
      → idx / 2 ^ i * 2 ^ i ≡ old_idx
      → IsHonestEntry (secret, old_idx)
      → derive_secret sha256 secret i idx ≡ build_commitment_secret sha256 seed idx
  matching_entry i idx old_idx secret hi hidx e (inl unused) =
      absurd (omega (arith, div-mul-le_self idx (2 ^ i)))
  matching_entry i idx old_idx secret hi hidx e (inr honest) =
      rw (honest, ← e) (derive_secret-build sha256 i seed idx hi)

  find_secret_sound :
      (i : ℕ) (entries : CounterpartyCommitmentSecrets) (idx : ℕ) (s : List ℕ)
      → i + length entries ≤ 49
      → idx < 2 ^ 48
      → All IsHonestEntry entries
      → find_secret sha256 i entries idx ≡ some s
      → s ≡ build_commitment_secret sha256 seed idx
  unfolding find_secret
  find_secret_sound i [] idx s hi hidx h e = cc
  find_secret_sound i ((secret, old_idx) ∷ entries) idx s hi hidx h e = ground (
    arith,
    λ (same : idx / 2 ^ i * 2 ^ i ≡ old_idx).
        matching_entry i idx old_idx secret (omega arith) hidx same h.0,
    find_secret_sound (i + 1) entries idx s,
  )

  -- Every secret that an honest store gives out for a number below 2 ^ 48 is the seed's secret of that
  -- number.
  pub get_secret_sound :
      (old_secrets : CounterpartyCommitmentSecrets) (idx : ℕ) (s : List ℕ)
      → IsHonest old_secrets
      → idx < 2 ^ 48
      → get_secret sha256 old_secrets idx ≡ some (some s)
      → s ≡ build_commitment_secret sha256 seed idx
  unfolding get_secret
  get_secret_sound old_secrets idx s h hidx e =
      ground (arith, find_secret_sound 0 old_secrets idx s)
