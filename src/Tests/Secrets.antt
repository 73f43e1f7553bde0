-- ===== src/Tests/Secrets.antt =====
-- Runs of the store of secrets and of the sorting of outputs.
use rust_lightning.TransactionUtils.{cmp_bytes, cmp_outputs, insert_output, sort_outputs}
use rust_lightning.ChanUtils.Secrets.{
  get_min_seen_secret, place_secret, CounterpartyCommitmentSecrets, new_secrets,
  build_commitment_secret, derive_secret, provide_secret, get_secret,
}
use rust_lightning.Prelude.{ℕ, ◌^◌, ◌-◌, ◌≡◌, refl, List, [], ◌∷◌, arith, replicate, set}
use Prim.Native.Nat.{Ordering}
use rust_lightning.Bitcoin.{TxOut}
use rust_lightning.ChanUtils.Secrets.Derive.{derive_secret-build}
use rust_lightning.ChanUtils.Secrets.Store.{
  IsHonest, new_secrets-IsHonest, provide_secret-IsHonest, get_secret_sound,
}
use rust_lightning.TransactionUtils.Sorted.{IsSorted, sort_outputs-IsSorted}
use rust_lightning.Tests.Samples.{extern}

abbrev seed : List ℕ
seed = replicate 32 1

derive_secret-build_example :
    derive_secret extern.sha256
      (build_commitment_secret extern.sha256 seed (2 ^ 48 - 4))
      2
      (2 ^ 48 - 1)
    ≡ build_commitment_secret extern.sha256 seed (2 ^ 48 - 1)
derive_secret-build_example = derive_secret-build extern.sha256 2 seed (2 ^ 48 - 1) (omega arith)

abbrev first_secret : List ℕ
first_secret = build_commitment_secret extern.sha256 seed (2 ^ 48 - 1)

abbrev store : CounterpartyCommitmentSecrets
store = set new_secrets 0 (first_secret, 2 ^ 48 - 1)

store-IsHonest : IsHonest extern.sha256 seed store
unfolding provide_secret place_secret get_min_seen_secret new_secrets
store-IsHonest =
    provide_secret-IsHonest extern.sha256 seed new_secrets (2 ^ 48 - 1)
      (new_secrets-IsHonest extern.sha256 seed) refl

get_secret_sound_example : first_secret ≡ build_commitment_secret extern.sha256 seed (2 ^ 48 - 1)
unfolding get_secret new_secrets build_commitment_secret derive_secret
get_secret_sound_example =
    get_secret_sound extern.sha256 seed store (2 ^ 48 - 1) first_secret store-IsHonest (omega arith)
      refl

abbrev out : ℕ → ℕ → TxOut × ℕ
out value script = (record { value = value; script_pubkey = script ∷ [] }, 0)

abbrev outs : List (TxOut × ℕ)
outs = out 5 1 ∷ out 3 9 ∷ out 5 0 ∷ out 1 7 ∷ []

abbrev first_of_equals : ℕ → ℕ → Ordering
first_of_equals a b = Ordering.eq

sort_outputs-IsSorted_example : IsSorted (out 1 7 ∷ out 3 9 ∷ out 5 0 ∷ out 5 1 ∷ [])
unfolding sort_outputs insert_output cmp_outputs cmp_bytes
sort_outputs-IsSorted_example = sort_outputs-IsSorted first_of_equals outs
