-- ===== src/Channel/Funds.antt =====
-- What we have promised of our balance: the HTLCs that we have offered and those that wait in the
-- holding cell. Only `send_htlc` adds to it.
pub mod Kept
pub mod Spent
pub mod Same
pub mod Revoked
use rust_lightning.Prelude.{ℕ, ◌+◌, ◌*◌, ◌≤◌, ◌≡◌, arith}
use rust_lightning.Channel.State.{Channel, Outcome, done, failed, panicked, Leaves}
use rust_lightning.Channel.Commitment.Balance.{outbound_sum}
use rust_lightning.Channel.Safe.{IsSafeChannel, every_outbound}
use rust_lightning.Channel.Add.Balance.{held_sum}

abbrev pub promised_msat : Channel → ℕ
promised_msat c =
    outbound_sum every_outbound c.pending_outbound_htlcs + held_sum c.holding_cell_htlc_updates

-- The second channel has promised at most this much more than the first, and the rest is as it was.
abbrev pub PromisesMore : ℕ → Channel → Channel → Type 0
PromisesMore more c c' =
    (c'.channel_value_satoshis ≡ c.channel_value_satoshis)
    × (c'.their_channel_reserve_satoshis ≡ c.their_channel_reserve_satoshis)
    × (c'.value_to_self_msat ≡ c.value_to_self_msat)
    × (promised_msat c' ≤ promised_msat c + more)

abbrev pub KeepsFunds {ℓ κ} : {E : Type ℓ} {A : Type κ} → Channel → Outcome E A → Type 0
KeepsFunds c o = Leaves (PromisesMore 0 c) o

-- Our balance covers what we have promised, with this much to spare.
pub record IsCovered (spare : ℕ) (c : Channel) : Type 0 where
  pub reserve_fits : c.their_channel_reserve_satoshis ≤ c.channel_value_satoshis
  pub promised_fits : promised_msat c + spare ≤ c.value_to_self_msat

-- A channel that is safe and whose promises are covered.
pub record IsSound (c : Channel) : Type 0 where
  pub is_safe : IsSafeChannel c
  pub is_covered : IsCovered 0 c

pub PromisesMore-IsCovered :
    (more spare : ℕ) (c c' : Channel)
    → PromisesMore more c c'
    → IsCovered (more + spare) c
    → IsCovered spare c'
PromisesMore-IsCovered more spare c c' p h = record {
  reserve_fits = omega (arith, h.reserve_fits);
  promised_fits = omega (arith, h.promised_fits);
}

pub Leaves-IsCovered {ℓ κ} :
    {E : Type ℓ} {A : Type κ} (c : Channel) (o : Outcome E A)
    → KeepsFunds c o
    → IsCovered 0 c
    → Leaves (IsCovered 0) o
Leaves-IsCovered c (done a c') p h = PromisesMore-IsCovered 0 0 c c' p h
Leaves-IsCovered c (failed e c') p h = PromisesMore-IsCovered 0 0 c c' p h
Leaves-IsCovered c panicked p h = tt

-- A call that keeps the balances safe and the promises covered leaves a sound channel.
pub Leaves-IsSound {ℓ κ} :
    {E : Type ℓ} {A : Type κ} (o : Outcome E A)
    → Leaves IsSafeChannel o
    → Leaves (IsCovered 0) o
    → Leaves IsSound o
Leaves-IsSound (done a c') s h = record { is_safe = s; is_covered = h }
Leaves-IsSound (failed e c') s h = record { is_safe = s; is_covered = h }
Leaves-IsSound panicked s h = tt
