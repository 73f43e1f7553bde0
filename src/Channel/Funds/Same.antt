-- ===== src/Channel/Funds/Same.antt =====
-- The methods that leave the balances alone: fees, the monitor, the opening and the closing.
use rust_lightning.Prelude.{ℕ, ◌≡◌, Bool, List, arith}
use rust_lightning.Bitcoin.{Extern, Transaction}
use rust_lightning.Msgs.{UpdateFee, FundingLocked, ClosingSigned}
use rust_lightning.Channel.Types.{HtlcSource, PendingHtlcInfo, HtlcFailReason}
use rust_lightning.Channel.State.{
  Channel, Services, ChannelError, Outcome, done, failed, panicked, Leaves,
}
use rust_lightning.Channel.Outcomes.{bind-Leaves}
use rust_lightning.Channel.Funds.{IsSound}
use rust_lightning.Channel.Commit.{build_local_commitment_secret}
use rust_lightning.Channel.Fee.{send_update_fee, check_remote_fee, update_fee}
use rust_lightning.Channel.Locked.{funding_locked}
use rust_lightning.Channel.Closing.Message.{
  check_closing_signed, counter_feerate, propose_new_feerate, answer_closing, closing_signed,
}
use rust_lightning.Channel.Pause.{monitor_update_failed}
use rust_lightning.Channel.Pause.Resend.{
  get_last_revoke_and_ack, pending_funding_locked, get_last_commitment_update,
  monitor_updating_restored,
}

-- The second channel has the balances and the HTLCs of the first.
abbrev pub SameBalances : Channel → Channel → Type 0
SameBalances c c' =
    (c'.channel_value_satoshis ≡ c.channel_value_satoshis)
    × (c'.their_channel_reserve_satoshis ≡ c.their_channel_reserve_satoshis)
    × (c'.value_to_self_msat ≡ c.value_to_self_msat)
    × (c'.pending_inbound_htlcs ≡ c.pending_inbound_htlcs)
    × (c'.pending_outbound_htlcs ≡ c.pending_outbound_htlcs)
    × (c'.holding_cell_htlc_updates ≡ c.holding_cell_htlc_updates)

abbrev pub KeepsBalances {ℓ κ} : {E : Type ℓ} {A : Type κ} → Channel → Outcome E A → Type 0
KeepsBalances c o = Leaves (SameBalances c) o

pub SameBalances-IsSound : (c c' : Channel) → SameBalances c c' → IsSound c → IsSound c'
SameBalances-IsSound c c' p s =
    let a = s.is_safe in
    let h = s.is_covered in
    record {
      is_safe = ground (arith, a);
      is_covered = record {
        reserve_fits = ground (arith, h.reserve_fits);
        promised_fits = ground (arith, h.promised_fits);
      };
    }

pub KeepsBalances-IsSound {ℓ κ} :
    {E : Type ℓ} {A : Type κ} (c : Channel) (o : Outcome E A)
    → KeepsBalances c o
    → IsSound c
    → Leaves IsSound o
KeepsBalances-IsSound c (done a c') p s = SameBalances-IsSound c c' p s
KeepsBalances-IsSound c (failed e c') p s = SameBalances-IsSound c c' p s
KeepsBalances-IsSound c panicked p s = tt

pub send_update_fee-KeepsBalances :
    (feerate : ℕ) (c : Channel) → KeepsBalances c (send_update_fee {E = ChannelError} feerate c)
unfolding send_update_fee
send_update_fee-KeepsBalances feerate c = ground arith

pub update_fee-KeepsBalances :
    (services : Services) (msg : UpdateFee) (c : Channel)
    → KeepsBalances c (update_fee services msg c)
unfolding update_fee check_remote_fee
update_fee-KeepsBalances services msg c = ground arith

pub funding_locked-KeepsBalances :
    (msg : FundingLocked) (c : Channel) → KeepsBalances c (funding_locked msg c)
unfolding funding_locked
funding_locked-KeepsBalances msg c = ground arith

pub monitor_update_failed-KeepsBalances :
    (resend_raa resend_commitment : Bool) (forwards : List (PendingHtlcInfo × ℕ))
    (failures : List (HtlcSource × ℕ × HtlcFailReason)) (c : Channel)
    → KeepsBalances c
        (monitor_update_failed {E = ChannelError} resend_raa resend_commitment forwards failures c)
unfolding monitor_update_failed
monitor_update_failed-KeepsBalances resend_raa resend_commitment forwards failures c = ground arith

module _ (x : Extern) where
  pub last_raa-KeepsBalances :
      (c : Channel) → KeepsBalances c (get_last_revoke_and_ack {E = ChannelError} x c)
  unfolding get_last_revoke_and_ack build_local_commitment_secret
  last_raa-KeepsBalances c = ground arith

  pending_funding_locked-KeepsBalances :
      (c : Channel) → KeepsBalances c (pending_funding_locked {E = ChannelError} x c)
  unfolding pending_funding_locked build_local_commitment_secret
  pending_funding_locked-KeepsBalances c = ground arith

  module _ (services : Services) where
    pub last_update-KeepsBalances :
        (c : Channel) → KeepsBalances c (get_last_commitment_update {E = ChannelError} x services c)
    unfolding get_last_commitment_update
    last_update-KeepsBalances c = ground arith

    pub monitor_updating_restored-KeepsBalances :
        (c : Channel) → KeepsBalances c (monitor_updating_restored {E = ChannelError} x services c)
    unfolding monitor_updating_restored
    monitor_updating_restored-KeepsBalances c = ground (
      arith,
      pending_funding_locked-KeepsBalances c,
      last_raa-KeepsBalances c,
      last_update-KeepsBalances c,
    )

    check_closing-KeepsBalances :
        (msg : ClosingSigned) (c : Channel) → KeepsBalances c (check_closing_signed x msg c)
    unfolding check_closing_signed
    check_closing-KeepsBalances msg c = ground arith

    answer_closing-KeepsBalances :
        (tx : Transaction) (msg : ClosingSigned) (c : Channel)
        → KeepsBalances c (answer_closing x services tx msg c)
    unfolding answer_closing counter_feerate propose_new_feerate
    answer_closing-KeepsBalances tx msg c = ground arith

    pub closing_signed-KeepsBalances :
        (msg : ClosingSigned) (c : Channel) → KeepsBalances c (closing_signed x services msg c)
    unfolding closing_signed
    closing_signed-KeepsBalances msg c =
        bind-Leaves (SameBalances c) (check_closing_signed x msg)
          (λ tx. answer_closing x services tx msg) c (check_closing-KeepsBalances msg c)
          (λ tx c1 same. ground (arith, same, answer_closing-KeepsBalances tx msg c1))
