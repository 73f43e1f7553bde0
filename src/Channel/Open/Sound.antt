-- ===== src/Channel/Open/Sound.antt =====
-- A new channel is sound, and stays so when the peer accepts it.
use rust_lightning.Prelude.{
  ℕ, ◌*◌, ◌^◌, ◌≤◌, ◌<◌, ◌≡◌, refl, Bool, true, false, Option, none, List, [], ◌∷◌, inl, inr, sub64,
  mul64, All, arith, subst, Option-cases, Sum-cases,
}
use rust_lightning.Config.{UserConfig}
use rust_lightning.Bitcoin.{Extern}
use rust_lightning.Msgs.{OpenChannel, AcceptChannel}
use rust_lightning.Channel.State.{Channel, Services, Reason, Leaves}
use rust_lightning.Channel.Funds.{IsSound}
use rust_lightning.Channel.Open.{
  KeysProvider, outbound_channel, new_outbound, inbound_channel, new_from_req, accepted,
  accept_channel,
}
use rust_lightning.Channel.Open.Checks.{
  first_failure, own_checks, request_checks, accept_checks, upfront_script,
}

-- No check fails.
pub first_failure-none :
    (checks : List (Bool × Reason))
    → first_failure checks ≡ none
    → All (λ check. check.0 ≡ false) checks
unfolding first_failure
first_failure-none [] e = tt
first_failure-none ((false, reason) ∷ checks) e = (refl, first_failure-none checks e)
first_failure-none ((true, reason) ∷ checks) e = cc

-- A channel without HTLCs whose balance and reserve are within it.
fresh-IsSound :
    (c : Channel)
    → c.channel_value_satoshis ≤ 2 ^ 24
    → c.value_to_self_msat ≤ c.channel_value_satoshis * 1000
    → c.their_channel_reserve_satoshis ≤ c.channel_value_satoshis
    → c.pending_inbound_htlcs ≡ []
    → c.pending_outbound_htlcs ≡ []
    → c.holding_cell_htlc_updates ≡ []
    → IsSound c
fresh-IsSound c value self reserve inbound outbound held = record {
  is_safe = ground arith;
  is_covered = record { reserve_fits = reserve; promised_fits = ground arith };
}

own_checks-fit :
    (config : UserConfig) (value push : ℕ)
    → first_failure (own_checks config value push) ≡ none
    → (value ≤ 2 ^ 24) × (sub64 (mul64 value 1000) push ≤ value * 1000)
unfolding own_checks
own_checks-fit config value push e =
    let passed = first_failure-none (own_checks config value push) e in
    let small : value < 2 ^ 24 = ground (arith, passed.0) in
    let pushed : push ≤ mul64 value 1000 = ground (arith, passed.1.0) in (omega arith, omega arith)

request_checks-fit :
    (config : UserConfig) (services : Services) (msg : OpenChannel)
    → first_failure (request_checks config services msg) ≡ none
    → (msg.funding_satoshis ≤ 2 ^ 24)
      × (msg.push_msat ≤ msg.funding_satoshis * 1000)
      × (msg.channel_reserve_satoshis ≤ msg.funding_satoshis)
unfolding request_checks
request_checks-fit config services msg e =
    let passed = first_failure-none (request_checks config services msg) e in
    let small : msg.funding_satoshis < 2 ^ 24 = ground (arith, passed.1.0) in
    let reserve : msg.channel_reserve_satoshis ≤ msg.funding_satoshis =
      ground (arith, passed.1.1.0) in
    let pushed : msg.push_msat
        ≤ mul64 (sub64 msg.funding_satoshis msg.channel_reserve_satoshis) 1000 =
      ground (arith, passed.1.1.1.0) in
    (omega arith, omega arith, omega arith)

accept_checks-reserve :
    (config : UserConfig) (msg : AcceptChannel) (c : Channel)
    → first_failure (accept_checks config msg c) ≡ none
    → msg.channel_reserve_satoshis ≤ c.channel_value_satoshis
unfolding accept_checks
accept_checks-reserve config msg c e =
    let passed = first_failure-none (accept_checks config msg c) e in ground (arith, passed.1.1.1.0)

module _ (services : Services) (provider : KeysProvider) (config : UserConfig) where
  -- A channel that we open is sound: the push is within it, and nothing is promised yet.
  pub new_outbound-IsSound :
      (value push : ℕ) (c : Channel)
      → new_outbound services provider config value push ≡ inr c
      → IsSound c
  unfolding new_outbound
  new_outbound-IsSound value push c e =
      let fresh = outbound_channel services provider config value push in
      elim (Option-cases (first_failure (own_checks config value push))) [
        | inl passed ↦
            let (small, fits) = own_checks-fit config value push passed in
            let is : fresh ≡ c = ground (arith, passed) in
            subst IsSound is (fresh-IsSound fresh small fits (omega arith) refl refl refl)
        | inr (reason, failed) ↦ ground (arith, failed)
      ]

  -- A channel that a peer opens is sound, whatever the message says: else it is refused.
  pub new_from_req-IsSound :
      (x : Extern) (their_features : List ℕ) (msg : OpenChannel) (c : Channel)
      → new_from_req services provider config x their_features msg ≡ inr c
      → IsSound c
  unfolding new_from_req
  new_from_req-IsSound x their_features msg c e =
      elim (Option-cases (first_failure (request_checks config services msg))) [
        | inl passed ↦
            let (small, fits, reserve) = request_checks-fit config services msg passed in
            elim (Sum-cases (upfront_script x their_features msg.shutdown_scriptpubkey)) [
              | inl (reason, refused) ↦ ground (arith, passed, refused)
              | inr (script, named) ↦
                  let fresh = inbound_channel services provider config msg script in
                  let is : fresh ≡ c = ground (arith, passed, named) in
                  subst IsSound is (fresh-IsSound fresh small fits reserve refl refl refl)
            ]
        | inr (reason, failed) ↦ ground (arith, failed)
      ]

accepted-IsSound :
    (x : Extern) (msg : AcceptChannel) (script : Option (List ℕ)) (c : Channel)
    → IsSound c
    → msg.channel_reserve_satoshis ≤ c.channel_value_satoshis
    → IsSound (accepted x msg script c)
accepted-IsSound x msg script c s reserve = record {
  is_safe = s.is_safe;
  is_covered = record { reserve_fits = reserve; promised_fits = s.is_covered.promised_fits };
}

-- An accept_channel leaves a sound channel sound, whether it is refused or not.
pub accept_channel-IsSound :
    (x : Extern) (config : UserConfig) (their_features : List ℕ) (msg : AcceptChannel) (c : Channel)
    → IsSound c
    → Leaves IsSound (accept_channel x config their_features msg c)
unfolding accept_channel
accept_channel-IsSound x config their_features msg c s =
    elim (Option-cases (first_failure (accept_checks config msg c))) [
      | inl passed ↦
          let reserve = accept_checks-reserve config msg c passed in
          elim (Sum-cases (upfront_script x their_features msg.shutdown_scriptpubkey)) [
            | inl (reason, refused) ↦ ground (arith, passed, refused, s)
            | inr (script, named) ↦
                ground (arith, passed, named, accepted-IsSound x msg script c s reserve)
          ]
      | inr (reason, failed) ↦ ground (arith, failed, s)
    ]
