-- ===== src/Channel/Open/Checks.antt =====
-- lightning/src/ln/channel.rs: the checks of `new_outbound`, `new_from_req` and `accept_channel`. The
-- first one that applies gives the error.
use rust_lightning.Prelude.{
  ℕ, ◌/◌, ◌%◌, ◌*◌, Bool, false, not, ◌&&◌, ◌||◌, Option, none, some, List, [], ◌∷◌, inl, inr, ◌⊎◌,
  if◌then◌else◌, ltb, leb, ◌==◌, sub64, mul64, is_empty,
}
use Prim.Native.Nat.{max}
use rust_lightning.Config.{UserConfig}
use rust_lightning.Bitcoin.{Extern}
use rust_lightning.Msgs.{OptionalField, present, absent, OpenChannel, AcceptChannel}
use rust_lightning.Channel.State.{
  Channel, to_u32, commitment_tx_base_weight, max_funding_satoshis, Services, background,
  high_priority, Reason, strange_time, feerate_too_low, feerate_too_high, too_much_funding,
  pushed_too_much, short_own_delay, bogus_reserve, no_payout_outputs, reserve_below_dust_limit,
  minimum_is_full_value, long_delay, no_accepted_htlcs, too_many_accepted_htlcs, little_funding,
  high_minimum, little_in_flight, high_reserve, few_accepted_htlcs, low_dust_limit, high_dust_limit,
  other_announcement, no_suitable_reserve, small_reserve, dust_limit_over_reserve,
  little_for_commitment, nonstandard_upfront_script, no_upfront_script, no_inbound_accept,
  great_depth,
}
use rust_lightning.Channel.Add.{get_our_channel_reserve_satoshis}
use rust_lightning.Channel.Shutdown.{is_standard}

-- lightning/src/ln/channelmanager.rs, in blocks.
abbrev pub breakdown_timeout : ℕ
breakdown_timeout = 6 * 24

abbrev pub max_local_breakdown_timeout : ℕ
max_local_breakdown_timeout = 6 * 24 * 7

abbrev pub b_output_plus_spending_input_weight : ℕ
b_output_plus_spending_input_weight = 104

unfoldable pub derive_our_dust_limit_satoshis : ℕ → ℕ
derive_our_dust_limit_satoshis at_open_background_feerate =
    max (mul64 at_open_background_feerate b_output_plus_spending_input_weight / 1000) 546

-- lightning/src/ln/features.rs, on the bytes of the flags: `flags[0] & (3 << 4)`.
unfoldable pub supports_upfront_shutdown_script : List ℕ → Bool
supports_upfront_shutdown_script [] = false
supports_upfront_shutdown_script (flags ∷ _) = not (flags / 16 % 4 == 0)

unfoldable pub first_failure : List (Bool × Reason) → Option Reason
first_failure [] = none
first_failure ((fails, reason) ∷ checks) = if fails then some reason else first_failure checks

unfoldable pub own_checks : UserConfig → ℕ → ℕ → List (Bool × Reason)
own_checks config channel_value_satoshis push_msat =
    (leb max_funding_satoshis channel_value_satoshis, too_much_funding)
    ∷ (ltb (mul64 channel_value_satoshis 1000) push_msat, pushed_too_much)
    ∷ (ltb config.own_channel_config.our_to_self_delay breakdown_timeout, short_own_delay)
    ∷ []

unfoldable pub request_checks : UserConfig → Services → OpenChannel → List (Bool × Reason)
unfolding get_our_channel_reserve_satoshis derive_our_dust_limit_satoshis
request_checks config services msg =
    let limits = config.peer_channel_config_limits in
    let available_msat = mul64 (sub64 msg.funding_satoshis msg.channel_reserve_satoshis) 1000 in
    let background_feerate = services.get_est_sat_per_1000_weight background in
    let highest_feerate = mul64 (services.get_est_sat_per_1000_weight high_priority) 2 in
    let their_announce = msg.channel_flags % 2 == 1 in
    let announced = config.channel_options.announced_channel in
    let our_dust_limit = derive_our_dust_limit_satoshis background_feerate in
    let our_reserve = get_our_channel_reserve_satoshis msg.funding_satoshis in
    let funders_amount_msat = sub64 (mul64 msg.funding_satoshis 1000) msg.push_msat in
    let fee = mul64 background_feerate commitment_tx_base_weight in
    (ltb config.own_channel_config.our_to_self_delay breakdown_timeout, short_own_delay)
    ∷ (leb max_funding_satoshis msg.funding_satoshis, too_much_funding)
    ∷ (ltb msg.funding_satoshis msg.channel_reserve_satoshis, bogus_reserve)
    ∷ (ltb available_msat msg.push_msat, pushed_too_much)
    ∷ (ltb msg.funding_satoshis msg.dust_limit_satoshis, no_payout_outputs)
    ∷ (ltb msg.channel_reserve_satoshis msg.dust_limit_satoshis, reserve_below_dust_limit)
    ∷ (leb available_msat msg.htlc_minimum_msat, minimum_is_full_value)
    ∷ (ltb msg.feerate_per_kw background_feerate, feerate_too_low)
    ∷ (ltb highest_feerate msg.feerate_per_kw, feerate_too_high)
    ∷ (
      ltb limits.their_to_self_delay msg.to_self_delay
          || ltb max_local_breakdown_timeout msg.to_self_delay,
      long_delay,
    )
    ∷ (ltb msg.max_accepted_htlcs 1, no_accepted_htlcs)
    ∷ (ltb 483 msg.max_accepted_htlcs, too_many_accepted_htlcs)
    ∷ (ltb msg.funding_satoshis limits.min_funding_satoshis, little_funding)
    ∷ (ltb limits.max_htlc_minimum_msat msg.htlc_minimum_msat, high_minimum)
    ∷ (
      ltb msg.max_htlc_value_in_flight_msat limits.min_max_htlc_value_in_flight_msat,
      little_in_flight,
    )
    ∷ (ltb limits.max_channel_reserve_satoshis msg.channel_reserve_satoshis, high_reserve)
    ∷ (ltb msg.max_accepted_htlcs limits.min_max_accepted_htlcs, few_accepted_htlcs)
    ∷ (ltb msg.dust_limit_satoshis limits.min_dust_limit_satoshis, low_dust_limit)
    ∷ (ltb limits.max_dust_limit_satoshis msg.dust_limit_satoshis, high_dust_limit)
    ∷ (
      limits.force_announced_channel_preference
          && (if announced then not their_announce else their_announce),
      other_announcement,
    )
    ∷ (ltb our_reserve our_dust_limit, no_suitable_reserve)
    ∷ (ltb msg.channel_reserve_satoshis our_dust_limit, small_reserve)
    ∷ (ltb our_reserve msg.dust_limit_satoshis, dust_limit_over_reserve)
    ∷ (ltb funders_amount_msat fee, little_for_commitment)
    ∷ (
      leb msg.push_msat (mul64 msg.channel_reserve_satoshis 1000)
          && leb (sub64 funders_amount_msat fee) (mul64 our_reserve 1000),
      little_for_commitment,
    )
    ∷ []

unfoldable pub accept_checks : UserConfig → AcceptChannel → Channel → List (Bool × Reason)
unfolding get_our_channel_reserve_satoshis to_u32
accept_checks config msg c =
    let limits = config.peer_channel_config_limits in
    let available = sub64 c.channel_value_satoshis msg.channel_reserve_satoshis in
    let our_reserve = get_our_channel_reserve_satoshis c.channel_value_satoshis in
    (not c.channel_outbound, no_inbound_accept)
    ∷ (not (to_u32 c.channel_state == 1), strange_time)
    ∷ (ltb (21000000 * 100000000) msg.dust_limit_satoshis, no_payout_outputs)
    ∷ (ltb c.channel_value_satoshis msg.channel_reserve_satoshis, bogus_reserve)
    ∷ (ltb msg.channel_reserve_satoshis msg.dust_limit_satoshis, reserve_below_dust_limit)
    ∷ (ltb msg.channel_reserve_satoshis c.our_dust_limit_satoshis, no_payout_outputs)
    ∷ (ltb our_reserve msg.dust_limit_satoshis, dust_limit_over_reserve)
    ∷ (leb (mul64 available 1000) msg.htlc_minimum_msat, minimum_is_full_value)
    ∷ (
      ltb limits.their_to_self_delay msg.to_self_delay
          || ltb max_local_breakdown_timeout msg.to_self_delay,
      long_delay,
    )
    ∷ (ltb msg.max_accepted_htlcs 1, no_accepted_htlcs)
    ∷ (ltb 483 msg.max_accepted_htlcs, too_many_accepted_htlcs)
    ∷ (ltb limits.max_htlc_minimum_msat msg.htlc_minimum_msat, high_minimum)
    ∷ (
      ltb msg.max_htlc_value_in_flight_msat limits.min_max_htlc_value_in_flight_msat,
      little_in_flight,
    )
    ∷ (ltb limits.max_channel_reserve_satoshis msg.channel_reserve_satoshis, high_reserve)
    ∷ (ltb msg.max_accepted_htlcs limits.min_max_accepted_htlcs, few_accepted_htlcs)
    ∷ (ltb msg.dust_limit_satoshis limits.min_dust_limit_satoshis, low_dust_limit)
    ∷ (ltb limits.max_dust_limit_satoshis msg.dust_limit_satoshis, high_dust_limit)
    ∷ (ltb limits.max_minimum_depth msg.minimum_depth, great_depth)
    ∷ []

-- The script that the peer commits to; an empty one commits to nothing.
unfoldable pub upfront_script : Extern → List ℕ → OptionalField (List ℕ) → Reason ⊎ Option (List ℕ)
unfolding supports_upfront_shutdown_script
upfront_script x their_features shutdown_scriptpubkey =
    if supports_upfront_shutdown_script their_features
    then elim shutdown_scriptpubkey [
      | absent ↦ inl no_upfront_script
      | present script ↦
          if is_standard x script
          then inr (some script)
          else if is_empty script
          then inr none
          else inl nonstandard_upfront_script
    ]
    else inr none
