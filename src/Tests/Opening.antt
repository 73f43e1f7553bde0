-- ===== src/Tests/Opening.antt =====
-- Two peers open a channel.
use rust_lightning.Prelude.{ℕ, ◌-◌, ◌^◌, ◌≡◌, refl, true, List, [], ◌∷◌, replicate, inl, inr, ◌⊎◌}
use rust_lightning.Config.{UserConfig}
use rust_lightning.Msgs.{OptionalField, OpenChannel, AcceptChannel}
use rust_lightning.Channel.State.{
  Channel, ChannelError, Outcome, done, failed, panicked, strange_time,
}
use rust_lightning.Channel.Funds.{IsSound}
use rust_lightning.Channel.Open.{KeysProvider, new_outbound, new_from_req, accept_channel}
use rust_lightning.Channel.Open.Messages.{get_open_channel, get_accept_channel}
use rust_lightning.Channel.Open.Sound.{new_outbound-IsSound, new_from_req-IsSound}
use rust_lightning.Channel.Open.Agreed.{AreOpened, accept_channel-AreOpened}
use rust_lightning.Tests.Samples.{extern, services, channel, channel_config, keys}

abbrev config : UserConfig
config = record {
  own_channel_config = record {
    minimum_depth = 6;
    our_to_self_delay = 144;
    our_htlc_minimum_msat = 0;
  };
  peer_channel_config_limits = record {
    min_funding_satoshis = 0;
    max_htlc_minimum_msat = 2 ^ 64 - 1;
    min_max_htlc_value_in_flight_msat = 0;
    max_channel_reserve_satoshis = 2 ^ 64 - 1;
    min_max_accepted_htlcs = 0;
    min_dust_limit_satoshis = 546;
    max_dust_limit_satoshis = 2 ^ 64 - 1;
    max_minimum_depth = 144;
    force_announced_channel_preference = true;
    their_to_self_delay = 1008;
  };
  channel_options = channel_config;
}

abbrev our_keys : KeysProvider
our_keys = record {
  get_channel_keys = λ inbound value. (replicate 32 1, keys 10);
  get_shutdown_pubkey = 13;
  get_channel_id = 42;
}

abbrev their_keys : KeysProvider
their_keys = record {
  get_channel_keys = λ inbound value. (replicate 32 2, keys 20);
  get_shutdown_pubkey = 14;
  get_channel_id = 43;
}

-- The result, or else another value.
abbrev right_or {ℓ κ} : {A : Type ℓ} {B : Type κ} → B → A ⊎ B → B
right_or other (inl a) = other
right_or other (inr b) = b

abbrev result_or {ℓ κ} : {E : Type ℓ} {A : Type κ} → A → Outcome E A → A
result_or other (done a c) = a
result_or other (failed e c) = other
result_or other panicked = other

abbrev left_or {ℓ κ} : {E : Type ℓ} {A : Type κ} → Channel → Outcome E A → Channel
left_or other (done a c) = c
left_or other (failed e c) = other
left_or other panicked = other

abbrev features : List ℕ
features = 32 ∷ []

abbrev ours : Channel
ours = right_or channel (new_outbound services our_keys config 100000 1000000)

abbrev no_message : OpenChannel
no_message = record {
  chain_hash = 0;
  temporary_channel_id = 0;
  funding_satoshis = 0;
  push_msat = 0;
  dust_limit_satoshis = 0;
  max_htlc_value_in_flight_msat = 0;
  channel_reserve_satoshis = 0;
  htlc_minimum_msat = 0;
  feerate_per_kw = 0;
  to_self_delay = 0;
  max_accepted_htlcs = 0;
  funding_pubkey = 0;
  revocation_basepoint = 0;
  payment_basepoint = 0;
  delayed_payment_basepoint = 0;
  htlc_basepoint = 0;
  first_per_commitment_point = 0;
  channel_flags = 0;
  shutdown_scriptpubkey = OptionalField.absent;
}

abbrev proposal : OpenChannel
proposal = result_or no_message (get_open_channel extern {E = ChannelError} services 7 ours)

abbrev theirs : Channel
theirs = right_or channel (new_from_req services their_keys config extern features proposal)

abbrev no_answer : AcceptChannel
no_answer = record {
  temporary_channel_id = 0;
  dust_limit_satoshis = 0;
  max_htlc_value_in_flight_msat = 0;
  channel_reserve_satoshis = 0;
  htlc_minimum_msat = 0;
  minimum_depth = 0;
  to_self_delay = 0;
  max_accepted_htlcs = 0;
  funding_pubkey = 0;
  revocation_basepoint = 0;
  payment_basepoint = 0;
  delayed_payment_basepoint = 0;
  htlc_basepoint = 0;
  first_per_commitment_point = 0;
  shutdown_scriptpubkey = OptionalField.absent;
}

abbrev answer : AcceptChannel
answer = result_or no_answer (get_accept_channel extern {E = ChannelError} theirs)

abbrev opened : Channel
opened = left_or channel (accept_channel extern config features answer ours)

new_outbound-IsSound_example : IsSound ours
unfolding new_outbound
new_outbound-IsSound_example =
    new_outbound-IsSound services our_keys config 100000 1000000 ours refl

new_from_req-IsSound_example : IsSound theirs
unfolding new_outbound new_from_req get_open_channel
new_from_req-IsSound_example =
    new_from_req-IsSound services their_keys config extern features proposal theirs refl

accept_channel-AreOpened_example : AreOpened extern services opened theirs
unfolding new_outbound new_from_req get_open_channel get_accept_channel accept_channel
accept_channel-AreOpened_example =
    accept_channel-AreOpened extern services services our_keys their_keys config config 100000
      1000000 7 features features proposal answer ours ours opened theirs theirs refl refl refl refl
      refl

-- The whole of the channel, on both sides, and an answer that comes twice.
balances_test : (opened.value_to_self_msat ≡ 99000000) × (theirs.value_to_self_msat ≡ 1000000)
unfolding new_outbound new_from_req get_open_channel get_accept_channel accept_channel
balances_test = (refl, refl)

second_answer_test :
    accept_channel extern config features answer opened
    ≡ failed (ChannelError.close strange_time) opened
unfolding new_outbound new_from_req get_open_channel get_accept_channel accept_channel
second_answer_test = refl
