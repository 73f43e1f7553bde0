-- ===== src/Channel/Open.antt =====
-- lightning/src/ln/channel.rs: the opening of a channel, on both sides, up to the two messages that
-- settle its parameters.
pub mod Checks
pub mod Messages
pub mod Sound
pub mod Agreed
use rust_lightning.Prelude.{
  ℕ, ◌/◌, ◌%◌, ◌^◌, Bool, true, false, not, ◌&&◌, ◌||◌, Option, none, some, List, [], ◌∷◌, inl, inr,
  ◌⊎◌, if◌then◌else◌, ltb, leb, ◌==◌, add64, sub64, mul64,
}
use Prim.Native.Nat.{min}
use rust_lightning.Config.{UserConfig, ChannelConfig}
use rust_lightning.Bitcoin.{Extern}
use rust_lightning.Msgs.{OptionalField, present, absent, OpenChannel, AcceptChannel}
use rust_lightning.ChanUtils.Keys.{ChannelPublicKeys}
use rust_lightning.ChanUtils.Secrets.{new_secrets}
use rust_lightning.Channel.Types.{commitment_first}
use rust_lightning.Channel.State.{
  ChannelState, to_u32, Channel, initial_commitment_number, our_max_htlcs, Services, background,
  normal, Reason, ChannelError, close, ApiError, api_misuse_error, fee_rate_too_high, Outcome, done,
  failed, Method, ◌>>=◌, ◌>>◌, panic_if, no_suitable_reserve,
}
use rust_lightning.Channel.Add.{
  get_our_max_htlc_value_in_flight_msat, get_our_channel_reserve_satoshis,
}
use rust_lightning.Channel.Commit.{build_local_commitment_secret}
use rust_lightning.Channel.Closing.{get_closing_scriptpubkey}
use rust_lightning.Channel.Open.Checks.{
  first_failure, derive_our_dust_limit_satoshis, own_checks, request_checks, upfront_script,
  accept_checks,
}

-- lightning/src/chain/keysinterface.rs: what a new channel asks of the trait `KeysInterface`. The keys
-- are those of the model of `Channel`: the seed and the public keys.
pub record KeysProvider : Type 0 where
  pub get_channel_keys : Bool → ℕ → List ℕ × ChannelPublicKeys
  pub get_shutdown_pubkey : ℕ
  pub get_channel_id : ℕ

-- `ChannelState::OurInitSent`, and with `ChannelState::TheirInitSent`.
abbrev pub our_init_only : ChannelState
our_init_only = record {
  our_init_sent = true;
  their_init_sent = false;
  funding_created = false;
  funding_sent = false;
  their_funding_locked = false;
  our_funding_locked = false;
  channel_funded = false;
  peer_disconnected = false;
  monitor_update_failed = false;
  awaiting_remote_revoke = false;
  remote_shutdown_sent = false;
  local_shutdown_sent = false;
  shutdown_complete = false;
}

abbrev pub both_init : ChannelState
both_init = record our_init_only { their_init_sent = true }

-- The field `our_htlc_minimum_msat` of both constructors.
abbrev pub at_least_one : ℕ → ℕ
at_least_one n = if n == 0 then 1 else n

module _ (services : Services) (provider : KeysProvider) (config : UserConfig) where
  open services use {get_est_sat_per_1000_weight}

  -- The channel that we ask a peer for.
  abbrev pub outbound_channel : ℕ → ℕ → Channel
  outbound_channel channel_value_satoshis push_msat =
      let (seed, pubkeys) = provider.get_channel_keys false channel_value_satoshis in
      record {
        config = config.channel_options;
        channel_id = provider.get_channel_id;
        channel_state = our_init_only;
        channel_outbound = true;
        channel_value_satoshis = channel_value_satoshis;
        latest_monitor_update_id = 0;
        commitment_seed = seed;
        our_pubkeys = pubkeys;
        cur_local_commitment_transaction_number = initial_commitment_number;
        cur_remote_commitment_transaction_number = initial_commitment_number;
        value_to_self_msat = sub64 (mul64 channel_value_satoshis 1000) push_msat;
        pending_inbound_htlcs = [];
        pending_outbound_htlcs = [];
        holding_cell_htlc_updates = [];
        resend_order = commitment_first;
        monitor_pending_funding_locked = false;
        monitor_pending_revoke_and_ack = false;
        monitor_pending_commitment_signed = false;
        monitor_pending_forwards = [];
        monitor_pending_failures = [];
        pending_update_fee = none;
        holding_cell_update_fee = none;
        next_local_htlc_id = 0;
        next_remote_htlc_id = 0;
        update_time_counter = 1;
        feerate_per_kw = get_est_sat_per_1000_weight normal;
        last_sent_closing_fee = none;
        funding_txo = none;
        their_dust_limit_satoshis = 0;
        our_dust_limit_satoshis =
            derive_our_dust_limit_satoshis (get_est_sat_per_1000_weight background);
        their_max_htlc_value_in_flight_msat = 0;
        their_channel_reserve_satoshis = 0;
        their_htlc_minimum_msat = 0;
        our_htlc_minimum_msat = at_least_one config.own_channel_config.our_htlc_minimum_msat;
        their_to_self_delay = 0;
        our_to_self_delay = config.own_channel_config.our_to_self_delay;
        their_max_accepted_htlcs = 0;
        minimum_depth = 0;
        shutdown_pubkey = provider.get_shutdown_pubkey;
        their_shutdown_scriptpubkey = none;
        their_pubkeys = none;
        their_cur_commitment_point = none;
        their_prev_commitment_point = none;
        channel_monitor = [];
        commitment_secrets = new_secrets;
      }

  unfoldable pub new_outbound : ℕ → ℕ → ApiError ⊎ Channel
  unfolding get_our_channel_reserve_satoshis derive_our_dust_limit_satoshis first_failure own_checks
      new_secrets
  new_outbound channel_value_satoshis push_msat =
      let feerate = get_est_sat_per_1000_weight background in
      elim (first_failure (own_checks config channel_value_satoshis push_msat)) [
        | some reason ↦ inl (api_misuse_error reason)
        | none ↦
            if ltb (get_our_channel_reserve_satoshis channel_value_satoshis)
              (derive_our_dust_limit_satoshis feerate)
            then inl (fee_rate_too_high no_suitable_reserve feerate)
            else inr (outbound_channel channel_value_satoshis push_msat)
      ]

  -- The channel that a peer asks us for, with the script that the peer will close it with.
  abbrev pub inbound_channel : OpenChannel → Option (List ℕ) → Channel
  inbound_channel msg script =
      let (seed, pubkeys) = provider.get_channel_keys true msg.funding_satoshis in
      record (outbound_channel 0 0) {
        config = record config.channel_options { announced_channel = msg.channel_flags % 2 == 1 };
        channel_id = msg.temporary_channel_id;
        channel_state = both_init;
        channel_outbound = false;
        channel_value_satoshis = msg.funding_satoshis;
        commitment_seed = seed;
        our_pubkeys = pubkeys;
        value_to_self_msat = msg.push_msat;
        feerate_per_kw = msg.feerate_per_kw;
        their_dust_limit_satoshis = msg.dust_limit_satoshis;
        their_max_htlc_value_in_flight_msat =
            min msg.max_htlc_value_in_flight_msat (mul64 msg.funding_satoshis 1000);
        their_channel_reserve_satoshis = msg.channel_reserve_satoshis;
        their_htlc_minimum_msat = msg.htlc_minimum_msat;
        their_to_self_delay = msg.to_self_delay;
        their_max_accepted_htlcs = msg.max_accepted_htlcs;
        minimum_depth = config.own_channel_config.minimum_depth;
        their_shutdown_scriptpubkey = script;
        their_pubkeys = some (record {
          funding_pubkey = msg.funding_pubkey;
          revocation_basepoint = msg.revocation_basepoint;
          payment_basepoint = msg.payment_basepoint;
          delayed_payment_basepoint = msg.delayed_payment_basepoint;
          htlc_basepoint = msg.htlc_basepoint;
        });
        their_cur_commitment_point = some msg.first_per_commitment_point;
      }

  unfoldable pub new_from_req : Extern → List ℕ → OpenChannel → ChannelError ⊎ Channel
  unfolding first_failure request_checks upfront_script new_secrets derive_our_dust_limit_satoshis
  new_from_req x their_features msg = elim (first_failure (request_checks config services msg)) [
    | some reason ↦ inl (close reason)
    | none ↦ elim (upfront_script x their_features msg.shutdown_scriptpubkey) [
      | inl reason ↦ inl (close reason)
      | inr script ↦ inr (inbound_channel msg script)
    ]
  ]

module _ (x : Extern) where
  -- The peer accepts the channel that we asked for.
  abbrev pub accepted : AcceptChannel → Option (List ℕ) → Channel → Channel
  accepted msg script c = record c {
    their_dust_limit_satoshis = msg.dust_limit_satoshis;
    their_max_htlc_value_in_flight_msat =
        min msg.max_htlc_value_in_flight_msat (mul64 c.channel_value_satoshis 1000);
    their_channel_reserve_satoshis = msg.channel_reserve_satoshis;
    their_htlc_minimum_msat = msg.htlc_minimum_msat;
    their_to_self_delay = msg.to_self_delay;
    their_max_accepted_htlcs = msg.max_accepted_htlcs;
    minimum_depth = msg.minimum_depth;
    their_pubkeys = some (record {
      funding_pubkey = msg.funding_pubkey;
      revocation_basepoint = msg.revocation_basepoint;
      payment_basepoint = msg.payment_basepoint;
      delayed_payment_basepoint = msg.delayed_payment_basepoint;
      htlc_basepoint = msg.htlc_basepoint;
    });
    their_cur_commitment_point = some msg.first_per_commitment_point;
    their_shutdown_scriptpubkey = script;
    channel_state = both_init;
  }

  unfoldable pub accept_channel :
      UserConfig → List ℕ → AcceptChannel → Method ChannelError (Unit {0})
  unfolding first_failure accept_checks upfront_script
  accept_channel config their_features msg c = elim (first_failure (accept_checks config msg c)) [
    | some reason ↦ failed (close reason) c
    | none ↦ elim (upfront_script x their_features msg.shutdown_scriptpubkey) [
      | inl reason ↦ failed (close reason) c
      | inr script ↦ done tt (accepted msg script c)
    ]
  ]
