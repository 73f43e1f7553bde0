-- ===== src/Channel/Open/Messages.antt =====
-- lightning/src/ln/channel.rs: `get_open_channel` and `get_accept_channel`, the messages that open a
-- channel.
use rust_lightning.Prelude.{ℕ, ◌%◌, ◌^◌, not, List, [], if◌then◌else◌, ◌==◌, sub64, mul64}
use rust_lightning.Bitcoin.{Extern}
use rust_lightning.Msgs.{OptionalField, present, OpenChannel, AcceptChannel}
use rust_lightning.Channel.State.{
  to_u32, Channel, initial_commitment_number, our_max_htlcs, Services, background, done, Method,
  ◌>>=◌, ◌>>◌, panic_if,
}
use rust_lightning.Channel.Add.{
  get_our_max_htlc_value_in_flight_msat, get_our_channel_reserve_satoshis,
}
use rust_lightning.Channel.Commit.{build_local_commitment_secret}
use rust_lightning.Channel.Closing.{get_closing_scriptpubkey}

module _ (x : Extern) where
  abbrev pub offered_script : Channel → OptionalField (List ℕ)
  offered_script c =
      present (if c.config.commit_upfront_shutdown_pubkey then get_closing_scriptpubkey x c else [])

  -- The two messages, with the secret of our first commitment transaction.
  abbrev pub open_message : Services → ℕ → List ℕ → Channel → OpenChannel
  open_message services chain_hash secret c = record {
    chain_hash = chain_hash;
    temporary_channel_id = c.channel_id;
    funding_satoshis = c.channel_value_satoshis;
    push_msat = sub64 (mul64 c.channel_value_satoshis 1000) c.value_to_self_msat;
    dust_limit_satoshis = c.our_dust_limit_satoshis;
    max_htlc_value_in_flight_msat = get_our_max_htlc_value_in_flight_msat c.channel_value_satoshis;
    channel_reserve_satoshis = get_our_channel_reserve_satoshis c.channel_value_satoshis;
    htlc_minimum_msat = c.our_htlc_minimum_msat;
    feerate_per_kw = services.get_est_sat_per_1000_weight background % 2 ^ 32;
    to_self_delay = c.our_to_self_delay;
    max_accepted_htlcs = our_max_htlcs;
    funding_pubkey = c.our_pubkeys.funding_pubkey;
    revocation_basepoint = c.our_pubkeys.revocation_basepoint;
    payment_basepoint = c.our_pubkeys.payment_basepoint;
    delayed_payment_basepoint = c.our_pubkeys.delayed_payment_basepoint;
    htlc_basepoint = c.our_pubkeys.htlc_basepoint;
    first_per_commitment_point = x.public_key secret;
    channel_flags = if c.config.announced_channel then 1 else 0;
    shutdown_scriptpubkey = offered_script c;
  }

  abbrev pub accept_message : List ℕ → Channel → AcceptChannel
  accept_message secret c = record {
    temporary_channel_id = c.channel_id;
    dust_limit_satoshis = c.our_dust_limit_satoshis;
    max_htlc_value_in_flight_msat = get_our_max_htlc_value_in_flight_msat c.channel_value_satoshis;
    channel_reserve_satoshis = get_our_channel_reserve_satoshis c.channel_value_satoshis;
    htlc_minimum_msat = c.our_htlc_minimum_msat;
    minimum_depth = c.minimum_depth;
    to_self_delay = c.our_to_self_delay;
    max_accepted_htlcs = our_max_htlcs;
    funding_pubkey = c.our_pubkeys.funding_pubkey;
    revocation_basepoint = c.our_pubkeys.revocation_basepoint;
    payment_basepoint = c.our_pubkeys.payment_basepoint;
    delayed_payment_basepoint = c.our_pubkeys.delayed_payment_basepoint;
    htlc_basepoint = c.our_pubkeys.htlc_basepoint;
    first_per_commitment_point = x.public_key secret;
    shutdown_scriptpubkey = offered_script c;
  }

  unfoldable pub get_open_channel {ℓ} : {E : Type ℓ} → Services → ℕ → Method E OpenChannel
  unfolding build_local_commitment_secret get_closing_scriptpubkey
      get_our_max_htlc_value_in_flight_msat get_our_channel_reserve_satoshis to_u32
  get_open_channel services chain_hash c =
      (do
        panic_if (not c.channel_outbound)
        panic_if (not (to_u32 c.channel_state == 1))
        panic_if (not (c.cur_local_commitment_transaction_number == initial_commitment_number))
        secret ← build_local_commitment_secret x c.cur_local_commitment_transaction_number
        done (open_message services chain_hash secret c))
        c

  unfoldable pub get_accept_channel {ℓ} : {E : Type ℓ} → Method E AcceptChannel
  unfolding build_local_commitment_secret get_closing_scriptpubkey
      get_our_max_htlc_value_in_flight_msat get_our_channel_reserve_satoshis to_u32
  get_accept_channel c =
      (do
        panic_if c.channel_outbound
        panic_if (not (to_u32 c.channel_state == 3))
        panic_if (not (c.cur_local_commitment_transaction_number == initial_commitment_number))
        secret ← build_local_commitment_secret x c.cur_local_commitment_transaction_number
        done (accept_message secret c))
        c
