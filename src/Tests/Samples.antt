-- ===== src/Tests/Samples.antt =====
-- A channel with HTLCs in several states, and functions that stand for the cryptography, the signer
-- and the fee estimator.
use rust_lightning.Prelude.{
  ℕ, ◌+◌, ◌^◌, ◌-◌, ◌%◌, true, false, none, some, List, [], ◌∷◌, map, replicate, length, ◌==◌,
}
use rust_lightning.Config.{ChannelConfig}
use rust_lightning.Bitcoin.{Extern}
use rust_lightning.Msgs.{OnionPacket, UpdateAddHtlc}
use rust_lightning.ChanUtils.Keys.{ChannelPublicKeys}
use rust_lightning.ChanUtils.Secrets.{new_secrets}
use rust_lightning.Channel.Types.{
  HtlcSource, previous_hop_data, PendingHtlcStatus, forward, fulfill, InboundHtlcState,
  InboundHtlcOutput, OutboundHtlcState, OutboundHtlcOutput, add_htlc, claim_htlc,
  revoke_and_ack_first,
}
use rust_lightning.Channel.State.{ChannelState, Channel, Services}

abbrev sum : List ℕ → ℕ
sum [] = 0
sum (b ∷ bytes) = b + sum bytes

abbrev pub extern : Extern
extern = record {
  sha256 = λ bytes. replicate 32 (sum bytes % 256);
  ripemd160 = λ bytes. replicate 20 (sum bytes % 256);
  hash_number = sum;
  hash_bytes = λ n. replicate 32 (n % 256);
  is_secret_key = λ bytes. true;
  public_key = sum;
  serialize = λ key. key ∷ [];
  combine = λ a b. some (a + b);
  mul_assign = λ key bytes. some (key + sum bytes);
  sighash_all = λ tx script value. value ∷ [];
  verify = λ hash sig key. sig == 1;
  tx_id = λ tx. length tx.output;
  to_v0_p2wsh = λ script. length script ∷ [];
  p2wpkh = λ key. key ∷ 0 ∷ [];
  get_weight = λ tx. 600;
  into_bytes = λ script. length script ∷ [];
  serialize_der = λ sig. sig ∷ [];
  is_p2pkh = λ script. false;
  is_p2sh = λ script. false;
  is_v0_p2wpkh = λ script. length script == 2;
  is_v0_p2wsh = λ script. false;
}

abbrev pub services : Services
services = record {
  sign_remote_commitment = λ feerate tx keys htlcs delay. some (5, map (λ _. 6) htlcs);
  sign_closing_transaction = λ tx. some 7;
  get_est_sat_per_1000_weight = λ target. 253;
}

abbrev pub keys : ℕ → ChannelPublicKeys
keys n = record {
  funding_pubkey = n;
  revocation_basepoint = n + 1;
  payment_basepoint = n + 2;
  delayed_payment_basepoint = n + 3;
  htlc_basepoint = n + 4;
}

abbrev pub onion : OnionPacket
onion = record { version = 0; public_key = none; hop_data = []; hmac = 0 }

abbrev pub source : HtlcSource
source =
    previous_hop_data
      (record { short_channel_id = 9; htlc_id = 4; incoming_packet_shared_secret = 11 })

abbrev pub status : PendingHtlcStatus
status = forward (record {
  onion_packet = none;
  incoming_shared_secret = 3;
  payment_hash = 160;
  short_channel_id = 9;
  amt_to_forward = 900;
  outgoing_cltv_value = 500;
})

-- The preimage 3 has the hash 96.
abbrev pub preimage : List ℕ
preimage = 3 ∷ []

abbrev inbound : ℕ → ℕ → InboundHtlcState → InboundHtlcOutput
inbound id amount s = record {
  htlc_id = id;
  amount_msat = amount;
  cltv_expiry = 600 + id;
  payment_hash = 96;
  state = s;
}

abbrev outbound : ℕ → ℕ → OutboundHtlcState → OutboundHtlcOutput
outbound id amount s = record {
  htlc_id = id;
  amount_msat = amount;
  cltv_expiry = 700 + id;
  payment_hash = 96;
  state = s;
  source = source;
}

abbrev pub state : ChannelState
state = record {
  our_init_sent = true;
  their_init_sent = true;
  funding_created = false;
  funding_sent = false;
  their_funding_locked = false;
  our_funding_locked = false;
  channel_funded = true;
  peer_disconnected = false;
  monitor_update_failed = false;
  awaiting_remote_revoke = false;
  remote_shutdown_sent = false;
  local_shutdown_sent = false;
  shutdown_complete = false;
}

abbrev pub channel_config : ChannelConfig
channel_config = record {
  fee_proportional_millionths = 0;
  announced_channel = false;
  commit_upfront_shutdown_pubkey = true;
}

abbrev pub channel : Channel
channel = record {
  config = channel_config;
  channel_id = 42;
  channel_state = state;
  channel_outbound = true;
  channel_value_satoshis = 100000;
  latest_monitor_update_id = 8;
  commitment_seed = replicate 32 1;
  our_pubkeys = keys 10;
  cur_local_commitment_transaction_number = 2 ^ 48 - 5;
  cur_remote_commitment_transaction_number = 2 ^ 48 - 2;
  value_to_self_msat = 60000000;
  pending_inbound_htlcs =
      inbound 0 2000000 InboundHtlcState.committed
      ∷ inbound 1 1000000 (InboundHtlcState.remote_announced status)
      ∷ inbound 2 500000 (InboundHtlcState.local_removed (fulfill preimage))
      ∷ [];
  pending_outbound_htlcs =
      outbound 0 3000000 OutboundHtlcState.committed
      ∷ outbound 1 1000000 (OutboundHtlcState.remote_removed none)
      ∷ outbound 2 700000 (OutboundHtlcState.awaiting_removed_remote_revoke none)
      ∷ outbound 3 400000 (OutboundHtlcState.local_announced onion)
      ∷ [];
  holding_cell_htlc_updates = [];
  resend_order = revoke_and_ack_first;
  monitor_pending_funding_locked = false;
  monitor_pending_revoke_and_ack = false;
  monitor_pending_commitment_signed = false;
  monitor_pending_forwards = [];
  monitor_pending_failures = [];
  pending_update_fee = none;
  holding_cell_update_fee = none;
  next_local_htlc_id = 4;
  next_remote_htlc_id = 3;
  update_time_counter = 1;
  feerate_per_kw = 253;
  last_sent_closing_fee = none;
  funding_txo = some (record { txid = 77; vout = 0 });
  their_dust_limit_satoshis = 546;
  our_dust_limit_satoshis = 546;
  their_max_htlc_value_in_flight_msat = 50000000;
  their_channel_reserve_satoshis = 1000;
  their_htlc_minimum_msat = 1;
  our_htlc_minimum_msat = 1;
  their_to_self_delay = 144;
  our_to_self_delay = 144;
  their_max_accepted_htlcs = 50;
  minimum_depth = 6;
  shutdown_pubkey = 13;
  their_shutdown_scriptpubkey = some (1 ∷ 2 ∷ []);
  their_pubkeys = some (keys 20);
  their_cur_commitment_point = some 31;
  their_prev_commitment_point = none;
  channel_monitor = [];
  commitment_secrets = new_secrets;
}

-- The same channel while it waits for a revocation, with an addition and a claim in its holding cell.
abbrev pub waiting : Channel
waiting = record channel {
  channel_state = record state { awaiting_remote_revoke = true };
  holding_cell_htlc_updates =
      add_htlc (record {
        amount_msat = 250000;
        cltv_expiry = 800;
        payment_hash = 5;
        source = source;
        onion_routing_packet = onion;
      })
      ∷ claim_htlc preimage 0
      ∷ [];
}

abbrev pub add_message : UpdateAddHtlc
add_message = record {
  channel_id = 42;
  htlc_id = 3;
  amount_msat = 1500000;
  payment_hash = 160;
  cltv_expiry = 650;
  onion_routing_packet = onion;
}
