-- ===== src/Config.antt =====
-- lightning/src/util/config.rs: what the user configures.
use rust_lightning.Prelude.{ℕ, Bool}

-- What we propose for a new channel.
pub record ChannelHandshakeConfig : Type 0 where
  pub minimum_depth : ℕ
  pub our_to_self_delay : ℕ
  pub our_htlc_minimum_msat : ℕ

-- What we accept of the peer's proposal.
pub record ChannelHandshakeLimits : Type 0 where
  pub min_funding_satoshis : ℕ
  pub max_htlc_minimum_msat : ℕ
  pub min_max_htlc_value_in_flight_msat : ℕ
  pub max_channel_reserve_satoshis : ℕ
  pub min_max_accepted_htlcs : ℕ
  pub min_dust_limit_satoshis : ℕ
  pub max_dust_limit_satoshis : ℕ
  pub max_minimum_depth : ℕ
  pub force_announced_channel_preference : Bool
  pub their_to_self_delay : ℕ

pub record ChannelConfig : Type 0 where
  pub fee_proportional_millionths : ℕ
  pub announced_channel : Bool
  pub commit_upfront_shutdown_pubkey : Bool

pub record UserConfig : Type 0 where
  pub own_channel_config : ChannelHandshakeConfig
  pub peer_channel_config_limits : ChannelHandshakeLimits
  pub channel_options : ChannelConfig
