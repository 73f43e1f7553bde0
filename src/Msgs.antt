-- ===== src/Msgs.antt =====
-- lightning/src/ln/msgs.rs: the messages of the commitment protocol between two peers, as far as the
-- channel reads and writes them. A 32 byte hash, a public key and a signature are numbers, since the
-- channel only compares them and passes them on; a secret and a preimage are byte lists, since they
-- are hashed.
use rust_lightning.Prelude.{ℕ, List, Option}

pub record OnionPacket : Type 0 where
  pub version : ℕ
  pub public_key : Option ℕ
  pub hop_data : List ℕ
  pub hmac : ℕ

pub record OnionErrorPacket : Type 0 where
  pub packet : List ℕ

pub record UpdateAddHtlc : Type 0 where
  pub channel_id : ℕ
  pub htlc_id : ℕ
  pub amount_msat : ℕ
  pub payment_hash : ℕ
  pub cltv_expiry : ℕ
  pub onion_routing_packet : OnionPacket

pub record UpdateFulfillHtlc : Type 0 where
  pub channel_id : ℕ
  pub htlc_id : ℕ
  pub payment_preimage : List ℕ

pub record UpdateFailHtlc : Type 0 where
  pub channel_id : ℕ
  pub htlc_id : ℕ
  pub reason : OnionErrorPacket

pub record UpdateFailMalformedHtlc : Type 0 where
  pub channel_id : ℕ
  pub htlc_id : ℕ
  pub sha256_of_onion : ℕ
  pub failure_code : ℕ

pub record CommitmentSigned : Type 0 where
  pub channel_id : ℕ
  pub signature : ℕ
  pub htlc_signatures : List ℕ

pub record RevokeAndAck : Type 0 where
  pub channel_id : ℕ
  pub per_commitment_secret : List ℕ
  pub next_per_commitment_point : ℕ

pub record UpdateFee : Type 0 where
  pub channel_id : ℕ
  pub feerate_per_kw : ℕ

pub record ClosingSigned : Type 0 where
  pub channel_id : ℕ
  pub fee_satoshis : ℕ
  pub signature : ℕ

pub record Shutdown : Type 0 where
  pub channel_id : ℕ
  pub scriptpubkey : List ℕ

pub record DataLossProtect : Type 0 where
  pub your_last_per_commitment_secret : List ℕ
  pub my_current_per_commitment_point : ℕ

pub data OptionalField {ℓ} (A : Type ℓ) : Type ℓ where
  present : A → OptionalField A
  absent : OptionalField A

pub record ChannelReestablish : Type 0 where
  pub channel_id : ℕ
  pub next_local_commitment_number : ℕ
  pub next_remote_commitment_number : ℕ
  pub data_loss_protect : OptionalField DataLossProtect

pub record FundingLocked : Type 0 where
  pub channel_id : ℕ
  pub next_per_commitment_point : ℕ

pub record CommitmentUpdate : Type 0 where
  pub update_add_htlcs : List UpdateAddHtlc
  pub update_fulfill_htlcs : List UpdateFulfillHtlc
  pub update_fail_htlcs : List UpdateFailHtlc
  pub update_fail_malformed_htlcs : List UpdateFailMalformedHtlc
  pub update_fee : Option UpdateFee
  pub commitment_signed : CommitmentSigned

-- The opening of a channel.
pub record OpenChannel : Type 0 where
  pub chain_hash : ℕ
  pub temporary_channel_id : ℕ
  pub funding_satoshis : ℕ
  pub push_msat : ℕ
  pub dust_limit_satoshis : ℕ
  pub max_htlc_value_in_flight_msat : ℕ
  pub channel_reserve_satoshis : ℕ
  pub htlc_minimum_msat : ℕ
  pub feerate_per_kw : ℕ
  pub to_self_delay : ℕ
  pub max_accepted_htlcs : ℕ
  pub funding_pubkey : ℕ
  pub revocation_basepoint : ℕ
  pub payment_basepoint : ℕ
  pub delayed_payment_basepoint : ℕ
  pub htlc_basepoint : ℕ
  pub first_per_commitment_point : ℕ
  pub channel_flags : ℕ
  pub shutdown_scriptpubkey : OptionalField (List ℕ)

pub record AcceptChannel : Type 0 where
  pub temporary_channel_id : ℕ
  pub dust_limit_satoshis : ℕ
  pub max_htlc_value_in_flight_msat : ℕ
  pub channel_reserve_satoshis : ℕ
  pub htlc_minimum_msat : ℕ
  pub minimum_depth : ℕ
  pub to_self_delay : ℕ
  pub max_accepted_htlcs : ℕ
  pub funding_pubkey : ℕ
  pub revocation_basepoint : ℕ
  pub payment_basepoint : ℕ
  pub delayed_payment_basepoint : ℕ
  pub htlc_basepoint : ℕ
  pub first_per_commitment_point : ℕ
  pub shutdown_scriptpubkey : OptionalField (List ℕ)
