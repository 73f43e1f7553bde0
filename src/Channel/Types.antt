-- ===== src/Channel/Types.antt =====
-- lightning/src/ln/channel.rs and channelmanager.rs: the HTLCs of a channel and their states.
use rust_lightning.Prelude.{ℕ, List, Option}
use rust_lightning.Msgs.{OnionPacket, OnionErrorPacket, UpdateFailHtlc, UpdateFailMalformedHtlc}

-- What a route says of one hop; the feature bits stand as numbers.
pub record RouteHop : Type 0 where
  pub pubkey : ℕ
  pub node_features : ℕ
  pub short_channel_id : ℕ
  pub channel_features : ℕ
  pub fee_msat : ℕ
  pub cltv_expiry_delta : ℕ

pub record HtlcPreviousHopData : Type 0 where
  pub short_channel_id : ℕ
  pub htlc_id : ℕ
  pub incoming_packet_shared_secret : ℕ

pub data HtlcSource : Type 0 where
  previous_hop_data : HtlcPreviousHopData → HtlcSource
  outbound_route : List RouteHop → List ℕ → ℕ → HtlcSource

pub record PendingHtlcInfo : Type 0 where
  pub onion_packet : Option OnionPacket
  pub incoming_shared_secret : ℕ
  pub payment_hash : ℕ
  pub short_channel_id : ℕ
  pub amt_to_forward : ℕ
  pub outgoing_cltv_value : ℕ

pub data HtlcFailureMsg : Type 0 where
  relay : UpdateFailHtlc → HtlcFailureMsg
  malformed : UpdateFailMalformedHtlc → HtlcFailureMsg

pub data PendingHtlcStatus : Type 0 where
  forward : PendingHtlcInfo → PendingHtlcStatus
  fail : HtlcFailureMsg → PendingHtlcStatus

pub data HtlcFailReason : Type 0 where
  lightning_error : OnionErrorPacket → HtlcFailReason
  reason : ℕ → List ℕ → HtlcFailReason

pub data InboundHtlcRemovalReason : Type 0 where
  fail_relay : OnionErrorPacket → InboundHtlcRemovalReason
  fail_malformed : ℕ → ℕ → InboundHtlcRemovalReason
  fulfill : List ℕ → InboundHtlcRemovalReason

pub data InboundHtlcState : Type 0 where
  remote_announced : PendingHtlcStatus → InboundHtlcState
  awaiting_remote_revoke_to_announce : PendingHtlcStatus → InboundHtlcState
  awaiting_announced_remote_revoke : PendingHtlcStatus → InboundHtlcState
  committed : InboundHtlcState
  local_removed : InboundHtlcRemovalReason → InboundHtlcState

pub record InboundHtlcOutput : Type 0 where
  pub htlc_id : ℕ
  pub amount_msat : ℕ
  pub cltv_expiry : ℕ
  pub payment_hash : ℕ
  pub state : InboundHtlcState

-- A missing reason means that the HTLC was fulfilled.
pub data OutboundHtlcState : Type 0 where
  local_announced : OnionPacket → OutboundHtlcState
  committed : OutboundHtlcState
  remote_removed : Option HtlcFailReason → OutboundHtlcState
  awaiting_remote_revoke_to_remove : Option HtlcFailReason → OutboundHtlcState
  awaiting_removed_remote_revoke : Option HtlcFailReason → OutboundHtlcState

pub record OutboundHtlcOutput : Type 0 where
  pub htlc_id : ℕ
  pub amount_msat : ℕ
  pub cltv_expiry : ℕ
  pub payment_hash : ℕ
  pub state : OutboundHtlcState
  pub source : HtlcSource

pub record AddHtlc : Type 0 where
  pub amount_msat : ℕ
  pub cltv_expiry : ℕ
  pub payment_hash : ℕ
  pub source : HtlcSource
  pub onion_routing_packet : OnionPacket

-- An update in the holding cell.
pub data HtlcUpdateAwaitingAck : Type 0 where
  add_htlc : AddHtlc → HtlcUpdateAwaitingAck
  claim_htlc : List ℕ → ℕ → HtlcUpdateAwaitingAck
  fail_htlc : ℕ → OnionErrorPacket → HtlcUpdateAwaitingAck

pub data RaaCommitmentOrder : Type 0 where
  commitment_first revoke_and_ack_first : RaaCommitmentOrder
