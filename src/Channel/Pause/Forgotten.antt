-- ===== src/Channel/Pause/Forgotten.antt =====
-- What a disconnection forgets: all that the peer announced and did not sign, and our additions that
-- wait.
use rust_lightning.Prelude.{
  ℕ, ◌+◌, ◌-◌, ◌≡◌, Bool, true, false, none, List, [], ◌∷◌, map, length, if◌then◌else◌, sub64,
}
use rust_lightning.Channel.Types.{
  HtlcSource, InboundHtlcState, InboundHtlcOutput, OutboundHtlcState, OutboundHtlcOutput,
  HtlcUpdateAwaitingAck, add_htlc, claim_htlc, fail_htlc,
}
use rust_lightning.Channel.State.{Channel}
use rust_lightning.Channel.Safe.{IsSafeChannel}

abbrev pub keep_if {ℓ} : {A : Type ℓ} → (A → Bool) → List A → List A
keep_if test [] = []
keep_if test (a ∷ list) = if test a then a ∷ keep_if test list else keep_if test list

-- The peer has signed a transaction with the HTLC.
abbrev pub is_signed : InboundHtlcOutput → Bool
is_signed htlc = elim htlc.state [
  | InboundHtlcState.remote_announced _ ↦ false
  | InboundHtlcState.awaiting_remote_revoke_to_announce _ ↦ true
  | InboundHtlcState.awaiting_announced_remote_revoke _ ↦ true
  | InboundHtlcState.committed ↦ true
  | InboundHtlcState.local_removed _ ↦ true
]

-- The HTLC with only what the peer has signed.
abbrev pub as_signed : OutboundHtlcOutput → OutboundHtlcOutput
as_signed htlc = elim htlc.state [
  | OutboundHtlcState.remote_removed _ ↦ record htlc { state = OutboundHtlcState.committed }
  | OutboundHtlcState.local_announced _ ↦ htlc
  | OutboundHtlcState.committed ↦ htlc
  | OutboundHtlcState.awaiting_remote_revoke_to_remove _ ↦ htlc
  | OutboundHtlcState.awaiting_removed_remote_revoke _ ↦ htlc
]

abbrev pub is_removal : HtlcUpdateAwaitingAck → Bool
is_removal (add_htlc _) = false
is_removal (claim_htlc _ _) = true
is_removal (fail_htlc _ _) = true

-- The second channel is the first one after the connection was lost, with these additions given up.
pub record IsForgotten (c : Channel) (drops : List (HtlcSource × ℕ)) (c' : Channel) : Type 0 where
  pub inbound : c'.pending_inbound_htlcs ≡ keep_if is_signed c.pending_inbound_htlcs
  pub number :
      c'.next_remote_htlc_id
      ≡ sub64 c.next_remote_htlc_id
          (length c.pending_inbound_htlcs - length c'.pending_inbound_htlcs)
  pub outbound : c'.pending_outbound_htlcs ≡ map as_signed c.pending_outbound_htlcs
  pub held : c'.holding_cell_htlc_updates ≡ keep_if is_removal c.holding_cell_htlc_updates
  pub given_up :
      length drops + length c'.holding_cell_htlc_updates ≡ length c.holding_cell_htlc_updates
  pub balance : c'.value_to_self_msat ≡ c.value_to_self_msat
  pub disconnected : c'.channel_state.peer_disconnected ≡ true
  pub no_closing_fee : c'.last_sent_closing_fee ≡ none
  pub is_safe : IsSafeChannel c'
