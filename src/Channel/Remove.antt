-- ===== src/Channel/Remove.antt =====
-- lightning/src/ln/channel.rs: the ways in which an HTLC is removed: the peer's `update_fulfill_htlc`,
-- `update_fail_htlc` and `update_fail_malformed_htlc` for the HTLCs that we added, and our own
-- `get_update_fulfill_htlc` and `get_update_fail_htlc` for the peer's. A `debug_assert` has no effect,
-- as in a release build.
pub mod Balance
use rust_lightning.Prelude.{
  ℕ, zero, suc, ◌+◌, Bool, true, false, not, ◌||◌, Option, none, some, List, [], ◌∷◌, ◌++◌, ◌⊎◌,
  inl, inr, ◌==◌, if◌then◌else◌, add64, sub64,
}
use rust_lightning.Bitcoin.{Extern}
use rust_lightning.Msgs.{
  OnionErrorPacket, UpdateFulfillHtlc, UpdateFailHtlc, UpdateFailMalformedHtlc,
}
use rust_lightning.Channel.Types.{
  HtlcSource, HtlcFailReason, InboundHtlcRemovalReason, fail_relay, fail_malformed, fulfill,
  InboundHtlcState, InboundHtlcOutput, OutboundHtlcState, OutboundHtlcOutput, HtlcUpdateAwaitingAck,
  add_htlc, claim_htlc, fail_htlc,
}
use rust_lightning.Channel.State.{
  Channel, ChannelMonitorUpdateStep, payment_preimage, ChannelMonitorUpdate, ChannelError, ignore,
  close, Outcome, done, failed, panicked, Method, ◌>>=◌, ◌>>◌, raise_if, panic_if, not_operational,
  needs_channel_reestablish, incorrect_preimage, not_yet_committed, already_removed, unknown_htlc,
}

-- What marking one HTLC gives: the error, or the state that replaces its state.
abbrev pub removed_state :
    OutboundHtlcState → Option HtlcFailReason → ChannelError ⊎ OutboundHtlcState
removed_state (OutboundHtlcState.local_announced _) fail_reason = inl (close not_yet_committed)
removed_state OutboundHtlcState.committed fail_reason =
    inr (OutboundHtlcState.remote_removed fail_reason)
removed_state (OutboundHtlcState.remote_removed _) fail_reason = inl (close already_removed)
removed_state (OutboundHtlcState.awaiting_remote_revoke_to_remove _) fail_reason =
    inl (close already_removed)
removed_state (OutboundHtlcState.awaiting_removed_remote_revoke _) fail_reason =
    inl (close already_removed)

-- The preimage's hash, if it is to be checked, is another one than the HTLC's.
abbrev pub is_wrong_hash : Option ℕ → ℕ → Bool
is_wrong_hash none payment_hash = false
is_wrong_hash (some hash) payment_hash = not (hash == payment_hash)

-- The loop of `mark_outbound_htlc_removed`, over the HTLCs that are left.
unfoldable pub mark_removed :
    ℕ
    → Option ℕ
    → Option HtlcFailReason
    → List OutboundHtlcOutput
    → ChannelError ⊎ HtlcSource × List OutboundHtlcOutput
mark_removed htlc_id check_preimage fail_reason [] = inl (close unknown_htlc)
mark_removed htlc_id check_preimage fail_reason (htlc ∷ htlcs) = elim (htlc.htlc_id == htlc_id) [
  | true ↦
      if is_wrong_hash check_preimage htlc.payment_hash
      then inl (close incorrect_preimage)
      else elim (removed_state htlc.state fail_reason) [
        | inl e ↦ inl e
        | inr s ↦ inr (htlc.source, record htlc { state = s } ∷ htlcs)
      ]
  | false ↦ elim (mark_removed htlc_id check_preimage fail_reason htlcs) [
    | inl e ↦ inl e
    | inr (source, rest) ↦ inr (source, htlc ∷ rest)
  ]
]

unfoldable pub mark_outbound_htlc_removed :
    ℕ → Option ℕ → Option HtlcFailReason → Method ChannelError HtlcSource
mark_outbound_htlc_removed htlc_id check_preimage fail_reason c =
    elim (mark_removed htlc_id check_preimage fail_reason c.pending_outbound_htlcs) [
      | inl e ↦ failed e c
      | inr (source, htlcs) ↦ done source (record c { pending_outbound_htlcs = htlcs })
    ]

module _ (x : Extern) where
  open x use {sha256, hash_number}

  unfoldable pub update_fulfill_htlc : UpdateFulfillHtlc → Method ChannelError HtlcSource
  unfolding mark_outbound_htlc_removed
  update_fulfill_htlc msg c =
      (do
        raise_if (not c.channel_state.channel_funded) (close not_operational)
        raise_if c.channel_state.peer_disconnected (close needs_channel_reestablish)
        let payment_hash = hash_number (sha256 msg.payment_preimage)
        mark_outbound_htlc_removed msg.htlc_id (some payment_hash) none)
        c

unfoldable pub update_fail_htlc : UpdateFailHtlc → HtlcFailReason → Method ChannelError (Unit {0})
unfolding mark_outbound_htlc_removed
update_fail_htlc msg fail_reason c =
    (do
      raise_if (not c.channel_state.channel_funded) (close not_operational)
      raise_if c.channel_state.peer_disconnected (close needs_channel_reestablish)
      mark_outbound_htlc_removed msg.htlc_id none (some fail_reason)
      done tt)
      c

unfoldable pub update_fail_malformed_htlc :
    UpdateFailMalformedHtlc → HtlcFailReason → Method ChannelError (Unit {0})
unfolding mark_outbound_htlc_removed
update_fail_malformed_htlc msg fail_reason c =
    (do
      raise_if (not c.channel_state.channel_funded) (close not_operational)
      raise_if c.channel_state.peer_disconnected (close needs_channel_reestablish)
      mark_outbound_htlc_removed msg.htlc_id none (some fail_reason)
      done tt)
      c

-- What the search for the HTLC to fulfill finds: its position and the HTLC.
unfoldable pub find_inbound : ℕ → ℕ → List InboundHtlcOutput → Option (ℕ × InboundHtlcOutput)
find_inbound htlc_id idx [] = none
find_inbound htlc_id idx (htlc ∷ htlcs) =
    let rest = find_inbound htlc_id (idx + 1) htlcs in
    if htlc.htlc_id == htlc_id then some (idx, htlc) else rest

abbrev pub is_local_removed : InboundHtlcState → Bool
is_local_removed (InboundHtlcState.local_removed _) = true
is_local_removed _ = false

abbrev pub is_committed : InboundHtlcState → Bool
is_committed InboundHtlcState.committed = true
is_committed _ = false

-- `self.pending_inbound_htlcs[idx].state = state`
unfoldable pub set_state : ℕ → InboundHtlcState → List InboundHtlcOutput → List InboundHtlcOutput
set_state idx s [] = []
set_state zero s (htlc ∷ htlcs) = record htlc { state = s } ∷ htlcs
set_state (suc idx) s (htlc ∷ htlcs) = htlc ∷ set_state idx s htlcs

-- What the holding cell says of an HTLC.
pub data Held : Type 0 where
  to_claim to_fail not_held : Held

unfoldable pub held_removal : ℕ → List HtlcUpdateAwaitingAck → Held
held_removal id [] = not_held
held_removal id (add_htlc _ ∷ updates) = held_removal id updates
held_removal id (claim_htlc _ htlc_id ∷ updates) =
    let rest = held_removal id updates in if id == htlc_id then to_claim else rest
held_removal id (fail_htlc htlc_id _ ∷ updates) =
    let rest = held_removal id updates in if id == htlc_id then to_fail else rest

-- We may not send a new commitment_signed now.
abbrev pub must_hold : Channel → Bool
must_hold c =
    c.channel_state.awaiting_remote_revoke || c.channel_state.peer_disconnected
    || c.channel_state.monitor_update_failed

-- The channel after the preimage went to its monitor, and the update that says so.
abbrev pub with_preimage : List ℕ → Channel → Channel
with_preimage preimage c = record c {
  latest_monitor_update_id = add64 c.latest_monitor_update_id 1;
  channel_monitor = c.channel_monitor ++ (payment_preimage preimage ∷ []);
}

abbrev pub preimage_update : List ℕ → Channel → ChannelMonitorUpdate
preimage_update preimage c = record {
  update_id = add64 c.latest_monitor_update_id 1;
  updates = payment_preimage preimage ∷ [];
}

module _ (x : Extern) where
  open x use {sha256, hash_number}

  -- The method after the search.
  unfoldable pub fulfill_found :
      ℕ
      → List ℕ
      → ℕ
      → InboundHtlcOutput
      → Method ChannelError (Option UpdateFulfillHtlc × Option ChannelMonitorUpdate)
  fulfill_found htlc_id preimage idx htlc c =
      let update = preimage_update preimage c in
      let c' = with_preimage preimage c in
      if not (htlc.payment_hash == hash_number (sha256 preimage))
      then panicked
      else if is_local_removed htlc.state
      then done (none, none) c
      else if must_hold c
      then elim (held_removal htlc_id c.holding_cell_htlc_updates) [
        | to_claim ↦
            done (none, none)
              (record c' { latest_monitor_update_id = sub64 c'.latest_monitor_update_id 1 })
        | to_fail ↦ done (none, some update) c'
        | not_held ↦
            done (none, some update)
              (record c' {
                holding_cell_htlc_updates =
                    c.holding_cell_htlc_updates ++ (claim_htlc preimage htlc_id ∷ []);
              })
      ]
      else if not (is_committed htlc.state)
      then done (none, some update) c'
      else done
          (
            some (record {
              channel_id = c.channel_id;
              htlc_id = htlc_id;
              payment_preimage = preimage;
            }),
            some update,
          )
          (record c' {
            pending_inbound_htlcs =
                set_state idx (InboundHtlcState.local_removed (fulfill preimage))
                  c.pending_inbound_htlcs;
          })

  unfoldable pub get_update_fulfill_htlc :
      ℕ → List ℕ → Method ChannelError (Option UpdateFulfillHtlc × Option ChannelMonitorUpdate)
  unfolding fulfill_found
  get_update_fulfill_htlc htlc_id preimage c =
      if not c.channel_state.channel_funded || c.channel_state.shutdown_complete
      then panicked
      else elim (find_inbound htlc_id 0 c.pending_inbound_htlcs) [
        | none ↦ failed (ignore unknown_htlc) c
        | some (idx, htlc) ↦ fulfill_found htlc_id preimage idx htlc c
      ]

-- The loop of `get_update_fail_htlc`, which goes on after a match: the last position found, or an
-- early return at an HTLC that is removed already, or not committed.
pub data FailSearch : Type 0 where
  at_index : Option ℕ → FailSearch
  removed_before not_committed : FailSearch

unfoldable pub find_to_fail : ℕ → ℕ → Option ℕ → List InboundHtlcOutput → FailSearch
find_to_fail htlc_id idx found [] = at_index found
find_to_fail htlc_id idx found (htlc ∷ htlcs) =
    let found' = (if htlc.htlc_id == htlc_id then some idx else found) in
    let rest = find_to_fail htlc_id (idx + 1) found' htlcs in
    if not (htlc.htlc_id == htlc_id)
    then rest
    else if is_local_removed htlc.state
    then removed_before
    else if is_committed htlc.state
    then rest
    else not_committed

unfoldable pub get_update_fail_htlc :
    ℕ → OnionErrorPacket → Method ChannelError (Option UpdateFailHtlc)
get_update_fail_htlc htlc_id err_packet c =
    if not c.channel_state.channel_funded || c.channel_state.shutdown_complete
    then panicked
    else elim (find_to_fail htlc_id 0 none c.pending_inbound_htlcs) [
      | removed_before ↦ done none c
      | not_committed ↦ failed (ignore unknown_htlc) c
      | at_index none ↦ failed (ignore unknown_htlc) c
      | at_index (some idx) ↦
          if must_hold c
          then elim (held_removal htlc_id c.holding_cell_htlc_updates) [
            | to_claim ↦ failed (ignore unknown_htlc) c
            | to_fail ↦ failed (ignore unknown_htlc) c
            | not_held ↦ done none (record c {
              holding_cell_htlc_updates =
                  c.holding_cell_htlc_updates ++ (fail_htlc htlc_id err_packet ∷ []);
            })
          ]
          else done
              (some (record { channel_id = c.channel_id; htlc_id = htlc_id; reason = err_packet }))
              (record c {
                pending_inbound_htlcs =
                    set_state idx (InboundHtlcState.local_removed (fail_relay err_packet))
                      c.pending_inbound_htlcs;
              })
    ]
