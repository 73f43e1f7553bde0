-- ===== src/Channel/Shutdown.antt =====
-- lightning/src/ln/channel.rs: `shutdown`, which handles the peer's message, and `get_shutdown` and
-- `force_shutdown`, with which the user closes the channel.
pub mod Balance
use rust_lightning.Prelude.{
  ℕ, ◌+◌, ◌%◌, ◌^◌, Bool, true, false, not, ◌&&◌, ◌||◌, Option, none, some, List, [], ◌∷◌,
  if◌then◌else◌, ltb, ◌==◌, length, bytes_eq, add64,
}
use rust_lightning.Bitcoin.{Extern, OutPoint}
use rust_lightning.Msgs.{Shutdown, ClosingSigned}
use rust_lightning.Channel.Types.{
  HtlcSource, InboundHtlcState, InboundHtlcOutput, OutboundHtlcState, OutboundHtlcOutput,
}
use rust_lightning.Channel.State.{
  ChannelState, to_u32, Channel, Services, channel_force_closed, ChannelMonitorUpdate, ChannelError,
  close, ApiError, api_misuse_error, channel_unavailable, done, failed, panicked, Method, ◌>>=◌,
  ◌>>◌, raise_if, panic_if, needs_channel_reestablish, unfunded_shutdown, remote_pending_htlcs,
  absurd_script_length, nonstandard_script, different_script, local_pending_htlcs,
  shutdown_in_progress, cannot_begin_shutdown,
}
use rust_lightning.Channel.Commit.{has_local_announced}
use rust_lightning.Channel.Closing.{get_closing_scriptpubkey, maybe_propose_first_closing_signed}
use rust_lightning.Channel.Pause.{drop_held, only_shutdown_complete}

unfoldable pub has_remote_announced : List InboundHtlcOutput → Bool
has_remote_announced [] = false
has_remote_announced (htlc ∷ htlcs) = elim htlc.state [
  | InboundHtlcState.remote_announced _ ↦ true
  | InboundHtlcState.awaiting_remote_revoke_to_announce _ ↦ has_remote_announced htlcs
  | InboundHtlcState.awaiting_announced_remote_revoke _ ↦ has_remote_announced htlcs
  | InboundHtlcState.committed ↦ has_remote_announced htlcs
  | InboundHtlcState.local_removed _ ↦ has_remote_announced htlcs
]

-- The peer has named another script before.
abbrev pub is_other_script : Option (List ℕ) → List ℕ → Bool
is_other_script none script = false
is_other_script (some before) script = not (bytes_eq before script)

abbrev pub script_or : Option (List ℕ) → List ℕ → Option (List ℕ)
script_or none script = some script
script_or (some before) script = some before

-- The additions in the holding cell, and the held fee, are given up.
abbrev pub give_up_held : Channel → Channel
give_up_held c = record c {
  holding_cell_update_fee = none;
  holding_cell_htlc_updates = (drop_held c.holding_cell_htlc_updates).0;
}

-- The changes of `shutdown` to the channel, before it proposes a closing transaction.
unfoldable pub remote_shut_down : Shutdown → Channel → Channel
unfolding drop_held
remote_shut_down msg c = record (give_up_held c) {
  their_shutdown_scriptpubkey = script_or c.their_shutdown_scriptpubkey msg.scriptpubkey;
  channel_state = record c.channel_state {
    remote_shutdown_sent = true;
    local_shutdown_sent = true;
  };
  update_time_counter = (c.update_time_counter + 2) % 2 ^ 32;
}

unfoldable pub local_shut_down : Channel → Channel
unfolding drop_held
local_shut_down c = record (give_up_held c) {
  channel_state =
      if ltb (to_u32 c.channel_state) 8
      then only_shutdown_complete
      else record c.channel_state { local_shutdown_sent = true };
  update_time_counter = (c.update_time_counter + 1) % 2 ^ 32;
}

module _ (x : Extern) where
  open x use {is_p2pkh, is_p2sh, is_v0_p2wpkh, is_v0_p2wsh}

  abbrev pub is_standard : List ℕ → Bool
  is_standard script =
      is_p2pkh script || is_p2sh script || is_v0_p2wpkh script || is_v0_p2wsh script

  unfoldable pub check_shutdown : Shutdown → Method ChannelError (Unit {0})
  unfolding has_remote_announced
  check_shutdown msg c =
      (do
        raise_if c.channel_state.peer_disconnected (close needs_channel_reestablish)
        raise_if (ltb (to_u32 c.channel_state) 8) (close unfunded_shutdown)
        raise_if (has_remote_announced c.pending_inbound_htlcs) (close remote_pending_htlcs)
        panic_if c.channel_state.shutdown_complete
        raise_if (c.channel_outbound && ltb 34 (length msg.scriptpubkey))
            (close absurd_script_length)
        raise_if (not (is_standard msg.scriptpubkey)) (close nonstandard_script)
        raise_if (is_other_script c.their_shutdown_scriptpubkey msg.scriptpubkey)
            (close different_script))
        c

  abbrev pub shutdown_message : Channel → Shutdown
  shutdown_message c = record {
    channel_id = c.channel_id;
    scriptpubkey = get_closing_scriptpubkey x c;
  }

  unfoldable pub shutdown :
      Services
      → Shutdown
      → Method ChannelError (Option Shutdown × Option ClosingSigned × List (HtlcSource × ℕ))
  unfolding check_shutdown remote_shut_down get_closing_scriptpubkey
  shutdown services msg c =
      (do
        check_shutdown msg
        λ _.
            (do
              closing ← maybe_propose_first_closing_signed x services
              done (
                if c.channel_state.local_shutdown_sent then none else some (shutdown_message c),
                closing,
                (drop_held c.holding_cell_htlc_updates).1,
              ))
              (remote_shut_down msg c))
        c

  unfoldable pub get_shutdown : Method ApiError (Shutdown × List (HtlcSource × ℕ))
  unfolding local_shut_down get_closing_scriptpubkey has_local_announced
  get_shutdown c =
      (do
        let s = c.channel_state
        raise_if (has_local_announced c.pending_outbound_htlcs)
            (api_misuse_error local_pending_htlcs)
        raise_if s.local_shutdown_sent (api_misuse_error shutdown_in_progress)
        raise_if s.remote_shutdown_sent (channel_unavailable shutdown_in_progress)
        panic_if s.shutdown_complete
        raise_if (s.peer_disconnected || s.monitor_update_failed)
            (channel_unavailable cannot_begin_shutdown)
        λ _.
            done (shutdown_message c, (drop_held c.holding_cell_htlc_updates).1)
              (local_shut_down c))
        c

-- The end of a channel: no other method may be called after it.
unfoldable pub force_shutdown {ℓ} :
    {E : Type ℓ} → Bool → Method E (Option OutPoint × ChannelMonitorUpdate × List (HtlcSource × ℕ))
unfolding drop_held
force_shutdown should_broadcast c =
    if to_u32 c.channel_state == 4096
    then panicked
    else let id = add64 c.latest_monitor_update_id 1 in
      done
        (
          c.funding_txo,
          record { update_id = id; updates = channel_force_closed should_broadcast ∷ [] },
          (drop_held c.holding_cell_htlc_updates).1,
        )
        (record c {
          holding_cell_htlc_updates = [];
          pending_outbound_htlcs = [];
          channel_state = only_shutdown_complete;
          update_time_counter = (c.update_time_counter + 1) % 2 ^ 32;
          latest_monitor_update_id = id;
        })
