-- ===== src/Channel/HoldingCell.antt =====
-- lightning/src/ln/channel.rs: `free_holding_cell_htlcs`, which sends what had to wait for the peer's
-- revocation.
pub mod Balance
use rust_lightning.Prelude.{
  ℕ, ◌%◌, ◌^◌, Bool, true, false, not, ◌&&◌, ◌||◌, Option, none, some, List, [], ◌∷◌, ◌++◌,
  if◌then◌else◌, add64, is_some, is_empty,
}
use rust_lightning.Bitcoin.{Extern}
use rust_lightning.Msgs.{
  UpdateAddHtlc, UpdateFulfillHtlc, UpdateFailHtlc, UpdateFee, CommitmentUpdate,
}
use rust_lightning.Channel.Types.{HtlcUpdateAwaitingAck, add_htlc, claim_htlc, fail_htlc}
use rust_lightning.Channel.State.{
  Channel, Services, ChannelMonitorUpdateStep, ChannelMonitorUpdate, ChannelError, ignore, close,
  close_delay_broadcast, Outcome, done, failed, panicked, Method,
}
use rust_lightning.Channel.Add.{send_htlc}
use rust_lightning.Channel.Remove.{get_update_fulfill_htlc, get_update_fail_htlc}
use rust_lightning.Channel.Commit.{send_commitment_no_status_check}

-- The messages that the loop collects, and the steps for the monitor.
pub record Freed : Type 0 where
  pub update_add_htlcs : List UpdateAddHtlc
  pub update_fulfill_htlcs : List UpdateFulfillHtlc
  pub update_fail_htlcs : List UpdateFailHtlc
  pub steps : List ChannelMonitorUpdateStep

abbrev pub nothing_freed : Freed
nothing_freed = record {
  update_add_htlcs = [];
  update_fulfill_htlcs = [];
  update_fail_htlcs = [];
  steps = [];
}

-- `self.holding_cell_htlc_updates.push`
abbrev pub hold : List HtlcUpdateAwaitingAck → Channel → Channel
hold updates c = record c { holding_cell_htlc_updates = c.holding_cell_htlc_updates ++ updates }

abbrev pub monitor_steps : Option ChannelMonitorUpdate → List ChannelMonitorUpdateStep
monitor_steps none = []
monitor_steps (some update) = update.updates

module _ (x : Extern) where
  -- One update that leaves the cell: what is collected so far with its message, or the error of an
  -- addition. A claim or a failure that is ignored is dropped.
  unfoldable pub free_update : HtlcUpdateAwaitingAck → Freed → Method ChannelError Freed
  free_update (add_htlc add) freed c =
      elim (send_htlc add.amount_msat add.payment_hash add.cltv_expiry add.source
        add.onion_routing_packet c) [
          | panicked ↦ panicked
          | failed e c' ↦ failed e c'
          | done none c' ↦ panicked
          | done (some msg) c' ↦
              done (record freed { update_add_htlcs = freed.update_add_htlcs ++ (msg ∷ []) }) c'
        ]
  free_update (claim_htlc preimage htlc_id) freed c =
      elim (get_update_fulfill_htlc x htlc_id preimage c) [
        | panicked ↦ panicked
        | failed (ignore _) c' ↦ done freed c'
        | failed (close _) c' ↦ panicked
        | failed (close_delay_broadcast _ _) c' ↦ panicked
        | done (none, _) c' ↦ panicked
        | done (some msg, update) c' ↦
            done
              (record freed {
                update_fulfill_htlcs = freed.update_fulfill_htlcs ++ (msg ∷ []);
                steps = freed.steps ++ monitor_steps update;
              })
              c'
      ]
  free_update (fail_htlc htlc_id err_packet) freed c =
      elim (get_update_fail_htlc htlc_id err_packet c) [
        | panicked ↦ panicked
        | failed (ignore _) c' ↦ done freed c'
        | failed (close _) c' ↦ panicked
        | failed (close_delay_broadcast _ _) c' ↦ panicked
        | done none c' ↦ panicked
        | done (some msg) c' ↦
            done (record freed { update_fail_htlcs = freed.update_fail_htlcs ++ (msg ∷ []) }) c'
      ]

  -- The loop. An addition that is ignored goes back into the cell; another error puts it back with
  -- all that follows it.
  unfoldable pub free_updates : List HtlcUpdateAwaitingAck → Freed → Method ChannelError Freed
  unfolding free_update
  free_updates [] freed c = done freed c
  free_updates (update ∷ updates) freed c = elim (free_update update freed c) [
    | panicked ↦ panicked
    | done freed' c' ↦ free_updates updates freed' c'
    | failed (ignore _) c' ↦ free_updates updates freed (hold (update ∷ []) c')
    | failed (close r) c' ↦ failed (close r) (hold (update ∷ updates) c')
    | failed (close_delay_broadcast r u) c' ↦
        failed (close_delay_broadcast r u) (hold (update ∷ updates) c')
  ]

  -- `self.holding_cell_update_fee.take()` becomes the pending fee.
  abbrev pub freed_fee : Channel → Option UpdateFee × Channel
  freed_fee c = elim c.holding_cell_update_fee [
    | none ↦ (none, c)
    | some feerate ↦ (
      some (record { channel_id = c.channel_id; feerate_per_kw = feerate % 2 ^ 32 }),
      record c { pending_update_fee = some feerate; holding_cell_update_fee = none },
    )
  ]

  module _ (services : Services) where
    -- After the loop: `update_id` is the number that the whole update gets.
    unfoldable pub commit_freed :
        ℕ → Freed → Method ChannelError (Option (CommitmentUpdate × ChannelMonitorUpdate))
    unfolding send_commitment_no_status_check
    commit_freed update_id freed c =
        if is_empty freed.update_add_htlcs
          && is_empty freed.update_fulfill_htlcs
          && is_empty freed.update_fail_htlcs
          && not (is_some c.holding_cell_update_fee)
        then done none c
        else let (update_fee, c1) = freed_fee c in
          elim (send_commitment_no_status_check x services c1) [
            | panicked ↦ panicked
            | failed e c2 ↦ failed e c2
            | done (commitment_signed, additional) c2 ↦
                done
                  (some (
                    record {
                      update_add_htlcs = freed.update_add_htlcs;
                      update_fulfill_htlcs = freed.update_fulfill_htlcs;
                      update_fail_htlcs = freed.update_fail_htlcs;
                      update_fail_malformed_htlcs = [];
                      update_fee = update_fee;
                      commitment_signed = commitment_signed;
                    },
                    record { update_id = update_id; updates = freed.steps ++ additional.updates },
                  ))
                  (record c2 { latest_monitor_update_id = update_id })
          ]

    unfoldable pub free_holding_cell_htlcs :
        Method ChannelError (Option (CommitmentUpdate × ChannelMonitorUpdate))
    unfolding free_updates commit_freed
    free_holding_cell_htlcs c =
        if c.channel_state.monitor_update_failed
        then panicked
        else if is_empty c.holding_cell_htlc_updates && not (is_some c.holding_cell_update_fee)
        then done none c
        else elim (free_updates c.holding_cell_htlc_updates nothing_freed
            (record c { holding_cell_htlc_updates = [] })) [
              | panicked ↦ panicked
              | failed e c' ↦ failed e c'
              | done freed c' ↦ commit_freed (add64 c.latest_monitor_update_id 1) freed c'
            ]
