-- ===== src/Channel/Funds/Spent.antt =====
-- The methods that promise more, or pay: sending HTLCs, freeing the holding cell, and the peer's
-- revocation, which settles the HTLCs that are gone.
use rust_lightning.Prelude.{
  ℕ, ◌+◌, ◌≡◌, refl, none, some, List, [], ◌∷◌, arith, Option-cases, inl, inr, add64,
}
use rust_lightning.Bitcoin.{Extern}
use rust_lightning.Msgs.{OnionPacket}
use rust_lightning.Channel.Types.{
  HtlcSource, AddHtlc, add_htlc, claim_htlc, fail_htlc, HtlcUpdateAwaitingAck, OutboundHtlcState,
  OutboundHtlcOutput,
}
use rust_lightning.Channel.State.{
  Channel, Services, ChannelError, ignore, close, close_delay_broadcast, Outcome, done, failed,
  panicked, Leaves,
}
use rust_lightning.Channel.Safe.{every_outbound}
use rust_lightning.Channel.Funds.{PromisesMore, KeepsFunds}
use rust_lightning.Channel.Funds.Kept.{
  get_update_fulfill_htlc-KeepsFunds, get_update_fail_htlc-KeepsFunds, send_commitment-KeepsFunds,
}
use rust_lightning.Channel.Add.{send_htlc}
use rust_lightning.Channel.Add.Balance.{held_sum, held_sum-append, outbound_sum-append}
use rust_lightning.Channel.HoldingCell.{
  Freed, nothing_freed, hold, free_update, free_updates, commit_freed, free_holding_cell_htlcs,
}

-- A result is with what it adds, and an error is as before.
abbrev pub Promises {ℓ κ} : {E : Type ℓ} {A : Type κ} → ℕ → Channel → Outcome E A → Type 0
Promises more c (done a c') = PromisesMore more c c'
Promises more c (failed e c') = PromisesMore 0 c c'
Promises more c panicked = Unit

pub send_htlc-Promises :
    (amount hash cltv : ℕ) (source : HtlcSource) (onion : OnionPacket) (c : Channel)
    → Promises amount c (send_htlc amount hash cltv source onion c)
unfolding send_htlc
send_htlc-Promises amount hash cltv source onion c =
    let new : OutboundHtlcOutput = record {
      htlc_id = c.next_local_htlc_id;
      amount_msat = amount;
      cltv_expiry = cltv;
      payment_hash = hash;
      state = OutboundHtlcState.local_announced onion;
      source = source;
    } in
    let held_add : AddHtlc = record {
      amount_msat = amount;
      cltv_expiry = cltv;
      payment_hash = hash;
      source = source;
      onion_routing_packet = onion;
    } in
    ground (
      arith,
      outbound_sum-append every_outbound c.pending_outbound_htlcs (new ∷ []),
      held_sum-append c.holding_cell_htlc_updates (add_htlc held_add ∷ []),
    )

module _ (x : Extern) where
  free_update-Promises :
      (update : HtlcUpdateAwaitingAck) (freed : Freed) (c : Channel)
      → Promises (held_sum (update ∷ [])) c (free_update x update freed c)
  unfolding free_update
  free_update-Promises (add_htlc add) freed c = ground (
    arith,
    send_htlc-Promises add.amount_msat add.payment_hash add.cltv_expiry add.source
        add.onion_routing_packet c,
  )
  free_update-Promises (claim_htlc preimage id) freed c =
      ground (arith, get_update_fulfill_htlc-KeepsFunds x id preimage c)
  free_update-Promises (fail_htlc id err) freed c =
      ground (arith, get_update_fail_htlc-KeepsFunds id err c)

  held_sum-cons :
      (update : HtlcUpdateAwaitingAck) (updates : List HtlcUpdateAwaitingAck)
      → held_sum (update ∷ updates) ≡ held_sum (update ∷ []) + held_sum updates
  held_sum-cons (add_htlc add) updates = omega arith
  held_sum-cons (claim_htlc _ _) updates = omega arith
  held_sum-cons (fail_htlc _ _) updates = omega arith

  hold-PromisesMore :
      (updates : List HtlcUpdateAwaitingAck) (c : Channel)
      → PromisesMore (held_sum updates) c (hold updates c)
  hold-PromisesMore updates c = ground (arith, held_sum-append c.holding_cell_htlc_updates updates)

  free_updates-Promises :
      (updates : List HtlcUpdateAwaitingAck) (freed : Freed) (c : Channel)
      → Leaves (PromisesMore (held_sum updates) c) (free_updates x updates freed c)
  unfolding free_updates
  free_updates-Promises [] freed c = ground arith
  free_updates-Promises (update ∷ updates) freed c =
      go (free_update x update freed c) refl (free_update-Promises update freed c)
        (free_updates-Promises updates)
    where
      go :
          (o : Outcome ChannelError Freed)
          → free_update x update freed c ≡ o
          → Promises (held_sum (update ∷ [])) c o
          → ((freed' : Freed) (c1 : Channel)
              → Leaves (PromisesMore (held_sum updates) c1) (free_updates x updates freed' c1))
          → Leaves
              (PromisesMore (held_sum (update ∷ updates)) c)
              (free_updates x (update ∷ updates) freed c)
      go panicked e p rest = ground arith
      go (done freed' c1) e p rest = ground (arith, held_sum-cons update updates, rest freed' c1)
      go (failed (ignore r) c1) e p rest = ground (
        arith,
        held_sum-cons update updates,
        hold-PromisesMore (update ∷ []) c1,
        rest freed (hold (update ∷ []) c1),
      )
      go (failed (close r) c1) e p rest = ground (arith, hold-PromisesMore (update ∷ updates) c1)
      go (failed (close_delay_broadcast r u) c1) e p rest =
          ground (arith, hold-PromisesMore (update ∷ updates) c1)

  module _ (services : Services) where
    commit_freed-KeepsFunds :
        (id : ℕ) (freed : Freed) (c : Channel) → KeepsFunds c (commit_freed x services id freed c)
    unfolding commit_freed
    commit_freed-KeepsFunds id freed c = elim (Option-cases c.holding_cell_update_fee) [
      | inl e ↦ ground (arith, send_commitment-KeepsFunds x services c)
      | inr (fee, e) ↦ ground (
        arith,
        send_commitment-KeepsFunds x services
            (record c { pending_update_fee = some fee; holding_cell_update_fee = none }),
      )
    ]

    pub free_holding_cell_htlcs-KeepsFunds :
        (c : Channel) → KeepsFunds c (free_holding_cell_htlcs x services c)
    unfolding free_holding_cell_htlcs
    free_holding_cell_htlcs-KeepsFunds c =
        let emptied : Channel = record c { holding_cell_htlc_updates = [] } in
        let updates = c.holding_cell_htlc_updates in
        go (free_updates x updates nothing_freed emptied) refl
          (free_updates-Promises updates nothing_freed emptied)
      where
        go :
            (o : Outcome ChannelError Freed)
            → free_updates x c.holding_cell_htlc_updates nothing_freed
                (record c { holding_cell_htlc_updates = [] })
              ≡ o
            → Leaves
                (PromisesMore
                  (held_sum c.holding_cell_htlc_updates)
                  (record c { holding_cell_htlc_updates = [] }))
                o
            → KeepsFunds c (free_holding_cell_htlcs x services c)
        go panicked e p = ground arith
        go (failed r c1) e p = ground arith
        go (done freed c1) e p =
            ground (arith, commit_freed-KeepsFunds (add64 c.latest_monitor_update_id 1) freed c1)
