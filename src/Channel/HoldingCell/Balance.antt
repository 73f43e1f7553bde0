-- ===== src/Channel/HoldingCell/Balance.antt =====
-- Freeing the holding cell keeps the invariant of the balances.
use rust_lightning.Prelude.{
  ℕ, ◌+◌, ◌^◌, ◌≤◌, ◌<◌, ◌≡◌, refl, none, some, List, [], ◌∷◌, arith, add64, inl, inr, Option-cases,
}
use rust_lightning.Bitcoin.{Extern}
use rust_lightning.Msgs.{OnionErrorPacket}
use rust_lightning.Channel.Types.{HtlcUpdateAwaitingAck, add_htlc, claim_htlc, fail_htlc}
use rust_lightning.Channel.State.{
  Channel, Services, ChannelError, ignore, close, close_delay_broadcast, Outcome, done, failed,
  panicked, Leaves,
}
use rust_lightning.Channel.Safe.{IsSafeChannel}
use rust_lightning.Channel.Add.{send_htlc}
use rust_lightning.Channel.Add.Balance.{held_sum, held_sum-append, send_htlc-IsSafe}
use rust_lightning.Channel.Remove.{get_update_fulfill_htlc, get_update_fail_htlc, fulfill_found}
use rust_lightning.Channel.Remove.Balance.{
  get_update_fulfill_htlc-IsSafe, get_update_fail_htlc-IsSafe,
}
use rust_lightning.Channel.Commit.Balance.{send_commitment_no_status_check-IsSafe}
use rust_lightning.Channel.HoldingCell.{
  Freed, nothing_freed, hold, free_update, free_updates, commit_freed, free_holding_cell_htlcs,
}

-- A channel that can free updates of this many millisatoshis.
record CanFree (waiting : ℕ) (c : Channel) : Type 0 where
  is_safe : IsSafeChannel c
  reserve : c.their_channel_reserve_satoshis ≤ c.channel_value_satoshis
  held : waiting + held_sum c.holding_cell_htlc_updates < 2 ^ 63

-- The limits are the same, and the same amounts wait in the cell.
abbrev SameLimits : Channel → Channel → Type 0
SameLimits c c' =
    (c'.their_channel_reserve_satoshis ≡ c.their_channel_reserve_satoshis)
    × (c'.channel_value_satoshis ≡ c.channel_value_satoshis)
    × (held_sum c'.holding_cell_htlc_updates ≡ held_sum c.holding_cell_htlc_updates)

get_update_fulfill_htlc-limits :
    (x : Extern) (id : ℕ) (preimage : List ℕ) (c : Channel)
    → Leaves (SameLimits c) (get_update_fulfill_htlc x id preimage c)
unfolding get_update_fulfill_htlc fulfill_found
get_update_fulfill_htlc-limits x id preimage c =
    ground (arith, held_sum-append c.holding_cell_htlc_updates (claim_htlc preimage id ∷ []))

get_update_fail_htlc-limits :
    (id : ℕ) (err : OnionErrorPacket) (c : Channel)
    → Leaves (SameLimits c) (get_update_fail_htlc id err c)
unfolding get_update_fail_htlc
get_update_fail_htlc-limits id err c =
    ground (arith, held_sum-append c.holding_cell_htlc_updates (fail_htlc id err ∷ []))

module _ (x : Extern) where
  free_update-limits :
      (update : HtlcUpdateAwaitingAck) (freed : Freed) (c : Channel)
      → Leaves (SameLimits c) (free_update x update freed c)
  unfolding free_update send_htlc
  free_update-limits (add_htlc add) freed c = ground arith
  free_update-limits (claim_htlc preimage id) freed c =
      ground (arith, get_update_fulfill_htlc-limits x id preimage c)
  free_update-limits (fail_htlc id err) freed c =
      ground (arith, get_update_fail_htlc-limits id err c)

  free_update-IsSafe :
      (update : HtlcUpdateAwaitingAck) (freed : Freed) (waiting : ℕ) (c : Channel)
      → CanFree waiting c
      → Leaves IsSafeChannel (free_update x update freed c)
  unfolding free_update
  free_update-IsSafe (add_htlc add) freed waiting c s = ground (
    arith,
    send_htlc-IsSafe add.amount_msat add.payment_hash add.cltv_expiry add.source
        add.onion_routing_packet c s.is_safe s.reserve (omega arith),
  )
  free_update-IsSafe (claim_htlc preimage id) freed waiting c s =
      ground (arith, get_update_fulfill_htlc-IsSafe x id preimage c s.is_safe)
  free_update-IsSafe (fail_htlc id err) freed waiting c s =
      ground (arith, get_update_fail_htlc-IsSafe id err c s.is_safe)

  held_sum-cons :
      (update : HtlcUpdateAwaitingAck) (updates : List HtlcUpdateAwaitingAck)
      → held_sum (update ∷ updates) ≡ held_sum (update ∷ []) + held_sum updates
  held_sum-cons (add_htlc add) updates = omega arith
  held_sum-cons (claim_htlc _ _) updates = omega arith
  held_sum-cons (fail_htlc _ _) updates = omega arith

  free_updates-IsSafe :
      (updates : List HtlcUpdateAwaitingAck) (freed : Freed) (c : Channel)
      → CanFree (held_sum updates) c
      → Leaves IsSafeChannel (free_updates x updates freed c)
  unfolding free_updates
  free_updates-IsSafe [] freed c s = s.is_safe
  free_updates-IsSafe (update ∷ updates) freed c s =
      go (free_update x update freed c) refl
        (free_update-IsSafe update freed (held_sum (update ∷ updates)) c s)
        (free_update-limits update freed c) (free_updates-IsSafe updates)
    where
      go :
          (o : Outcome ChannelError Freed)
          → free_update x update freed c ≡ o
          → Leaves IsSafeChannel o
          → Leaves (SameLimits c) o
          → ((freed' : Freed) (c1 : Channel)
              → CanFree (held_sum updates) c1
              → Leaves IsSafeChannel (free_updates x updates freed' c1))
          → Leaves IsSafeChannel (free_updates x (update ∷ updates) freed c)
      go panicked e s1 same rest = ground arith
      go (done freed' c1) e s1 (reserve, value, held) rest =
          let next : CanFree (held_sum updates) c1 = record {
            is_safe = s1;
            reserve = omega (arith, s.reserve);
            held = omega (arith, s.held, held_sum-cons update updates);
          } in
          ground (arith, rest freed' c1 next)
      go (failed (ignore r) c1) e s1 (reserve, value, held) rest =
          let next : CanFree (held_sum updates) (hold (update ∷ []) c1) = record {
            is_safe = ground (arith, s1);
            reserve = omega (arith, s.reserve);
            held = omega (
              arith,
              s.held,
              held_sum-cons update updates,
              held_sum-append c1.holding_cell_htlc_updates (update ∷ []),
            );
          } in
          ground (arith, rest freed (hold (update ∷ []) c1) next)
      go (failed (close r) c1) e s1 same rest = ground arith
      go (failed (close_delay_broadcast r u) c1) e s1 same rest = ground arith

  module _ (services : Services) where
    commit_freed-IsSafe :
        (id : ℕ) (freed : Freed) (c : Channel)
        → IsSafeChannel c
        → Leaves IsSafeChannel (commit_freed x services id freed c)
    unfolding commit_freed
    commit_freed-IsSafe id freed c s = elim (Option-cases c.holding_cell_update_fee) [
      | inl e ↦ ground (arith, send_commitment_no_status_check-IsSafe x services c s)
      | inr (fee, e) ↦ ground (
        arith,
        send_commitment_no_status_check-IsSafe x services
            (record c { pending_update_fee = some fee; holding_cell_update_fee = none }) s,
      )
    ]

    -- Freeing the holding cell keeps a safe channel safe, provided that the reserve the peer asks for
    -- is at most the channel and that the cell holds less than 2 ^ 63.
    pub free_holding_cell_htlcs-IsSafe :
        (c : Channel)
        → IsSafeChannel c
        → c.their_channel_reserve_satoshis ≤ c.channel_value_satoshis
        → held_sum c.holding_cell_htlc_updates < 2 ^ 63
        → Leaves IsSafeChannel (free_holding_cell_htlcs x services c)
    unfolding free_holding_cell_htlcs
    free_holding_cell_htlcs-IsSafe c s reserve held =
        let emptied : Channel = record c { holding_cell_htlc_updates = [] } in
        let start : CanFree (held_sum c.holding_cell_htlc_updates) emptied = record {
          is_safe = s;
          reserve = reserve;
          held = omega arith;
        } in
        go (free_updates x c.holding_cell_htlc_updates nothing_freed emptied) refl
          (free_updates-IsSafe c.holding_cell_htlc_updates nothing_freed emptied start)
      where
        go :
            (o : Outcome ChannelError Freed)
            → free_updates x c.holding_cell_htlc_updates nothing_freed
                (record c { holding_cell_htlc_updates = [] })
              ≡ o
            → Leaves IsSafeChannel o
            → Leaves IsSafeChannel (free_holding_cell_htlcs x services c)
        go panicked e s1 = ground arith
        go (failed r c1) e s1 = ground arith
        go (done freed c1) e s1 =
            ground (arith, commit_freed-IsSafe (add64 c.latest_monitor_update_id 1) freed c1 s1)
