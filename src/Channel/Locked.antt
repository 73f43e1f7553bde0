-- ===== src/Channel/Locked.antt =====
-- lightning/src/ln/channel.rs: `funding_locked`, with which the peer says that the funding transaction
-- is deep enough in the chain.
use rust_lightning.Prelude.{
  ℕ, ◌+◌, ◌-◌, ◌%◌, ◌≤◌, ◌^◌, ◌≡◌, refl, Bool, true, false, not, ◌&&◌, ◌||◌, Option, none, some,
  ◌==◌, if◌then◌else◌, arith, inl, inr, Bool-cases,
}
use rust_lightning.Msgs.{FundingLocked}
use rust_lightning.Channel.State.{
  ChannelState, to_u32, bit, Channel, initial_commitment_number, ChannelError, close, done, failed,
  Method, ◌>>◌, raise_if, needs_channel_reestablish, different_point, strange_time,
}

-- `self.channel_state & (!MULTI_STATE_FLAGS)`
unfoldable pub non_shutdown_state : ChannelState → ChannelState
non_shutdown_state s = record s {
  remote_shutdown_sent = false;
  local_shutdown_sent = false;
  peer_disconnected = false;
  monitor_update_failed = false;
}

-- `ChannelState::ChannelFunded as u32 | (self.channel_state & MULTI_STATE_FLAGS)`
unfoldable pub funded : ChannelState → ChannelState
funded s = record {
  our_init_sent = false;
  their_init_sent = false;
  funding_created = false;
  funding_sent = false;
  their_funding_locked = false;
  our_funding_locked = false;
  channel_funded = true;
  peer_disconnected = s.peer_disconnected;
  monitor_update_failed = s.monitor_update_failed;
  awaiting_remote_revoke = false;
  remote_shutdown_sent = s.remote_shutdown_sent;
  local_shutdown_sent = s.local_shutdown_sent;
  shutdown_complete = false;
}

-- The point of the peer's next transaction becomes the current one.
abbrev pub next_point : FundingLocked → Channel → Channel
next_point msg c = record c {
  their_prev_commitment_point = c.their_cur_commitment_point;
  their_cur_commitment_point = some msg.next_per_commitment_point;
}

abbrev pub is_point : Option ℕ → ℕ → Bool
is_point none point = false
is_point (some current) point = current == point

-- A message that is sent once more after a reconnection.
unfoldable pub is_resent : Channel → Bool
is_resent c =
    let s = c.channel_state in
    s.channel_funded
      && (c.cur_local_commitment_transaction_number == (initial_commitment_number - 1))
      && (c.cur_remote_commitment_transaction_number == (initial_commitment_number - 1))
    || s.funding_sent && s.their_funding_locked

unfoldable pub funding_locked : FundingLocked → Method ChannelError (Unit {0})
unfolding non_shutdown_state funded is_resent to_u32
funding_locked msg c =
    (do
      let s = c.channel_state
      let non_shutdown = to_u32 (non_shutdown_state s)
      raise_if s.peer_disconnected (close needs_channel_reestablish)
      λ c1.
          if non_shutdown == 8
          then done tt (
              next_point msg
                (record c1 { channel_state = record s { their_funding_locked = true } }))
          else if non_shutdown == 8 + 32
          then done tt (
              next_point msg (record c1 {
                channel_state = funded s;
                update_time_counter = (c1.update_time_counter + 1) % 2 ^ 32;
              }))
          else if is_resent c1
          then (do
            raise_if (not (is_point c1.their_cur_commitment_point msg.next_per_commitment_point))
                (close different_point)
            done tt)
              c1
          else failed (close strange_time) c1)
      c

abbrev IsFresh : Channel → Type 0
IsFresh c =
    (c.cur_local_commitment_transaction_number ≡ initial_commitment_number - 1)
    × (c.cur_remote_commitment_transaction_number ≡ initial_commitment_number - 1)

bit-le : (b : Bool) → bit b ≤ 1
bit-le true = omega arith
bit-le false = omega arith

bit-true : (b : Bool) → bit b ≡ 1 → b ≡ true
bit-true true h = refl
bit-true false h = ground arith

-- The number of a state whose flags are cleared says whether the funding transaction is out.
to_u32-sent :
    (s : ChannelState)
    → to_u32 (non_shutdown_state s) ≡ 8
    → (s.funding_sent ≡ true)
      × (to_u32 (non_shutdown_state (record s { their_funding_locked = true })) ≡ 24)
unfolding to_u32 non_shutdown_state
to_u32-sent s h =
    let le : (b : Bool) → bit b ≤ 1 = bit-le in
    (
      bit-true s.funding_sent (
          omega (
            arith,
            le s.funding_sent,
            le s.our_init_sent,
            le s.their_init_sent,
            le s.funding_created,
            le s.their_funding_locked,
          )),
      omega (arith, le s.their_funding_locked, le s.our_init_sent, le s.funding_sent),
    )

to_u32-funded : (s : ChannelState) → to_u32 (non_shutdown_state (funded s)) ≡ 64
unfolding to_u32 non_shutdown_state funded
to_u32-funded s = refl

-- A resent message with the current point changes nothing.
funding_locked-resent :
    (msg : FundingLocked) (c : Channel) (n : ℕ)
    → c.channel_state.peer_disconnected ≡ false
    → to_u32 (non_shutdown_state c.channel_state) ≡ n
    → (n == 8) ≡ false
    → (n == 40) ≡ false
    → is_resent c ≡ true
    → is_point c.their_cur_commitment_point msg.next_per_commitment_point ≡ true
    → funding_locked msg c ≡ done tt c
unfolding funding_locked
funding_locked-resent msg c n connected is no8 no40 resent point = ground arith

-- In a channel without a commitment since its first ones, a funding_locked that was accepted may be
-- repeated, as a peer does after a reconnection: it is accepted again and changes nothing.
pub funding_locked-again :
    (msg : FundingLocked) (c c' : Channel)
    → IsFresh c
    → funding_locked msg c ≡ done tt c'
    → funding_locked msg c' ≡ done tt c'
unfolding funding_locked is_resent
funding_locked-again msg c c' fresh e =
    let s = c.channel_state in
    let n = to_u32 (non_shutdown_state s) in
    elim (Bool-cases s.peer_disconnected) [
      | inl disconnected ↦ ground arith
      | inr connected ↦ elim (Bool-cases (n == 8)) [
        | inl sent ↦
            let (funding_sent, number) = to_u32-sent s (ground arith) in
            let same : c'
                ≡ next_point msg
                    (record c { channel_state = record s { their_funding_locked = true } }) =
              ground arith in
            rw same (
              funding_locked-resent msg _ 24 connected number refl refl (ground arith)
                (ground arith))
        | inr not_sent ↦ elim (Bool-cases (n == 40)) [
          | inl ready ↦
              let same : c'
                  ≡ next_point msg (record c {
                    channel_state = funded s;
                    update_time_counter = (c.update_time_counter + 1) % 2 ^ 32;
                  }) =
                ground arith in
              rw same (
                funding_locked-resent msg _ 64 connected (to_u32-funded s) refl refl (ground arith)
                  (ground arith))
          | inr other ↦ elim (Bool-cases (is_resent c)) [
            | inl resent ↦
                elim (Bool-cases
                  (is_point c.their_cur_commitment_point msg.next_per_commitment_point)) [
                    | inl point ↦ ground arith
                    | inr wrong ↦ ground arith
                  ]
            | inr strange ↦ ground arith
          ]
        ]
      ]
    ]
