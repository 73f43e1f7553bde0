-- ===== src/Channel/Reestablish/Lost.antt =====
-- How channel_reestablish goes where the peer lacks our last revoke_and_ack, step by step.
use rust_lightning.Prelude.{
  ◌+◌, ◌-◌, ◌≡◌, subst, sym, true, false, Option, none, some, arith, if◌then◌else◌, [], ◌<◌, ◌⊎◌,
  bytes_eq, inl, inr,
}
use rust_lightning.Bitcoin.{Extern}
use rust_lightning.Msgs.{Shutdown, present, absent, ChannelReestablish, FundingLocked, RevokeAndAck}
use rust_lightning.Channel.State.{
  Channel, initial_commitment_number, Services, ChannelError, done, ◌>>=◌,
}
use rust_lightning.Channel.Outcomes.{Succeeds, Succeeds-same, bind-Succeeds}
use rust_lightning.Channel.Commit.{build_local_commitment_secret}
use rust_lightning.Channel.Pause.Resend.{get_last_revoke_and_ack, get_last_commitment_update}
use rust_lightning.Channel.Shutdown.{shutdown_message}
use rust_lightning.Channel.Reestablish.{
  Reestablished, reconnected, our_next_remote_commitment_number, check_data_loss, check_reestablish,
  required_revoke, resend_funding_locked, reestablish_current, reestablish_lost,
  reestablish_unfunded, reestablish_end, reestablish_funded, reestablish_again, channel_reestablish,
}
use rust_lightning.ChanUtils.Secrets.{build_commitment_secret}
use rust_lightning.Channel.HoldingCell.{free_holding_cell_htlcs}
use rust_lightning.Channel.Safe.{IsSafeChannel}
use rust_lightning.Channel.Commit.{send_commitment_no_state_update}
use rust_lightning.Channel.Commit.Signable.{Signs, IsFunded, no_state_update-Succeeds}

-- Where the message gives a secret for a number, it is ours of that number.
abbrev pub HasSecret : Extern → Channel → ChannelReestablish → Type 0
HasSecret x c msg = elim msg.data_loss_protect [
  | absent ↦ Unit
  | present data_loss ↦
      bytes_eq
        (build_commitment_secret x.sha256 c.commitment_seed
          (initial_commitment_number - msg.next_remote_commitment_number + 1))
        data_loss.your_last_per_commitment_secret
      ≡ true
]

-- The peer has not seen our last revoke_and_ack, but all before it, and has no other secret than ours.
pub record LacksRevocation (x : Extern) (c : Channel) (msg : ChannelReestablish) : Type 0 where
  pub lost :
      msg.next_remote_commitment_number + 2 + c.cur_local_commitment_transaction_number
      ≡ initial_commitment_number
  pub started : 0 < msg.next_local_commitment_number
  pub in_range : msg.next_local_commitment_number < initial_commitment_number
  pub secret : 0 < msg.next_remote_commitment_number → HasSecret x c msg

-- Either the peer has our last commitment_signed, and we wait for its answer or hold nothing back, or
-- it lacks that one too.
abbrev pub HasSeen : Channel → ChannelReestablish → Type 0
HasSeen c msg =
    let next = msg.next_local_commitment_number in
    let ours = our_next_remote_commitment_number c in
    ((next ≡ ours) × (c.channel_state.awaiting_remote_revoke ≡ true))
    ⊎ ((next ≡ ours) × (c.holding_cell_htlc_updates ≡ []) × (c.holding_cell_update_fee ≡ none))
    ⊎ (next + 1 ≡ ours)

module _ (x : Extern) where
  check_data_loss-done :
      (msg : ChannelReestablish) (c : Channel)
      → LacksRevocation x c msg
      → check_data_loss x msg c ≡ done tt c
  unfolding check_data_loss
  check_data_loss-done msg c lacks = ground (arith, lacks.lost, lacks.secret)

  check_reestablish-done :
      (msg : ChannelReestablish) (c : Channel)
      → c.channel_state.peer_disconnected ≡ true
      → LacksRevocation x c msg
      → check_reestablish x msg c ≡ done tt c
  unfolding check_reestablish
  check_reestablish-done msg c disconnected lacks =
      ground (arith, lacks.lost, lacks.started, lacks.in_range, check_data_loss-done msg c lacks)

  resend_locked-none :
      (msg : ChannelReestablish) (c : Channel)
      → LacksRevocation x c msg
      → resend_funding_locked x msg c ≡ done none c
  unfolding resend_funding_locked
  resend_locked-none msg c lacks = ground (arith, lacks.lost)

  required_revoke-resend :
      (msg : ChannelReestablish) (c : Channel) (raa : RevokeAndAck)
      → c.channel_state.monitor_update_failed ≡ false
      → LacksRevocation x c msg
      → get_last_revoke_and_ack {E = ChannelError} x c ≡ done raa c
      → required_revoke x msg c ≡ done (some raa) c
  unfolding required_revoke
  required_revoke-resend msg c raa stored lacks last = ground (arith, lacks.lost)

  last_raa-reconnected :
      (c : Channel) (raa : RevokeAndAck)
      → get_last_revoke_and_ack {E = ChannelError} x c ≡ done raa c
      → get_last_revoke_and_ack {E = ChannelError} x (reconnected c) ≡ done raa (reconnected c)
  unfolding get_last_revoke_and_ack build_local_commitment_secret
  last_raa-reconnected c raa e = ground arith

  module _ (services : Services) (locked : Option FundingLocked) (raa : Option RevokeAndAck)
      (shutdown_msg : Option Shutdown) where
    current-raa :
        (c : Channel)
        → c.channel_state.monitor_update_failed ≡ false
        → (c.channel_state.awaiting_remote_revoke ≡ true)
          ⊎ ((c.holding_cell_htlc_updates ≡ []) × (c.holding_cell_update_fee ≡ none))
        → Succeeds (λ r _. r.raa ≡ raa) (reestablish_current x services locked raa shutdown_msg c)
    unfolding reestablish_current free_holding_cell_htlcs
    current-raa c stored nothing = ground arith

    lost-raa :
        (c : Channel)
        → Signs x services
        → c.channel_state.monitor_update_failed ≡ false
        → IsSafeChannel c
        → IsFunded c
        → Succeeds (λ r _. r.raa ≡ raa) (reestablish_lost x services locked raa shutdown_msg c)
    unfolding reestablish_lost get_last_commitment_update
    lost-raa c signs stored safe funded =
        let (signed, made) =
          Succeeds-same c (send_commitment_no_state_update x services c)
            (no_state_update-Succeeds x services signs c safe funded) in
        ground (arith, made)

  module _ (services : Services) where
    end-raa :
        (msg : ChannelReestablish) (shutdown_msg : Option Shutdown) (raa : Option RevokeAndAck)
        (locked : Option FundingLocked) (c : Channel)
        → Signs x services
        → c.channel_state.monitor_update_failed ≡ false
        → IsSafeChannel c
        → IsFunded c
        → HasSeen c msg
        → Succeeds
            (λ r _. r.raa ≡ raa)
            (reestablish_end x services msg
              (our_next_remote_commitment_number c)
              shutdown_msg
              raa
              locked
              c)
    unfolding reestablish_end
    end-raa msg shutdown_msg raa locked c signs stored safe funded (inl (same, waits)) =
        ground (arith, current-raa services locked raa shutdown_msg c stored (inl waits))
    end-raa msg shutdown_msg raa locked c signs stored safe funded (inr (inl (same, held, fee))) =
        ground (arith, current-raa services locked raa shutdown_msg c stored (inr (held, fee)))
    end-raa msg shutdown_msg raa locked c signs stored safe funded (inr (inr before)) =
        ground (arith, lost-raa services locked raa shutdown_msg c signs stored safe funded)

    funded-raa :
        (msg : ChannelReestablish) (shutdown_msg : Option Shutdown) (raa : RevokeAndAck)
        (c : Channel)
        → Signs x services
        → c.channel_state.monitor_update_failed ≡ false
        → IsSafeChannel c
        → IsFunded c
        → LacksRevocation x c msg
        → HasSeen c msg
        → get_last_revoke_and_ack {E = ChannelError} x c ≡ done raa c
        → Succeeds (λ r _. r.raa ≡ some raa) (reestablish_funded x services msg shutdown_msg c)
    unfolding reestablish_funded
    funded-raa msg shutdown_msg raa c signs stored safe funded lacks seen last =
        let ours = our_next_remote_commitment_number c in
        let P : Reestablished → Channel → Type 0 = λ r _. r.raa ≡ some raa in
        bind-Succeeds P (required_revoke x msg)
          (λ raa. resend_funding_locked x msg >>= λ locked.
            reestablish_end x services msg ours shutdown_msg raa locked)
          (some raa) c c (required_revoke-resend msg c raa stored lacks last)
          (bind-Succeeds P (resend_funding_locked x msg)
            (λ locked. reestablish_end x services msg ours shutdown_msg (some raa) locked) none c c
            (resend_locked-none msg c lacks)
            (end-raa msg shutdown_msg (some raa) none c signs stored safe funded seen))

    again-raa :
        (msg : ChannelReestablish) (shutdown_msg : Option Shutdown) (raa : RevokeAndAck)
        (c : Channel)
        → c.channel_state.funding_sent ≡ false
        → Succeeds (λ r _. r.raa ≡ some raa) (reestablish_funded x services msg shutdown_msg c)
        → Succeeds (λ r _. r.raa ≡ some raa) (reestablish_again x services msg shutdown_msg c)
    unfolding reestablish_again
    again-raa msg shutdown_msg raa c sent h =
        subst
          (λ b.
            Succeeds (λ r _. r.raa ≡ some raa)
              (if b
                then reestablish_unfunded x msg shutdown_msg c
                else reestablish_funded x services msg shutdown_msg c))
          (sym sent) h

    -- A disconnected channel that is met by such a message answers with its last revoke_and_ack.
    pub channel_reestablish-raa :
        (msg : ChannelReestablish) (raa : RevokeAndAck) (c : Channel)
        → Signs x services
        → c.channel_state.peer_disconnected ≡ true
        → c.channel_state.funding_sent ≡ false
        → c.channel_state.monitor_update_failed ≡ false
        → IsSafeChannel c
        → IsFunded c
        → LacksRevocation x c msg
        → HasSeen c msg
        → get_last_revoke_and_ack {E = ChannelError} x c ≡ done raa c
        → Succeeds (λ r _. r.raa ≡ some raa) (channel_reestablish x services msg c)
    unfolding channel_reestablish
    channel_reestablish-raa msg raa c signs disconnected sent stored safe funded lacks seen last =
        let shutdown_msg =
          (if c.channel_state.local_shutdown_sent then some (shutdown_message x c) else none) in
        let back = reconnected c in
        let again =
          funded-raa msg shutdown_msg raa back signs stored safe
            (record { pubkeys = funded.pubkeys; point = funded.point; txo = funded.txo })
            (record {
              lost = lacks.lost;
              started = lacks.started;
              in_range = lacks.in_range;
              secret = lacks.secret;
            })
            seen (last_raa-reconnected c raa last) in
        bind-Succeeds (λ r _. r.raa ≡ some raa) (check_reestablish x msg)
          (λ _ c1. reestablish_again x services msg shutdown_msg (reconnected c1)) tt c c
          (check_reestablish-done msg c disconnected lacks)
          (again-raa msg shutdown_msg raa back sent again)
