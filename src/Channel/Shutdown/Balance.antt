-- ===== src/Channel/Shutdown/Balance.antt =====
-- A shutdown keeps the invariant of the balances, and nothing is added to the channel after it.
use rust_lightning.Prelude.{ℕ, ◌≡◌, true, Option, List, arith}
use rust_lightning.Bitcoin.{Extern}
use rust_lightning.Msgs.{Shutdown, ClosingSigned, OnionPacket, UpdateAddHtlc}
use rust_lightning.Channel.Types.{HtlcSource, PendingHtlcStatus}
use rust_lightning.Channel.State.{
  Channel, Services, ChannelError, close, ignore, done, failed, Leaves, not_operational,
}
use rust_lightning.Channel.Safe.{IsSafeChannel}
use rust_lightning.Channel.Add.{send_htlc, update_add_htlc}
use rust_lightning.Channel.Closing.{maybe_propose_first_closing_signed}
use rust_lightning.Channel.Shutdown.{
  check_shutdown, shutdown, get_shutdown, remote_shut_down, local_shut_down,
}

module _ (x : Extern) where
  propose-IsSafe :
      (services : Services) (c : Channel)
      → IsSafeChannel c
      → Leaves IsSafeChannel (maybe_propose_first_closing_signed x services {E = ChannelError} c)
  unfolding maybe_propose_first_closing_signed
  propose-IsSafe services c s = ground arith

  -- The peer's shutdown leaves a safe channel safe, whether it is accepted or refused.
  pub shutdown-IsSafe :
      (services : Services) (msg : Shutdown) (c : Channel)
      → IsSafeChannel c
      → Leaves IsSafeChannel (shutdown x services msg c)
  unfolding shutdown check_shutdown remote_shut_down
  shutdown-IsSafe services msg c s =
      ground (arith, propose-IsSafe services (remote_shut_down msg c))

  pub get_shutdown-IsSafe :
      (c : Channel) → IsSafeChannel c → Leaves IsSafeChannel (get_shutdown x c)
  unfolding get_shutdown local_shut_down
  get_shutdown-IsSafe c s = ground arith

  propose-state :
      (services : Services) (c : Channel)
      → Leaves
          (λ c'. c'.channel_state ≡ c.channel_state)
          (maybe_propose_first_closing_signed x services {E = ChannelError} c)
  unfolding maybe_propose_first_closing_signed
  propose-state services c = ground arith

  shutdown-state :
      (services : Services) (msg : Shutdown) (c c' : Channel) (answer : Option Shutdown)
      (closing : Option ClosingSigned) (dropped : List (HtlcSource × ℕ))
      → shutdown x services msg c ≡ done (answer, closing, dropped) c'
      → (c'.channel_state.remote_shutdown_sent ≡ true)
        × (c'.channel_state.local_shutdown_sent ≡ true)
  unfolding shutdown check_shutdown remote_shut_down
  shutdown-state services msg c c' answer closing dropped e =
      ground (arith, propose-state services (remote_shut_down msg c))

  send_htlc-shut :
      (amount hash cltv : ℕ) (source : HtlcSource) (onion : OnionPacket) (c : Channel)
      → c.channel_state.local_shutdown_sent ≡ true
      → send_htlc amount hash cltv source onion c ≡ failed (ignore not_operational) c
  unfolding send_htlc
  send_htlc-shut amount hash cltv source onion c h = ground arith

  update_add_htlc-shut :
      (msg : UpdateAddHtlc) (status : PendingHtlcStatus) (c : Channel)
      → c.channel_state.remote_shutdown_sent ≡ true
      → update_add_htlc msg status c ≡ failed (close not_operational) c
  unfolding update_add_htlc
  update_add_htlc-shut msg status c h = ground arith

  -- After a shutdown that is accepted, no HTLC is added any more: ours and the peer's are refused, and
  -- the channel is left as it is.
  pub shutdown-no_more_htlcs :
      (services : Services) (msg : Shutdown) (c c' : Channel) (answer : Option Shutdown)
      (closing : Option ClosingSigned) (dropped : List (HtlcSource × ℕ))
      → shutdown x services msg c ≡ done (answer, closing, dropped) c'
      → ((amount hash cltv : ℕ) (source : HtlcSource) (onion : OnionPacket)
          → send_htlc amount hash cltv source onion c' ≡ failed (ignore not_operational) c')
        × ((add : UpdateAddHtlc) (status : PendingHtlcStatus)
            → update_add_htlc add status c' ≡ failed (close not_operational) c')
  shutdown-no_more_htlcs services msg c c' answer closing dropped e =
      let (remote, local) = shutdown-state services msg c c' answer closing dropped e in
      (
        λ amount hash cltv source onion. send_htlc-shut amount hash cltv source onion c' local,
        λ add status. update_add_htlc-shut add status c' remote,
      )
