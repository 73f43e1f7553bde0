-- ===== src/Channel/State.antt =====
-- lightning/src/ln/channel.rs: the state of a channel, its errors and its constants, and the form of
-- its methods.
use rust_lightning.Prelude.{ℕ, ◌+◌, ◌-◌, ◌*◌, ◌^◌, Bool, true, false, List, Option, none, some}
use rust_lightning.Config.{ChannelConfig}
use rust_lightning.Bitcoin.{OutPoint, Transaction}
use rust_lightning.ChanUtils.Keys.{TxCreationKeys, ChannelPublicKeys}
use rust_lightning.ChanUtils.Htlc.{HtlcOutputInCommitment}
use rust_lightning.ChanUtils.Secrets.{CounterpartyCommitmentSecrets}
use rust_lightning.Channel.Types.{
  HtlcSource, PendingHtlcInfo, HtlcFailReason, InboundHtlcOutput, OutboundHtlcOutput,
  HtlcUpdateAwaitingAck, RaaCommitmentOrder,
}

-- `channel_state: u32`, bit by bit. `to_u32` gives the number.
pub record ChannelState : Type 0 where
  pub our_init_sent : Bool
  pub their_init_sent : Bool
  pub funding_created : Bool
  pub funding_sent : Bool
  pub their_funding_locked : Bool
  pub our_funding_locked : Bool
  pub channel_funded : Bool
  pub peer_disconnected : Bool
  pub monitor_update_failed : Bool
  pub awaiting_remote_revoke : Bool
  pub remote_shutdown_sent : Bool
  pub local_shutdown_sent : Bool
  pub shutdown_complete : Bool

abbrev pub bit : Bool → ℕ
bit true = 1
bit false = 0

unfoldable pub to_u32 : ChannelState → ℕ
to_u32 s =
    bit s.our_init_sent
    + bit s.their_init_sent * 2
    + bit s.funding_created * 4
    + bit s.funding_sent * 8
    + bit s.their_funding_locked * 16
    + bit s.our_funding_locked * 32
    + bit s.channel_funded * 64
    + bit s.peer_disconnected * 128
    + bit s.monitor_update_failed * 256
    + bit s.awaiting_remote_revoke * 512
    + bit s.remote_shutdown_sent * 1024
    + bit s.local_shutdown_sent * 2048
    + bit s.shutdown_complete * 4096

abbrev pub initial_commitment_number : ℕ
initial_commitment_number = 2 ^ 48 - 1

abbrev pub our_max_htlcs : ℕ
our_max_htlcs = 50

abbrev pub commitment_tx_base_weight : ℕ
commitment_tx_base_weight = 724

abbrev pub commitment_tx_weight_per_htlc : ℕ
commitment_tx_weight_per_htlc = 172

abbrev pub max_funding_satoshis : ℕ
max_funding_satoshis = 2 ^ 24

-- channelmonitor.rs: what the channel tells its monitor.
pub data ChannelMonitorUpdateStep : Type 0 where
  latest_local_commitment_tx_info :
      Transaction
      → TxCreationKeys
      → ℕ
      → List (HtlcOutputInCommitment × Option ℕ × Option HtlcSource)
      → ChannelMonitorUpdateStep
  latest_remote_commitment_tx_info :
      Transaction
      → List (HtlcOutputInCommitment × Option HtlcSource)
      → ℕ
      → ℕ
      → ChannelMonitorUpdateStep
  payment_preimage : List ℕ → ChannelMonitorUpdateStep
  commitment_secret : ℕ → List ℕ → ChannelMonitorUpdateStep
  rescue_remote_commitment_tx_info : ℕ → ChannelMonitorUpdateStep
  channel_force_closed : Bool → ChannelMonitorUpdateStep

pub record ChannelMonitorUpdate : Type 0 where
  pub update_id : ℕ
  pub updates : List ChannelMonitorUpdateStep

-- The channel's copy of its monitor, as far as the channel acts on it: the steps that it was given.
pub record Channel : Type 0 where
  pub config : ChannelConfig
  pub channel_id : ℕ
  pub channel_state : ChannelState
  pub channel_outbound : Bool
  pub channel_value_satoshis : ℕ
  pub latest_monitor_update_id : ℕ
  pub commitment_seed : List ℕ
  pub our_pubkeys : ChannelPublicKeys
  pub cur_local_commitment_transaction_number : ℕ
  pub cur_remote_commitment_transaction_number : ℕ
  pub value_to_self_msat : ℕ
  pub pending_inbound_htlcs : List InboundHtlcOutput
  pub pending_outbound_htlcs : List OutboundHtlcOutput
  pub holding_cell_htlc_updates : List HtlcUpdateAwaitingAck
  pub resend_order : RaaCommitmentOrder
  pub monitor_pending_funding_locked : Bool
  pub monitor_pending_revoke_and_ack : Bool
  pub monitor_pending_commitment_signed : Bool
  pub monitor_pending_forwards : List (PendingHtlcInfo × ℕ)
  pub monitor_pending_failures : List (HtlcSource × ℕ × HtlcFailReason)
  pub pending_update_fee : Option ℕ
  pub holding_cell_update_fee : Option ℕ
  pub next_local_htlc_id : ℕ
  pub next_remote_htlc_id : ℕ
  pub update_time_counter : ℕ
  pub feerate_per_kw : ℕ
  pub last_sent_closing_fee : Option (ℕ × ℕ × ℕ)
  pub funding_txo : Option OutPoint
  pub their_dust_limit_satoshis : ℕ
  pub our_dust_limit_satoshis : ℕ
  pub their_max_htlc_value_in_flight_msat : ℕ
  pub their_channel_reserve_satoshis : ℕ
  pub their_htlc_minimum_msat : ℕ
  pub our_htlc_minimum_msat : ℕ
  pub their_to_self_delay : ℕ
  pub our_to_self_delay : ℕ
  pub their_max_accepted_htlcs : ℕ
  pub minimum_depth : ℕ
  pub shutdown_pubkey : ℕ
  pub their_shutdown_scriptpubkey : Option (List ℕ)
  pub their_pubkeys : Option ChannelPublicKeys
  pub their_cur_commitment_point : Option ℕ
  pub their_prev_commitment_point : Option ℕ
  pub channel_monitor : List ChannelMonitorUpdateStep
  pub commitment_secrets : CounterpartyCommitmentSecrets

-- What the channel asks of its signer, the trait `ChannelKeys`, and of the trait `FeeEstimator`.
pub data ConfirmationTarget : Type 0 where
  background normal high_priority : ConfirmationTarget

pub record Services : Type 0 where
  pub sign_remote_commitment :
      ℕ → Transaction → TxCreationKeys → List HtlcOutputInCommitment → ℕ → Option (ℕ × List ℕ)
  pub sign_closing_transaction : Transaction → Option ℕ
  pub get_est_sat_per_1000_weight : ConfirmationTarget → ℕ

-- The texts of the errors that the modelled methods return.
pub data Reason : Type 0 where
  not_operational needs_channel_reestablish more_than_channel_value zero_msat below_minimum : Reason
  too_many_htlcs over_max_in_flight over_reserve skipped_htlc_id cltv_in_seconds : Reason
  shutting_down disconnected_or_frozen : Reason
  incorrect_preimage not_yet_committed already_removed unknown_htlc : Reason
  after_closing_signed bogus_keys invalid_signature cannot_afford_fee wrong_signature_count : Reason
  invalid_htlc_signature no_signature : Reason
  invalid_secret wrong_secret unexpected_revoke_and_ack mismatched_secrets : Reason
  not_funder feerate_too_low feerate_too_high : Reason
  different_point strange_time : Reason
  loose_reestablish garbage_reestablish garbage_secret fallen_behind revoked_unsent : Reason
  old_local_commitment old_remote_commitment : Reason
  unfunded_shutdown remote_pending_htlcs absurd_script_length nonstandard_script : Reason
  different_script local_pending_htlcs shutdown_in_progress cannot_begin_shutdown : Reason
  not_both_shut_down still_pending_htlcs absurd_closing_fee unaffordable_closing_fee : Reason
  invalid_closing_signature no_closing_signature no_consensus : Reason
  too_much_funding pushed_too_much short_own_delay bogus_reserve no_payout_outputs : Reason
  reserve_below_dust_limit minimum_is_full_value long_delay no_accepted_htlcs : Reason
  too_many_accepted_htlcs little_funding high_minimum little_in_flight high_reserve : Reason
  few_accepted_htlcs low_dust_limit high_dust_limit other_announcement : Reason
  no_suitable_reserve small_reserve dust_limit_over_reserve little_for_commitment : Reason
  nonstandard_upfront_script no_upfront_script no_inbound_accept great_depth : Reason

pub data ChannelError : Type 0 where
  ignore close : Reason → ChannelError
  close_delay_broadcast : Reason → ChannelMonitorUpdate → ChannelError

-- lightning/src/util/errors.rs: the errors of the calls by the user.
pub data ApiError : Type 0 where
  api_misuse_error : Reason → ApiError
  fee_rate_too_high : Reason → ℕ → ApiError
  route_error : Reason → ApiError
  channel_unavailable : Reason → ApiError
  monitor_update_failed : ApiError

-- How a method ends: with a result, with an error, both with the channel that it leaves behind, or
-- with a panic.
pub data Outcome {ℓ κ} (E : Type ℓ) (A : Type κ) : Type (ℓ ⊔ κ) where
  done : A → Channel → Outcome E A
  failed : E → Channel → Outcome E A
  panicked : Outcome E A

abbrev pub Method {ℓ κ} : Type ℓ → Type κ → Type (ℓ ⊔ κ)
Method E A = Channel → Outcome E A

infixl 5 ◌>>=◌ ◌>>◌
abbrev pub ◌>>=◌ {ℓ κ μ} :
    {E : Type ℓ} {A : Type κ} {B : Type μ} → Method E A → (A → Method E B) → Method E B
◌>>=◌ m f c = elim (m c) [ done a c' ↦ f a c' | failed e c' ↦ failed e c' | panicked ↦ panicked ]

abbrev pub ◌>>◌ {ℓ κ μ} :
    {E : Type ℓ} {A : Type κ} {B : Type μ} → Method E A → Method E B → Method E B
m >> k = m >>= λ _. k

-- An early return with an error, a panic, and the end of a method.
abbrev pub raise_if {ℓ} : {E : Type ℓ} → Bool → E → Method E (Unit {0})
raise_if true e c = failed e c
raise_if false e c = done tt c

abbrev pub panic_if {ℓ} : {E : Type ℓ} → Bool → Method E (Unit {0})
panic_if true c = panicked
panic_if false c = done tt c

abbrev pub unwrap {ℓ κ} : {E : Type ℓ} {A : Type κ} → Option A → Method E A
unwrap none c = panicked
unwrap (some a) c = done a c

abbrev pub modify {ℓ} : {E : Type ℓ} → (Channel → Channel) → Method E (Unit {0})
modify f c = done tt (f c)

abbrev pub when {ℓ κ} : {E : Type ℓ} {A : Type κ} → Bool → Method E A → Method E (Option A)
when true m = m >>= λ a. done (some a)
when false m = done none

-- The channel that a call leaves behind, unless it panics.
abbrev pub Leaves {ℓ κ μ} : {E : Type ℓ} {A : Type κ} → (Channel → Type μ) → Outcome E A → Type μ
Leaves P (done a c) = P c
Leaves P (failed e c) = P c
Leaves P panicked = Unit
