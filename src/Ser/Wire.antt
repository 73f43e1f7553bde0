-- ===== src/Ser/Wire.antt =====
-- lightning/src/ln/wire.rs: a channel's message on the wire, its type of two bytes and then itself.
use rust_lightning.Prelude.{ℕ, ◌≡◌, Option, none, some, [], ◌==◌, if◌then◌else◌, arith, ◌<◌}
use rust_lightning.Msgs.{
  UpdateAddHtlc, UpdateFulfillHtlc, UpdateFailHtlc, UpdateFailMalformedHtlc, CommitmentSigned,
  RevokeAndAck, UpdateFee, ClosingSigned, FundingLocked, Shutdown, ChannelReestablish,
}
use rust_lightning.Ser.Codec.{
  ok, Reader, Writer, ◌>>=◌, write_be, read_be, numbers, write_be-IsReadBack,
}
use rust_lightning.Ser.Keys.{Secp, IsSecp}
use rust_lightning.Ser.Updates.{
  write_update_fulfill_htlc, read_update_fulfill_htlc, write_update_fail_htlc,
  read_update_fail_htlc, write_update_fail_malformed_htlc, read_update_fail_malformed_htlc,
  write_update_fee, read_update_fee, write_shutdown, read_shutdown, FitsFulfill, FitsFail,
  FitsMalformed, FitsFee, FitsShutdown, update_fulfill_htlc-IsReadBack, update_fail_htlc-IsReadBack,
  update_fail_malformed_htlc-IsReadBack, update_fee-IsReadBack, shutdown-IsReadBack,
}
use rust_lightning.Ser.Messages.{
  write_update_add_htlc, read_update_add_htlc, write_commitment_signed, read_commitment_signed,
  write_revoke_and_ack, read_revoke_and_ack, write_closing_signed, read_closing_signed,
  write_funding_locked, read_funding_locked, write_channel_reestablish, read_channel_reestablish,
}
use rust_lightning.Ser.Back.{
  FitsAdd, FitsSigned, FitsRevoke, FitsClosing, FitsLocked, FitsReestablish,
  update_add_htlc-IsReadBack, commitment_signed-IsReadBack, revoke_and_ack-IsReadBack,
  closing_signed-IsReadBack, funding_locked-IsReadBack, channel_reestablish-back,
}

-- The messages of `Message` that a channel exchanges once it is funded.
pub data Message : Type 0 where
  funding_locked : FundingLocked → Message
  shutdown : Shutdown → Message
  closing_signed : ClosingSigned → Message
  update_add_htlc : UpdateAddHtlc → Message
  update_fulfill_htlc : UpdateFulfillHtlc → Message
  update_fail_htlc : UpdateFailHtlc → Message
  update_fail_malformed_htlc : UpdateFailMalformedHtlc → Message
  commitment_signed : CommitmentSigned → Message
  revoke_and_ack : RevokeAndAck → Message
  update_fee : UpdateFee → Message
  channel_reestablish : ChannelReestablish → Message

-- The constants `TYPE`.
unfoldable pub type_id : Message → ℕ
type_id (funding_locked _) = 36
type_id (shutdown _) = 38
type_id (closing_signed _) = 39
type_id (update_add_htlc _) = 128
type_id (update_fulfill_htlc _) = 130
type_id (update_fail_htlc _) = 131
type_id (commitment_signed _) = 132
type_id (revoke_and_ack _) = 133
type_id (update_fee _) = 134
type_id (update_fail_malformed_htlc _) = 135
type_id (channel_reestablish _) = 136

abbrev pub as_message {ℓ} : {A : Type ℓ} → (A → Message) → Reader A → Reader (Option Message)
as_message make read = read >>= λ msg. ok (some (make msg))

-- Each field has its width, and the keys and signatures are such.
abbrev pub Fits : Secp → Message → Type 0
Fits secp (funding_locked msg) = FitsLocked secp msg
Fits secp (shutdown msg) = FitsShutdown msg
Fits secp (closing_signed msg) = FitsClosing secp msg
Fits secp (update_add_htlc msg) = FitsAdd secp msg
Fits secp (update_fulfill_htlc msg) = FitsFulfill msg
Fits secp (update_fail_htlc msg) = FitsFail msg
Fits secp (update_fail_malformed_htlc msg) = FitsMalformed msg
Fits secp (commitment_signed msg) = FitsSigned secp msg
Fits secp (revoke_and_ack msg) = FitsRevoke secp msg
Fits secp (update_fee msg) = FitsFee msg
Fits secp (channel_reestablish msg) = FitsReestablish secp msg

module _ (secp : Secp) where
  unfoldable pub write_payload : Writer Message
  write_payload (funding_locked msg) = write_funding_locked secp msg
  write_payload (shutdown msg) = write_shutdown msg
  write_payload (closing_signed msg) = write_closing_signed secp msg
  write_payload (update_add_htlc msg) = write_update_add_htlc secp msg
  write_payload (update_fulfill_htlc msg) = write_update_fulfill_htlc msg
  write_payload (update_fail_htlc msg) = write_update_fail_htlc msg
  write_payload (update_fail_malformed_htlc msg) = write_update_fail_malformed_htlc msg
  write_payload (commitment_signed msg) = write_commitment_signed secp msg
  write_payload (revoke_and_ack msg) = write_revoke_and_ack secp msg
  write_payload (update_fee msg) = write_update_fee msg
  write_payload (channel_reestablish msg) = write_channel_reestablish secp msg

  -- The payload, by the type; `none` for a type that is none of these.
  unfoldable pub read_payload : ℕ → Reader (Option Message)
  read_payload message_type =
      if message_type == 36
      then as_message funding_locked (read_funding_locked secp)
      else if message_type == 38
      then as_message shutdown read_shutdown
      else if message_type == 39
      then as_message closing_signed (read_closing_signed secp)
      else if message_type == 128
      then as_message update_add_htlc (read_update_add_htlc secp)
      else if message_type == 130
      then as_message update_fulfill_htlc read_update_fulfill_htlc
      else if message_type == 131
      then as_message update_fail_htlc read_update_fail_htlc
      else if message_type == 135
      then as_message update_fail_malformed_htlc read_update_fail_malformed_htlc
      else if message_type == 132
      then as_message commitment_signed (read_commitment_signed secp)
      else if message_type == 133
      then as_message revoke_and_ack (read_revoke_and_ack secp)
      else if message_type == 134
      then as_message update_fee read_update_fee
      else if message_type == 136
      then as_message channel_reestablish (read_channel_reestablish secp)
      else ok none

  unfoldable pub write : Writer Message
  unfolding write_payload type_id
  write message rest = write_be 2 (type_id message) (write_payload message rest)

  unfoldable pub read : Reader (Option Message)
  unfolding read_payload
  read = read_be 2 >>= read_payload

  module _ (laws : IsSecp secp) where
    payload-back :
        (message : Message)
        → Fits secp message
        → read_payload (type_id message) (write_payload message []) ≡ ok (some message) []
    unfolding read_payload write_payload type_id
    payload-back (funding_locked msg) fits =
        ground (arith, funding_locked-IsReadBack secp laws msg fits [])
    payload-back (shutdown msg) fits = ground (arith, shutdown-IsReadBack msg fits [])
    payload-back (closing_signed msg) fits =
        ground (arith, closing_signed-IsReadBack secp laws msg fits [])
    payload-back (update_add_htlc msg) fits =
        ground (arith, update_add_htlc-IsReadBack secp laws msg fits [])
    payload-back (update_fulfill_htlc msg) fits =
        ground (arith, update_fulfill_htlc-IsReadBack msg fits [])
    payload-back (update_fail_htlc msg) fits =
        ground (arith, update_fail_htlc-IsReadBack msg fits [])
    payload-back (update_fail_malformed_htlc msg) fits =
        ground (arith, update_fail_malformed_htlc-IsReadBack msg fits [])
    payload-back (commitment_signed msg) fits =
        ground (arith, commitment_signed-IsReadBack secp laws msg fits [])
    payload-back (revoke_and_ack msg) fits =
        ground (arith, revoke_and_ack-IsReadBack secp laws msg fits [])
    payload-back (update_fee msg) fits = ground (arith, update_fee-IsReadBack msg fits [])
    payload-back (channel_reestablish msg) fits =
        ground (arith, channel_reestablish-back secp laws msg fits)

    type_id-fits : (message : Message) → type_id message < numbers 2
    unfolding type_id
    type_id-fits (funding_locked _) = omega arith
    type_id-fits (shutdown _) = omega arith
    type_id-fits (closing_signed _) = omega arith
    type_id-fits (update_add_htlc _) = omega arith
    type_id-fits (update_fulfill_htlc _) = omega arith
    type_id-fits (update_fail_htlc _) = omega arith
    type_id-fits (update_fail_malformed_htlc _) = omega arith
    type_id-fits (commitment_signed _) = omega arith
    type_id-fits (revoke_and_ack _) = omega arith
    type_id-fits (update_fee _) = omega arith
    type_id-fits (channel_reestablish _) = omega arith

    -- A message of a funded channel whose fields have their widths, and whose keys and signatures are
    -- such, is read back from the wire as it was written, with nothing left over, if the formats of
    -- keys and signatures are those of the laws: the types tell the messages apart, and every field
    -- keeps its value.
    pub read-write :
        (message : Message) → Fits secp message → read (write message []) ≡ ok (some message) []
    unfolding read write
    read-write message fits = ground (
      arith,
      write_be-IsReadBack 2 (type_id message) (type_id-fits message) (write_payload message []),
      payload-back message fits,
    )
