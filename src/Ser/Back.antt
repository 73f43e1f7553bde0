-- ===== src/Ser/Back.antt =====
-- The messages with keys and signatures are read back.
use rust_lightning.Prelude.{
  ℕ, ◌*◌, ◌≤◌, ◌<◌, ◌≡◌, refl, Option, none, some, [], ◌++◌, length, arith, All,
}
use rust_lightning.Msgs.{
  OnionPacket, UpdateAddHtlc, CommitmentSigned, RevokeAndAck, ClosingSigned, FundingLocked,
  ChannelReestablish, DataLossProtect, OptionalField, present, absent,
}
use rust_lightning.Ser.Codec.{ok, IsReadBack, numbers, write_be-IsReadBack, read_exact}
use rust_lightning.Ser.Keys.{
  Secp, IsSecp, IsKey, IsSignature, write_key, write_signature, write_signatures, read_exact-length,
  write_key-IsReadBack, write_signature-IsReadBack, write_signatures-IsReadBack,
}
use rust_lightning.Ser.Updates.{write_u32, write_u64, write_array}
use rust_lightning.Ser.Messages.{
  hop_data_bytes, onion_key, write_data_loss, write_onion_packet, read_onion_packet,
  write_update_add_htlc, read_update_add_htlc, write_commitment_signed, read_commitment_signed,
  write_revoke_and_ack, read_revoke_and_ack, write_closing_signed, read_closing_signed,
  write_funding_locked, read_funding_locked, write_channel_reestablish, read_data_loss,
  read_channel_reestablish,
}

-- The fields have their widths, and the keys and signatures are such.
module _ (secp : Secp) where
  -- A key of an onion may be an invalid one.
  abbrev pub FitsKey : Option ℕ → Type 0
  FitsKey none = Unit
  FitsKey (some key) = IsKey secp key

  abbrev pub FitsOnion : OnionPacket → Type 0
  FitsOnion packet =
      (packet.version < numbers 1)
      × FitsKey packet.public_key
      × (length packet.hop_data ≡ hop_data_bytes)
      × (packet.hmac < numbers 32)

  abbrev pub FitsAdd : UpdateAddHtlc → Type 0
  FitsAdd msg =
      (msg.channel_id < numbers 32)
      × (msg.htlc_id < numbers 8)
      × (msg.amount_msat < numbers 8)
      × (msg.payment_hash < numbers 32)
      × (msg.cltv_expiry < numbers 4)
      × FitsOnion msg.onion_routing_packet

  abbrev pub FitsSigned : CommitmentSigned → Type 0
  FitsSigned msg =
      (msg.channel_id < numbers 32)
      × IsSignature secp msg.signature
      × (length msg.htlc_signatures * 33 ≤ 64 * 1024)
      × All (IsSignature secp) msg.htlc_signatures

  abbrev pub FitsRevoke : RevokeAndAck → Type 0
  FitsRevoke msg =
      (msg.channel_id < numbers 32)
      × (length msg.per_commitment_secret ≡ 32)
      × IsKey secp msg.next_per_commitment_point

  abbrev pub FitsClosing : ClosingSigned → Type 0
  FitsClosing msg =
      (msg.channel_id < numbers 32)
      × (msg.fee_satoshis < numbers 8)
      × IsSignature secp msg.signature

  abbrev pub FitsLocked : FundingLocked → Type 0
  FitsLocked msg = (msg.channel_id < numbers 32) × IsKey secp msg.next_per_commitment_point

  abbrev pub FitsDataLoss : OptionalField DataLossProtect → Type 0
  FitsDataLoss absent = Unit
  FitsDataLoss (present data_loss) =
      (length data_loss.your_last_per_commitment_secret ≡ 32)
      × IsKey secp data_loss.my_current_per_commitment_point

  abbrev pub FitsReestablish : ChannelReestablish → Type 0
  FitsReestablish msg =
      (msg.channel_id < numbers 32)
      × (msg.next_local_commitment_number < numbers 8)
      × (msg.next_remote_commitment_number < numbers 8)
      × FitsDataLoss msg.data_loss_protect

module _ (secp : Secp) (laws : IsSecp secp) where
  onion_key-back :
      (key : Option ℕ)
      → FitsKey secp key
      → (length (onion_key secp key) ≡ 33) × (secp.from_slice (onion_key secp key) ≡ key)
  onion_key-back none fits = (refl, laws.from_slice_zeros)
  onion_key-back (some key) fits =
      (laws.serialize_length key fits, laws.from_slice_serialize key fits)

  onion_packet-IsReadBack :
      (packet : OnionPacket)
      → FitsOnion secp packet
      → IsReadBack (write_onion_packet secp) (read_onion_packet secp) packet
  unfolding write_onion_packet read_onion_packet
  onion_packet-IsReadBack packet (version, valid, hops, hmac) rest =
      let after_hops = write_array packet.hmac rest in
      let after_key = packet.hop_data ++ after_hops in
      let key = onion_key secp packet.public_key in
      let (long, same) = onion_key-back packet.public_key valid in
      ground (
        arith,
        write_be-IsReadBack 1 packet.version version (key ++ after_key),
        read_exact-length 33 key after_key long,
        read_exact-length hop_data_bytes packet.hop_data after_hops hops,
        write_be-IsReadBack 32 packet.hmac hmac rest,
      )

  pub update_add_htlc-IsReadBack :
      (msg : UpdateAddHtlc)
      → FitsAdd secp msg
      → IsReadBack (write_update_add_htlc secp) (read_update_add_htlc secp) msg
  unfolding write_update_add_htlc read_update_add_htlc
  update_add_htlc-IsReadBack msg (id, htlc, amount, hash, expiry, onion) rest =
      let after_expiry = write_onion_packet secp msg.onion_routing_packet rest in
      let after_hash = write_u32 msg.cltv_expiry after_expiry in
      let after_amount = write_array msg.payment_hash after_hash in
      let after_htlc = write_u64 msg.amount_msat after_amount in
      ground (
        arith,
        write_be-IsReadBack 32 msg.channel_id id (write_u64 msg.htlc_id after_htlc),
        write_be-IsReadBack 8 msg.htlc_id htlc after_htlc,
        write_be-IsReadBack 8 msg.amount_msat amount after_amount,
        write_be-IsReadBack 32 msg.payment_hash hash after_hash,
        write_be-IsReadBack 4 msg.cltv_expiry expiry after_expiry,
        onion_packet-IsReadBack msg.onion_routing_packet onion rest,
      )

  pub commitment_signed-IsReadBack :
      (msg : CommitmentSigned)
      → FitsSigned secp msg
      → IsReadBack (write_commitment_signed secp) (read_commitment_signed secp) msg
  unfolding write_commitment_signed read_commitment_signed
  commitment_signed-IsReadBack msg (id, sig, count, sigs) rest =
      let after_signature = write_signatures secp msg.htlc_signatures rest in
      ground (
        arith,
        write_be-IsReadBack 32 msg.channel_id id
            (write_signature secp msg.signature after_signature),
        write_signature-IsReadBack secp laws msg.signature sig after_signature,
        write_signatures-IsReadBack secp laws msg.htlc_signatures count sigs rest,
      )

  pub revoke_and_ack-IsReadBack :
      (msg : RevokeAndAck)
      → FitsRevoke secp msg
      → IsReadBack (write_revoke_and_ack secp) (read_revoke_and_ack secp) msg
  unfolding write_revoke_and_ack read_revoke_and_ack
  revoke_and_ack-IsReadBack msg (id, secret, point) rest =
      let after_secret = write_key secp msg.next_per_commitment_point rest in
      ground (
        arith,
        write_be-IsReadBack 32 msg.channel_id id (msg.per_commitment_secret ++ after_secret),
        read_exact-length 32 msg.per_commitment_secret after_secret secret,
        write_key-IsReadBack secp laws msg.next_per_commitment_point point rest,
      )

  pub closing_signed-IsReadBack :
      (msg : ClosingSigned)
      → FitsClosing secp msg
      → IsReadBack (write_closing_signed secp) (read_closing_signed secp) msg
  unfolding write_closing_signed read_closing_signed
  closing_signed-IsReadBack msg (id, fee, sig) rest =
      let after_fee = write_signature secp msg.signature rest in
      ground (
        arith,
        write_be-IsReadBack 32 msg.channel_id id (write_u64 msg.fee_satoshis after_fee),
        write_be-IsReadBack 8 msg.fee_satoshis fee after_fee,
        write_signature-IsReadBack secp laws msg.signature sig rest,
      )

  pub funding_locked-IsReadBack :
      (msg : FundingLocked)
      → FitsLocked secp msg
      → IsReadBack (write_funding_locked secp) (read_funding_locked secp) msg
  unfolding write_funding_locked read_funding_locked
  funding_locked-IsReadBack msg (id, point) rest = ground (
    arith,
    write_be-IsReadBack 32 msg.channel_id id (write_key secp msg.next_per_commitment_point rest),
    write_key-IsReadBack secp laws msg.next_per_commitment_point point rest,
  )

  data_loss-back :
      (data_loss : OptionalField DataLossProtect)
      → FitsDataLoss secp data_loss
      → read_data_loss secp (write_data_loss secp data_loss []) ≡ ok data_loss []
  unfolding write_data_loss read_data_loss read_exact
  data_loss-back absent fits = refl
  data_loss-back (present data_loss) (secret, point) =
      let after_secret = write_key secp data_loss.my_current_per_commitment_point [] in
      ground (
        arith,
        read_exact-length 32 data_loss.your_last_per_commitment_secret after_secret secret,
        write_key-IsReadBack secp laws data_loss.my_current_per_commitment_point point [],
      )

  -- The last field is optional, so the message is read back at the end of a stream.
  pub channel_reestablish-back :
      (msg : ChannelReestablish)
      → FitsReestablish secp msg
      → read_channel_reestablish secp (write_channel_reestablish secp msg []) ≡ ok msg []
  unfolding write_channel_reestablish read_channel_reestablish
  channel_reestablish-back msg (id, local, remote, data_loss) =
      let after_remote = write_data_loss secp msg.data_loss_protect [] in
      let after_local = write_u64 msg.next_remote_commitment_number after_remote in
      ground (
        arith,
        write_be-IsReadBack 32 msg.channel_id id
            (write_u64 msg.next_local_commitment_number after_local),
        write_be-IsReadBack 8 msg.next_local_commitment_number local after_local,
        write_be-IsReadBack 8 msg.next_remote_commitment_number remote after_remote,
        data_loss-back msg.data_loss_protect data_loss,
      )
