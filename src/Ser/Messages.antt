-- ===== src/Ser/Messages.antt =====
-- lightning/src/ln/msgs.rs: the messages with keys and signatures as bytes, field after field.
use rust_lightning.Prelude.{ℕ, ◌*◌, Option, none, some, List, [], ◌++◌, replicate}
use rust_lightning.Msgs.{
  OnionPacket, UpdateAddHtlc, CommitmentSigned, RevokeAndAck, ClosingSigned, FundingLocked,
  ChannelReestablish, DataLossProtect, OptionalField, present, absent,
}
use rust_lightning.Ser.Codec.{
  short_read, ok, err, Reader, Writer, ◌>>=◌, write_be, read_be, read_exact,
}
use rust_lightning.Ser.Updates.{write_u32, write_u64, write_array}
use rust_lightning.Ser.Keys.{
  Secp, write_key, read_key, write_signature, read_signature, write_signatures, read_signatures,
}

abbrev pub hop_data_bytes : ℕ
hop_data_bytes = 20 * 65

module _ (secp : Secp) where
  -- The key may be invalid; zeros are written for it.
  abbrev pub onion_key : Option ℕ → List ℕ
  onion_key none = replicate 33 0
  onion_key (some key) = secp.serialize key

  unfoldable pub write_onion_packet : Writer OnionPacket
  write_onion_packet packet rest =
      write_be 1 packet.version
        (onion_key packet.public_key ++ (packet.hop_data ++ write_array packet.hmac rest))

  unfoldable pub read_onion_packet : Reader OnionPacket
  read_onion_packet = (do
    version ← read_be 1
    key ← read_exact 33
    hop_data ← read_exact hop_data_bytes
    hmac ← read_be 32
    ok (record {
      version = version;
      public_key = secp.from_slice key;
      hop_data = hop_data;
      hmac = hmac;
    }))

  unfoldable pub write_update_add_htlc : Writer UpdateAddHtlc
  write_update_add_htlc msg rest = write_array msg.channel_id (
      write_u64 msg.htlc_id (
        write_u64 msg.amount_msat (
          write_array msg.payment_hash
            (write_u32 msg.cltv_expiry (write_onion_packet msg.onion_routing_packet rest)))))

  unfoldable pub read_update_add_htlc : Reader UpdateAddHtlc
  read_update_add_htlc = (do
    channel_id ← read_be 32
    htlc_id ← read_be 8
    amount_msat ← read_be 8
    payment_hash ← read_be 32
    cltv_expiry ← read_be 4
    onion ← read_onion_packet
    ok (record {
      channel_id = channel_id;
      htlc_id = htlc_id;
      amount_msat = amount_msat;
      payment_hash = payment_hash;
      cltv_expiry = cltv_expiry;
      onion_routing_packet = onion;
    }))

  unfoldable pub write_commitment_signed : Writer CommitmentSigned
  write_commitment_signed msg rest =
      write_array msg.channel_id
        (write_signature secp msg.signature (write_signatures secp msg.htlc_signatures rest))

  unfoldable pub read_commitment_signed : Reader CommitmentSigned
  read_commitment_signed = (do
    channel_id ← read_be 32
    signature ← read_signature secp
    htlc_signatures ← read_signatures secp
    ok (record {
      channel_id = channel_id;
      signature = signature;
      htlc_signatures = htlc_signatures;
    }))

  unfoldable pub write_revoke_and_ack : Writer RevokeAndAck
  write_revoke_and_ack msg rest =
      write_array msg.channel_id
        (msg.per_commitment_secret ++ write_key secp msg.next_per_commitment_point rest)

  unfoldable pub read_revoke_and_ack : Reader RevokeAndAck
  read_revoke_and_ack = (do
    channel_id ← read_be 32
    secret ← read_exact 32
    point ← read_key secp
    ok (record {
      channel_id = channel_id;
      per_commitment_secret = secret;
      next_per_commitment_point = point;
    }))

  unfoldable pub write_closing_signed : Writer ClosingSigned
  write_closing_signed msg rest =
      write_array msg.channel_id
        (write_u64 msg.fee_satoshis (write_signature secp msg.signature rest))

  unfoldable pub read_closing_signed : Reader ClosingSigned
  read_closing_signed = (do
    channel_id ← read_be 32
    fee_satoshis ← read_be 8
    signature ← read_signature secp
    ok (record { channel_id = channel_id; fee_satoshis = fee_satoshis; signature = signature }))

  unfoldable pub write_funding_locked : Writer FundingLocked
  write_funding_locked msg rest =
      write_array msg.channel_id (write_key secp msg.next_per_commitment_point rest)

  unfoldable pub read_funding_locked : Reader FundingLocked
  read_funding_locked = (do
    channel_id ← read_be 32
    point ← read_key secp
    ok (record { channel_id = channel_id; next_per_commitment_point = point }))

  unfoldable pub write_data_loss : Writer (OptionalField DataLossProtect)
  write_data_loss absent rest = rest
  write_data_loss (present data_loss) rest =
      data_loss.your_last_per_commitment_secret
      ++ write_key secp data_loss.my_current_per_commitment_point rest

  unfoldable pub write_channel_reestablish : Writer ChannelReestablish
  write_channel_reestablish msg rest = write_array msg.channel_id (
      write_u64 msg.next_local_commitment_number
        (write_u64 msg.next_remote_commitment_number (write_data_loss msg.data_loss_protect rest)))

  -- A stream that is too short for the secret means that the field is absent; what there is of it has
  -- been read.
  unfoldable pub read_data_loss : Reader (OptionalField DataLossProtect)
  read_data_loss bytes = elim (read_exact 32 bytes) [
    | err short_read ↦ ok absent []
    | err e ↦ err e
    | ok secret rest ↦
        (do
          point ← read_key secp
          ok (
              present (record {
                your_last_per_commitment_secret = secret;
                my_current_per_commitment_point = point;
              })))
          rest
  ]

  unfoldable pub read_channel_reestablish : Reader ChannelReestablish
  read_channel_reestablish = (do
    channel_id ← read_be 32
    next_local ← read_be 8
    next_remote ← read_be 8
    data_loss_protect ← read_data_loss
    ok (record {
      channel_id = channel_id;
      next_local_commitment_number = next_local;
      next_remote_commitment_number = next_remote;
      data_loss_protect = data_loss_protect;
    }))
