-- ===== src/Ser/Updates.antt =====
-- lightning/src/ln/msgs.rs: the messages without keys as bytes, field after field, as the macros
-- `impl_writeable!` and `impl_writeable_len_match!` of util/ser_macros.rs write and read them.
use rust_lightning.Prelude.{ℕ, ◌≡◌, ◌<◌, ◌^◌, ◌++◌, length, arith}
use rust_lightning.Msgs.{
  UpdateFulfillHtlc, UpdateFailHtlc, UpdateFailMalformedHtlc, UpdateFee, Shutdown,
}
use rust_lightning.Ser.Codec.{
  ok, Reader, Writer, ◌>>=◌, IsReadBack, numbers, write_be, read_be, write_be-IsReadBack,
  read_exact, write_vec, read_vec, write_vec-IsReadBack,
}
use rust_lightning.Ser.Keys.{read_exact-length}

-- Integers and 32 byte arrays that stand as numbers.
abbrev pub write_u16 : Writer ℕ
write_u16 = write_be 2

abbrev pub write_u32 : Writer ℕ
write_u32 = write_be 4

abbrev pub write_u64 : Writer ℕ
write_u64 = write_be 8

abbrev pub write_array : Writer ℕ
write_array = write_be 32

unfoldable pub write_update_fulfill_htlc : Writer UpdateFulfillHtlc
write_update_fulfill_htlc msg rest =
    write_array msg.channel_id (write_u64 msg.htlc_id (msg.payment_preimage ++ rest))

unfoldable pub read_update_fulfill_htlc : Reader UpdateFulfillHtlc
read_update_fulfill_htlc = (do
  channel_id ← read_be 32
  htlc_id ← read_be 8
  preimage ← read_exact 32
  ok (record { channel_id = channel_id; htlc_id = htlc_id; payment_preimage = preimage }))

unfoldable pub write_update_fail_htlc : Writer UpdateFailHtlc
write_update_fail_htlc msg rest =
    write_array msg.channel_id (write_u64 msg.htlc_id (write_vec msg.reason.packet rest))

unfoldable pub read_update_fail_htlc : Reader UpdateFailHtlc
read_update_fail_htlc = (do
  channel_id ← read_be 32
  htlc_id ← read_be 8
  packet ← read_vec
  ok (record { channel_id = channel_id; htlc_id = htlc_id; reason = record { packet = packet } }))

unfoldable pub write_update_fail_malformed_htlc : Writer UpdateFailMalformedHtlc
write_update_fail_malformed_htlc msg rest =
    write_array msg.channel_id
      (write_u64 msg.htlc_id (write_array msg.sha256_of_onion (write_u16 msg.failure_code rest)))

unfoldable pub read_update_fail_malformed_htlc : Reader UpdateFailMalformedHtlc
read_update_fail_malformed_htlc = (do
  channel_id ← read_be 32
  htlc_id ← read_be 8
  sha256_of_onion ← read_be 32
  failure_code ← read_be 2
  ok (record {
    channel_id = channel_id;
    htlc_id = htlc_id;
    sha256_of_onion = sha256_of_onion;
    failure_code = failure_code;
  }))

unfoldable pub write_update_fee : Writer UpdateFee
write_update_fee msg rest = write_array msg.channel_id (write_u32 msg.feerate_per_kw rest)

unfoldable pub read_update_fee : Reader UpdateFee
read_update_fee = (do
  channel_id ← read_be 32
  feerate_per_kw ← read_be 4
  ok (record { channel_id = channel_id; feerate_per_kw = feerate_per_kw }))

unfoldable pub write_shutdown : Writer Shutdown
write_shutdown msg rest = write_array msg.channel_id (write_vec msg.scriptpubkey rest)

unfoldable pub read_shutdown : Reader Shutdown
read_shutdown = (do
  channel_id ← read_be 32
  scriptpubkey ← read_vec
  ok (record { channel_id = channel_id; scriptpubkey = scriptpubkey }))

-- The fields have their widths.
abbrev pub FitsFulfill : UpdateFulfillHtlc → Type 0
FitsFulfill msg =
    (msg.channel_id < numbers 32) × (msg.htlc_id < numbers 8) × (length msg.payment_preimage ≡ 32)

abbrev pub FitsFail : UpdateFailHtlc → Type 0
FitsFail msg =
    (msg.channel_id < numbers 32) × (msg.htlc_id < numbers 8) × (length msg.reason.packet < 2 ^ 16)

abbrev pub FitsMalformed : UpdateFailMalformedHtlc → Type 0
FitsMalformed msg =
    (msg.channel_id < numbers 32)
    × (msg.htlc_id < numbers 8)
    × (msg.sha256_of_onion < numbers 32)
    × (msg.failure_code < numbers 2)

abbrev pub FitsFee : UpdateFee → Type 0
FitsFee msg = (msg.channel_id < numbers 32) × (msg.feerate_per_kw < numbers 4)

abbrev pub FitsShutdown : Shutdown → Type 0
FitsShutdown msg = (msg.channel_id < numbers 32) × (length msg.scriptpubkey < 2 ^ 16)

pub update_fulfill_htlc-IsReadBack :
    (msg : UpdateFulfillHtlc)
    → FitsFulfill msg
    → IsReadBack write_update_fulfill_htlc read_update_fulfill_htlc msg
unfolding write_update_fulfill_htlc read_update_fulfill_htlc
update_fulfill_htlc-IsReadBack msg (id, htlc, preimage) rest =
    let after_id = msg.payment_preimage ++ rest in
    ground (
      arith,
      write_be-IsReadBack 32 msg.channel_id id (write_u64 msg.htlc_id after_id),
      write_be-IsReadBack 8 msg.htlc_id htlc after_id,
      read_exact-length 32 msg.payment_preimage rest preimage,
    )

pub update_fail_htlc-IsReadBack :
    (msg : UpdateFailHtlc)
    → FitsFail msg
    → IsReadBack write_update_fail_htlc read_update_fail_htlc msg
unfolding write_update_fail_htlc read_update_fail_htlc
update_fail_htlc-IsReadBack msg (id, htlc, packet) rest =
    let after_id = write_vec msg.reason.packet rest in
    ground (
      arith,
      write_be-IsReadBack 32 msg.channel_id id (write_u64 msg.htlc_id after_id),
      write_be-IsReadBack 8 msg.htlc_id htlc after_id,
      write_vec-IsReadBack msg.reason.packet packet rest,
    )

pub update_fail_malformed_htlc-IsReadBack :
    (msg : UpdateFailMalformedHtlc)
    → FitsMalformed msg
    → IsReadBack write_update_fail_malformed_htlc read_update_fail_malformed_htlc msg
unfolding write_update_fail_malformed_htlc read_update_fail_malformed_htlc
update_fail_malformed_htlc-IsReadBack msg (id, htlc, onion, code) rest =
    let after_onion = write_u16 msg.failure_code rest in
    let after_id = write_array msg.sha256_of_onion after_onion in
    ground (
      arith,
      write_be-IsReadBack 32 msg.channel_id id (write_u64 msg.htlc_id after_id),
      write_be-IsReadBack 8 msg.htlc_id htlc after_id,
      write_be-IsReadBack 32 msg.sha256_of_onion onion after_onion,
      write_be-IsReadBack 2 msg.failure_code code rest,
    )

pub update_fee-IsReadBack :
    (msg : UpdateFee) → FitsFee msg → IsReadBack write_update_fee read_update_fee msg
unfolding write_update_fee read_update_fee
update_fee-IsReadBack msg (id, feerate) rest = ground (
  arith,
  write_be-IsReadBack 32 msg.channel_id id (write_u32 msg.feerate_per_kw rest),
  write_be-IsReadBack 4 msg.feerate_per_kw feerate rest,
)

pub shutdown-IsReadBack :
    (msg : Shutdown) → FitsShutdown msg → IsReadBack write_shutdown read_shutdown msg
unfolding write_shutdown read_shutdown
shutdown-IsReadBack msg (id, script) rest = ground (
  arith,
  write_be-IsReadBack 32 msg.channel_id id (write_vec msg.scriptpubkey rest),
  write_vec-IsReadBack msg.scriptpubkey script rest,
)
