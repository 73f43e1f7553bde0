-- ===== src/Ser/BigSize.antt =====
-- lightning/src/util/ser.rs: `BigSize`, the integer of variable length.
use rust_lightning.Prelude.{
  ℕ, zero, suc, ◌+◌, ◌*◌, ◌/◌, ◌%◌, ◌^◌, ◌≤◌, ◌<◌, ◌≡◌, List, [], ◌∷◌, if◌then◌else◌, ltb, ◌==◌,
  All, IsByte, arith, subst, inl, inr, Bool-cases,
}
use rust_lightning.Ser.Codec.{
  invalid_value, ok, Reader, Writer, ◌>>=◌, ◌>>◌, bind-ok, fail_if, IsReadBack, read_u8, write_be,
  read_be, numbers, write_be-IsReadBack,
}

unfoldable pub write_big_size : Writer ℕ
write_big_size n rest =
    if ltb n 0xfd
    then n % 256 ∷ rest
    else if ltb n 0x10000
    then 0xfd ∷ write_be 2 (n % 2 ^ 16) rest
    else if ltb n (2 ^ 32)
    then 0xfe ∷ write_be 4 (n % 2 ^ 32) rest
    else 0xff ∷ write_be 8 n rest

-- The value must not fit a shorter form.
abbrev pub read_at_least : ℕ → ℕ → Reader ℕ
read_at_least width least = (do n ← read_be width; fail_if (ltb n least) invalid_value; ok n)

unfoldable pub read_big_size : Reader ℕ
read_big_size = read_u8 >>= λ n.
    if n == 0xff
    then read_at_least 8 (2 ^ 32)
    else if n == 0xfe
    then read_at_least 4 0x10000
    else if n == 0xfd
    then read_at_least 2 0xfd
    else ok n

-- Every u64 is read back.
pub write_big_size-IsReadBack : (n : ℕ) → n < 2 ^ 64 → IsReadBack write_big_size read_big_size n
unfolding write_big_size read_big_size
write_big_size-IsReadBack n h rest = ground (
  arith,
  write_be-IsReadBack 2 (n % 2 ^ 16) (omega arith) rest,
  write_be-IsReadBack 4 (n % 2 ^ 32) (omega arith) rest,
  write_be-IsReadBack 8 n (omega arith) rest,
)

read_u8-write :
    (bytes rest : List ℕ) (n : ℕ)
    → All IsByte bytes
    → read_u8 bytes ≡ ok n rest
    → (bytes ≡ n ∷ rest) × (n < 256) × All IsByte rest
read_u8-write [] rest n h e = cc
read_u8-write (b ∷ bytes) rest n h e = ground arith

-- What a read of a fixed width has taken is what a write of the result puts there.
read_be-write :
    (width : ℕ) (bytes rest : List ℕ) (n : ℕ)
    → All IsByte bytes
    → read_be width bytes ≡ ok n rest
    → (bytes ≡ write_be width n rest) × (n < numbers width) × All IsByte rest
unfolding read_be write_be
read_be-write zero bytes rest n h e = ground arith
read_be-write (suc width) bytes rest n h e =
    let (high, mid, is_high, low_read) =
      bind-ok (read_be width) (λ high. read_u8 >>= λ low. ok (high * 256 + low)) bytes rest n e in
    let (low, end, is_low, last) =
      bind-ok read_u8 (λ low. ok (high * 256 + low)) mid rest n low_read in
    let (written, high_fits, mid_bytes) = read_be-write width bytes mid high h is_high in
    let (mid_is, low_fits, end_bytes) = read_u8-write mid end low mid_bytes is_low in
    let number : high * 256 + low ≡ n = ground arith in
    let same : end ≡ rest = ground arith in
    let is_n_high : n / 256 ≡ high = omega arith in
    let is_n_low : n % 256 ≡ low = omega arith in
    (cc, omega arith, subst (All IsByte) same end_bytes)

at_least-write :
    (width least : ℕ) (bytes rest : List ℕ) (n : ℕ)
    → All IsByte bytes
    → read_at_least width least bytes ≡ ok n rest
    → (bytes ≡ write_be width n rest) × (n < numbers width) × (least ≤ n)
at_least-write width least bytes rest n h e =
    let (m, mid, is, checked) =
      bind-ok (read_be width) (λ n. fail_if (ltb n least) invalid_value >> ok n) bytes rest n e in
    let (number, same, large) : (m ≡ n) × (mid ≡ rest) × (least ≤ n) = ground arith in
    let (written, fits, _) = read_be-write width bytes mid m h is in (cc, omega arith, large)

-- There is one encoding of each number: of bytes that are accepted, those that are taken are the
-- ones that the number is written as.
pub read_big_size-write :
    (bytes rest : List ℕ) (n : ℕ)
    → All IsByte bytes
    → read_big_size bytes ≡ ok n rest
    → bytes ≡ write_big_size n rest
unfolding read_big_size write_big_size
read_big_size-write [] rest n h e = cc
read_big_size-write (b ∷ bytes) rest n (b_fits, h) e = elim (Bool-cases (b == 0xff)) [
  | inl is8 ↦
      let (written, fits, large) = at_least-write 8 (2 ^ 32) bytes rest n h (ground arith) in
      ground arith
  | inr not8 ↦ elim (Bool-cases (b == 0xfe)) [
    | inl is4 ↦
        let (written, fits, large) = at_least-write 4 0x10000 bytes rest n h (ground arith) in
        ground arith
    | inr not4 ↦ elim (Bool-cases (b == 0xfd)) [
      | inl is2 ↦
          let (written, fits, large) = at_least-write 2 0xfd bytes rest n h (ground arith) in
          ground arith
      | inr is1 ↦ ground arith
    ]
  ]
]
