-- ===== src/Ser/Dropped.antt =====
-- lightning/src/util/ser.rs: `HighZeroBytesDroppedVarInt`, the integer without its leading zero bytes,
-- which ends where the stream ends.
use rust_lightning.Prelude.{
  ℕ, zero, suc, ◌+◌, ◌*◌, ◌/◌, ◌%◌, ◌≤◌, ◌<◌, ◌≡◌, refl, ap, ◌∙◌, Bool, false, List, [], ◌∷◌, ◌++◌,
  if◌then◌else◌, ◌==◌, take, drop, length, arith,
}
use rust_lightning.Ser.Codec.{invalid_value, ok, err, Reader, Writer, write_be, numbers}

abbrev pub drop_zeros : List ℕ → List ℕ
drop_zeros [] = []
drop_zeros (b ∷ bytes) = let rest = drop_zeros bytes in if b == 0 then rest else b ∷ bytes

unfoldable pub write_dropped : ℕ → Writer ℕ
write_dropped width n rest = drop_zeros (write_be width n []) ++ rest

-- `slice_to_be16` to `slice_to_be64`, with what was read before.
abbrev pub be_value : List ℕ → ℕ → ℕ
be_value [] acc = acc
be_value (b ∷ bytes) acc = be_value bytes (acc * 256 + b)

abbrev pub starts_with_zero : List ℕ → Bool
starts_with_zero [] = false
starts_with_zero (b ∷ bytes) = b == 0

-- The loop reads until the stream ends or the integer is full.
unfoldable pub read_dropped : ℕ → Reader ℕ
read_dropped width bytes =
    if starts_with_zero (take width bytes)
    then err invalid_value
    else ok (be_value (take width bytes) 0) (drop width bytes)

be_value-write_be :
    (width n : ℕ) (rest : List ℕ)
    → n < numbers width
    → be_value (write_be width n rest) 0 ≡ be_value rest n
unfolding write_be
be_value-write_be zero n rest h = ground arith
be_value-write_be (suc width) n rest h =
    let same : n / 256 * 256 + n % 256 ≡ n = omega arith in
    be_value-write_be width (n / 256) (n % 256 ∷ rest) (omega arith) ∙ ap (be_value rest) same

length-write_be :
    (width n : ℕ) (rest : List ℕ) → length (write_be width n rest) ≡ width + length rest
unfolding write_be
length-write_be zero n rest = omega arith
length-write_be (suc width) n rest = omega (arith, length-write_be width (n / 256) (n % 256 ∷ rest))

be_value-drop_zeros : (bytes : List ℕ) → be_value (drop_zeros bytes) 0 ≡ be_value bytes 0
be_value-drop_zeros [] = refl
be_value-drop_zeros (b ∷ bytes) = ground (arith, be_value-drop_zeros bytes)

length-drop_zeros : (bytes : List ℕ) → length (drop_zeros bytes) ≤ length bytes
length-drop_zeros [] = omega arith
length-drop_zeros (b ∷ bytes) = ground (arith, length-drop_zeros bytes)

drop_zeros-starts : (bytes : List ℕ) → starts_with_zero (drop_zeros bytes) ≡ false
drop_zeros-starts [] = refl
drop_zeros-starts (b ∷ bytes) = ground (arith, drop_zeros-starts bytes)

take-all :
    (n : ℕ) (bytes : List ℕ)
    → length bytes ≤ n
    → (take n (bytes ++ []) ≡ bytes) × (drop n (bytes ++ []) ≡ [])
take-all zero [] h = (refl, refl)
take-all (suc n) [] h = (refl, refl)
take-all zero (b ∷ bytes) h = ground arith
take-all (suc n) (b ∷ bytes) h = ground (arith, take-all n bytes (omega arith))

-- An integer of the width is read back at the end of the stream.
pub write_dropped-read_dropped :
    (width n : ℕ) → n < numbers width → read_dropped width (write_dropped width n []) ≡ ok n []
unfolding write_dropped read_dropped
write_dropped-read_dropped width n h =
    let written = write_be width n [] in
    let short : length (drop_zeros written) ≤ width =
      omega (arith, length-drop_zeros written, length-write_be width n []) in
    let (taken, dropped) = take-all width (drop_zeros written) short in
    let value = be_value-drop_zeros written ∙ be_value-write_be width n [] h in
    ground (arith, drop_zeros-starts written)
