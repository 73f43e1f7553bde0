-- ===== src/Tests/Bytes.antt =====
-- Integers and messages that are written and read again.
use rust_lightning.Prelude.{
  ℕ, zero, suc, ◌≡◌, refl, Option, none, some, List, [], ◌∷◌, replicate, arith, true, ltb, All,
  IsByte,
}
use rust_lightning.Ser.Codec.{ok, read_be}
use rust_lightning.Ser.BigSize.{
  write_big_size, read_big_size, write_big_size-IsReadBack, read_big_size-write,
}
use rust_lightning.Ser.Dropped.{write_dropped, read_dropped, write_dropped-read_dropped}
use rust_lightning.Ser.Keys.{Secp, IsSecp}
use rust_lightning.Ser.Wire.{Message, read, write, read-write}
use rust_lightning.Tests.Samples.{add_message, onion}

write_big_size-IsReadBack_example :
    read_big_size (write_big_size 70000 (9 ∷ [])) ≡ ok 70000 (9 ∷ [])
write_big_size-IsReadBack_example = write_big_size-IsReadBack 70000 (omega arith) (9 ∷ [])

read_big_size-write_example : 0xfd ∷ 1 ∷ 2 ∷ 7 ∷ [] ≡ write_big_size 258 (7 ∷ [])
unfolding read_big_size read_be
read_big_size-write_example =
    read_big_size-write (0xfd ∷ 1 ∷ 2 ∷ 7 ∷ []) (7 ∷ []) 258
      (omega arith, (omega arith, (omega arith, (omega arith, tt)))) refl

write_dropped-read_dropped_example : read_dropped 8 (write_dropped 8 1000 []) ≡ ok 1000 []
write_dropped-read_dropped_example = write_dropped-read_dropped 8 1000 (omega arith)

-- A key is a number below 256 here, and a signature too.
abbrev second : List ℕ → Option ℕ
second [] = none
second (zero ∷ bytes) = none
second (suc _ ∷ []) = none
second (suc _ ∷ n ∷ bytes) = some n

abbrev padded : ℕ → ℕ → List ℕ
padded zeros n = 2 ∷ n ∷ replicate zeros 0

abbrev secp : Secp
secp = record {
  is_public_key = λ key. ltb key 256;
  is_signature = λ sig. ltb sig 256;
  serialize = padded 31;
  from_slice = second;
  serialize_compact = padded 62;
  from_compact = second;
}

zeros-IsByte : (n : ℕ) → All IsByte (replicate n 0)
zeros-IsByte zero = tt
zeros-IsByte (suc n) = (omega arith, zeros-IsByte n)

padded-IsByte : (zeros n : ℕ) → ltb n 256 ≡ true → All IsByte (padded zeros n)
padded-IsByte zeros n small = (omega arith, (ground arith, zeros-IsByte zeros))

secp-IsSecp : IsSecp secp
secp-IsSecp = record {
  serialize_length = λ key valid. refl;
  serialize_bytes = padded-IsByte 31;
  from_slice_serialize = λ key valid. refl;
  from_slice_zeros = refl;
  compact_length = λ sig valid. refl;
  compact_bytes = padded-IsByte 62;
  from_compact_serialize = λ sig valid. refl;
}

abbrev add : Message
add = Message.update_add_htlc (record add_message {
  onion_routing_packet = record onion { public_key = some 77; hop_data = replicate 1300 5 };
})

read-write_example : read secp (write secp add []) ≡ ok (some add) []
read-write_example = read-write secp secp-IsSecp add (
  omega arith,
  omega arith,
  omega arith,
  omega arith,
  omega arith,
  (omega arith, refl, refl, omega arith),
)
