-- ===== src/Ser/Codec.antt =====
-- lightning/src/util/ser.rs and util/byte_utils.rs: streams, integers and byte strings.
use rust_lightning.Prelude.{
  ℕ, zero, suc, ◌+◌, ◌*◌, ◌/◌, ◌%◌, ◌^◌, ◌<◌, ◌≡◌, refl, Bool, true, false, List, [], ◌∷◌, ◌++◌,
  length, arith,
}

-- lightning/src/ln/msgs.rs; an error of the stream itself is left out, since a stream is a list here.
pub data DecodeError : Type 0 where
  unknown_version unknown_required_feature invalid_value short_read bad_length_descriptor :
      DecodeError

pub data Decoded {ℓ} (A : Type ℓ) : Type ℓ where
  ok : A → List ℕ → Decoded A
  err : DecodeError → Decoded A

abbrev pub Reader {ℓ} : Type ℓ → Type ℓ
Reader A = List ℕ → Decoded A

-- What `write` puts in front of all that is written after it.
abbrev pub Writer {ℓ} : Type ℓ → Type ℓ
Writer A = A → List ℕ → List ℕ

infixl 5 ◌>>=◌ ◌>>◌
abbrev pub ◌>>=◌ {ℓ κ} : {A : Type ℓ} {B : Type κ} → Reader A → (A → Reader B) → Reader B
◌>>=◌ r f bytes = elim (r bytes) [ ok a rest ↦ f a rest | err e ↦ err e ]

abbrev pub ◌>>◌ {ℓ κ} : {A : Type ℓ} {B : Type κ} → Reader A → Reader B → Reader B
r >> s = r >>= λ _. s

abbrev pub fail_if : Bool → DecodeError → Reader (Unit {0})
fail_if true e bytes = err e
fail_if false e bytes = ok tt bytes

-- A sequence of two reads succeeds where both do.
pub bind-ok {ℓ κ} :
    {A : Type ℓ} {B : Type κ} (r : Reader A) (f : A → Reader B) (bytes rest : List ℕ) (b : B)
    → (r >>= f) bytes ≡ ok b rest
    → (a : A) × (mid : List ℕ) × (r bytes ≡ ok a mid) × (f a mid ≡ ok b rest)
bind-ok {A = A} {B = B} r f bytes rest b e = go (r bytes) refl e
  where
    go :
        (o : Decoded A)
        → r bytes ≡ o
        → elim o [ ok a mid ↦ f a mid | err d ↦ err d ] ≡ ok b rest
        → (a : A) × (mid : List ℕ) × (r bytes ≡ ok a mid) × (f a mid ≡ ok b rest)
    go (ok a mid) is e1 = (a, mid, is, e1)
    go (err d) is e1 = cc

-- What is written is read again, and nothing of what follows.
abbrev pub IsReadBack {ℓ} : {A : Type ℓ} → Writer A → Reader A → A → Type ℓ
IsReadBack write read a = (rest : List ℕ) → read (write a rest) ≡ ok a rest

abbrev pub read_u8 : Reader ℕ
read_u8 [] = err short_read
read_u8 (b ∷ bytes) = ok b bytes

-- `be16_to_array` to `be64_to_array`, by the number of bytes, and arrays of 32 bytes that stand as
-- numbers.
unfoldable pub write_be : ℕ → Writer ℕ
write_be zero n rest = rest
write_be (suc width) n rest = write_be width (n / 256) (n % 256 ∷ rest)

unfoldable pub read_be : ℕ → Reader ℕ
read_be zero bytes = ok 0 bytes
read_be (suc width) bytes = (do high ← read_be width; low ← read_u8; ok (high * 256 + low)) bytes

-- How many numbers have that many bytes.
abbrev pub numbers : ℕ → ℕ
numbers zero = 1
numbers (suc width) = numbers width * 256

pub write_be-IsReadBack :
    (width n : ℕ) → n < numbers width → IsReadBack (write_be width) (read_be width) n
unfolding write_be read_be
write_be-IsReadBack zero n h rest = ground arith
write_be-IsReadBack (suc width) n h rest =
    ground (arith, write_be-IsReadBack width (n / 256) (omega arith) (n % 256 ∷ rest))

-- `read_exact` into a buffer of that length.
unfoldable pub read_exact : ℕ → Reader (List ℕ)
read_exact zero bytes = ok [] bytes
read_exact (suc n) [] = err short_read
read_exact (suc n) (b ∷ bytes) = (do rest ← read_exact n; ok (b ∷ rest)) bytes

abbrev pub write_all : Writer (List ℕ)
write_all bytes rest = bytes ++ rest

pub read_exact-write_all :
    (bytes rest : List ℕ) → read_exact (length bytes) (bytes ++ rest) ≡ ok bytes rest
unfolding read_exact
read_exact-write_all [] rest = refl
read_exact-write_all (b ∷ bytes) rest = ground (
  arith,
  write_be-IsReadBack 2 (length bytes % 2 ^ 16) (omega arith) (bytes ++ rest),
  read_exact-write_all bytes rest,
)

-- Vectors of bytes, and scripts: a length of two bytes, cut off by `as u16`, and the bytes.
unfoldable pub write_vec : Writer (List ℕ)
write_vec bytes rest = write_be 2 (length bytes % 2 ^ 16) (bytes ++ rest)

unfoldable pub read_vec : Reader (List ℕ)
read_vec = read_be 2 >>= read_exact

pub write_vec-IsReadBack :
    (bytes : List ℕ) → length bytes < 2 ^ 16 → IsReadBack write_vec read_vec bytes
unfolding write_vec read_vec
write_vec-IsReadBack bytes h rest = ground (
  arith,
  write_be-IsReadBack 2 (length bytes % 2 ^ 16) (omega arith) (bytes ++ rest),
  read_exact-write_all bytes rest,
)
