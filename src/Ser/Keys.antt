-- ===== src/Ser/Keys.antt =====
-- lightning/src/util/ser.rs: keys and signatures, by the formats of the crate secp256k1, which is not
-- part of the repository.
use rust_lightning.Prelude.{
  ℕ, zero, suc, ◌*◌, ◌^◌, ◌≤◌, ◌≡◌, refl, subst, All, IsByte, Bool, true, Option, none, some, List,
  [], ◌∷◌, ◌++◌, length, replicate, ltb, arith, ◌%◌,
}
use rust_lightning.Ser.Codec.{
  invalid_value, bad_length_descriptor, ok, err, Reader, Writer, ◌>>=◌, ◌>>◌, fail_if, IsReadBack,
  read_exact, read_exact-write_all, write_be, read_be, write_be-IsReadBack,
}

-- A number stands for a key or a signature of the crate where `is_public_key` or `is_signature` holds.
pub record Secp : Type 0 where
  pub is_public_key : ℕ → Bool
  pub is_signature : ℕ → Bool
  -- PublicKey::serialize and from_slice, Signature::serialize_compact and from_compact
  pub serialize : ℕ → List ℕ
  pub from_slice : List ℕ → Option ℕ
  pub serialize_compact : ℕ → List ℕ
  pub from_compact : List ℕ → Option ℕ

abbrev pub IsKey : Secp → ℕ → Type 0
IsKey secp key = secp.is_public_key key ≡ true

abbrev pub IsSignature : Secp → ℕ → Type 0
IsSignature secp sig = secp.is_signature sig ≡ true

-- The formats of keys and signatures have 33 and 64 bytes and are inverted; zeros are no key.
pub record IsSecp (secp : Secp) : Type 0 where
  pub serialize_length : (key : ℕ) → IsKey secp key → length (secp.serialize key) ≡ 33
  pub serialize_bytes : (key : ℕ) → IsKey secp key → All IsByte (secp.serialize key)
  pub from_slice_serialize :
      (key : ℕ) → IsKey secp key → secp.from_slice (secp.serialize key) ≡ some key
  pub from_slice_zeros : secp.from_slice (replicate 33 0) ≡ none
  pub compact_length : (sig : ℕ) → IsSignature secp sig → length (secp.serialize_compact sig) ≡ 64
  pub compact_bytes : (sig : ℕ) → IsSignature secp sig → All IsByte (secp.serialize_compact sig)
  pub from_compact_serialize :
      (sig : ℕ) → IsSignature secp sig → secp.from_compact (secp.serialize_compact sig) ≡ some sig

abbrev pub or_invalid {ℓ} : {A : Type ℓ} → Option A → Reader A
or_invalid none bytes = err invalid_value
or_invalid (some a) bytes = ok a bytes

-- A read of as many bytes as stand there.
pub read_exact-length :
    (n : ℕ) (bytes rest : List ℕ) → length bytes ≡ n → read_exact n (bytes ++ rest) ≡ ok bytes rest
read_exact-length n bytes rest e =
    subst (λ m. read_exact m (bytes ++ rest) ≡ ok bytes rest) e (read_exact-write_all bytes rest)

-- A loop that reads a known number of values.
unfoldable pub read_times {ℓ} : {A : Type ℓ} → ℕ → Reader A → Reader (List A)
read_times zero read bytes = ok [] bytes
read_times (suc n) read bytes = (do first ← read; rest ← read_times n read; ok (first ∷ rest)) bytes

abbrev pub write_each {ℓ} : {A : Type ℓ} → Writer A → Writer (List A)
write_each write [] rest = rest
write_each write (a ∷ more) rest = write a (write_each write more rest)

read_times-write_each {ℓ} :
    {A : Type ℓ} (write : Writer A) (read : Reader A)
    → (Fits : A → Type 0) → ((a : A) → Fits a → IsReadBack write read a)
    → (list : List A) → All Fits list
    → IsReadBack (write_each write) (read_times (length list) read) list
unfolding read_times
read_times-write_each write read Fits back [] fits rest = refl
read_times-write_each write read Fits back (a ∷ more) fits rest = ground (
  arith,
  back a fits.0 (write_each write more rest),
  read_times-write_each write read Fits back more fits.1 rest,
)

module _ (secp : Secp) where
  open secp use {serialize, from_slice, serialize_compact, from_compact}

  abbrev pub write_key : Writer ℕ
  write_key key rest = serialize key ++ rest

  unfoldable pub read_key : Reader ℕ
  read_key = read_exact 33 >>= λ buf. or_invalid (from_slice buf)

  abbrev pub write_signature : Writer ℕ
  write_signature sig rest = serialize_compact sig ++ rest

  unfoldable pub read_signature : Reader ℕ
  read_signature = read_exact 64 >>= λ buf. or_invalid (from_compact buf)

  -- `Vec<Signature>`; the limit is that of the source, `MAX_BUF_SIZE`, at 33 bytes each.
  unfoldable pub write_signatures : Writer (List ℕ)
  write_signatures sigs rest =
      write_be 2 (length sigs % 2 ^ 16) (write_each write_signature sigs rest)

  unfoldable pub read_signatures : Reader (List ℕ)
  read_signatures = (do
    len ← read_be 2
    fail_if (ltb (64 * 1024) (len * 33)) bad_length_descriptor
    read_times len read_signature)

  module _ (laws : IsSecp secp) where
    pub write_key-IsReadBack : (key : ℕ) → IsKey secp key → IsReadBack write_key read_key key
    unfolding read_key
    write_key-IsReadBack key valid rest = ground (
      arith,
      read_exact-length 33 (serialize key) rest (laws.serialize_length key valid),
      laws.from_slice_serialize key valid,
    )

    pub write_signature-IsReadBack :
        (sig : ℕ) → IsSignature secp sig → IsReadBack write_signature read_signature sig
    unfolding read_signature
    write_signature-IsReadBack sig valid rest = ground (
      arith,
      read_exact-length 64 (serialize_compact sig) rest (laws.compact_length sig valid),
      laws.from_compact_serialize sig valid,
    )

    pub write_signatures-IsReadBack :
        (sigs : List ℕ)
        → length sigs * 33 ≤ 64 * 1024
        → All (IsSignature secp) sigs
        → IsReadBack write_signatures read_signatures sigs
    unfolding write_signatures read_signatures
    write_signatures-IsReadBack sigs h valid rest = ground (
      arith,
      write_be-IsReadBack 2 (length sigs % 2 ^ 16) (omega arith)
          (write_each write_signature sigs rest),
      read_times-write_each write_signature read_signature (IsSignature secp)
          write_signature-IsReadBack sigs valid rest,
    )
