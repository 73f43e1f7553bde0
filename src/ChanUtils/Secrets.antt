-- ===== src/ChanUtils/Secrets.antt =====
-- lightning/src/ln/chan_utils.rs: the secrets of our own commitment transactions, derived from one
-- seed, and `CounterpartyCommitmentSecrets`, the store of the counterparty's, 49 entries for any number.
pub mod Derive
pub mod Store
use Prim.Native.Nat.{bit_xor}
use rust_lightning.Prelude.{
  ℕ, zero, suc, ◌+◌, ◌-◌, ◌*◌, ◌/◌, ◌%◌, ◌^◌, Bool, Option, none, some, List, [], ◌∷◌, not, leb,
  ltb, ◌==◌, if◌then◌else◌, get_or, set, replicate, bytes_eq,
}

-- `idx & (1 << b) == 1 << b`
abbrev pub has_bit : ℕ → ℕ → Bool
has_bit idx b = idx / 2 ^ b % 2 == 1

-- `res[bitpos / 8] ^= 1 << (bitpos & 7)`
unfoldable pub flip_bit : List ℕ → ℕ → List ℕ
flip_bit res bitpos = set res (bitpos / 8) (bit_xor (get_or res (bitpos / 8) 0) (2 ^ (bitpos % 8)))

-- An entry is a secret and the commitment number that it belongs to.
abbrev pub CounterpartyCommitmentSecrets : Type 0
CounterpartyCommitmentSecrets = List (List ℕ × ℕ)

-- `CounterpartyCommitmentSecrets::new`
unfoldable pub new_secrets : CounterpartyCommitmentSecrets
new_secrets = replicate 49 (replicate 32 0, 2 ^ 48)

-- The rounds left, and the bit position that the loop has reached.
place_from : ℕ → ℕ → ℕ → ℕ
place_from zero i idx = 48
place_from (suc rounds) i idx =
    let rest = place_from rounds (i + 1) idx in if has_bit idx i then i else rest

unfoldable pub place_secret : ℕ → ℕ
unfolding place_from
place_secret idx = place_from 48 0 idx

min_idx : ℕ → CounterpartyCommitmentSecrets → ℕ
min_idx least [] = least
min_idx least ((secret, idx) ∷ entries) = min_idx (if ltb idx least then idx else least) entries

unfoldable pub get_min_seen_secret : CounterpartyCommitmentSecrets → ℕ
unfolding min_idx
get_min_seen_secret = min_idx (2 ^ 48)

module _ (sha256 : List ℕ → List ℕ) where
  -- The loop counts `bitpos` from `bits - 1` down to 0.
  unfoldable pub derive_secret : List ℕ → ℕ → ℕ → List ℕ
  derive_secret res zero idx = res
  derive_secret res (suc bitpos) idx =
      derive_secret (if has_bit idx bitpos then sha256 (flip_bit res bitpos) else res) bitpos idx

  -- Its loop is that of `derive_secret` with 48 bits.
  unfoldable pub build_commitment_secret : List ℕ → ℕ → List ℕ
  build_commitment_secret commitment_seed idx = derive_secret commitment_seed 48 idx

  -- The check of `provide_secret`: from the new secret the entries before its place can be derived.
  derives_first : ℕ → List ℕ → ℕ → CounterpartyCommitmentSecrets → Bool
  derives_first zero secret pos entries = Bool.true
  derives_first (suc i) secret pos [] = Bool.true
  derives_first (suc i) secret pos ((old_secret, old_idx) ∷ entries) =
      let rest = derives_first i secret pos entries in
      if bytes_eq (derive_secret secret pos old_idx) old_secret then rest else Bool.false

  -- `none` is an error, after which the store is as it was.
  unfoldable pub provide_secret :
      CounterpartyCommitmentSecrets → ℕ → List ℕ → Option CounterpartyCommitmentSecrets
  unfolding derives_first
  provide_secret old_secrets idx secret =
      let pos = place_secret idx in
      if not (derives_first pos secret pos old_secrets)
      then none
      else if leb (get_min_seen_secret old_secrets) idx
      then some old_secrets
      else some (set old_secrets pos (secret, idx))

  -- `idx & !((1 << i) - 1)` clears the low `i` bits.
  find_secret : ℕ → CounterpartyCommitmentSecrets → ℕ → Option (List ℕ)
  find_secret i [] idx = none
  find_secret i ((secret, old_idx) ∷ entries) idx =
      let rest = find_secret (i + 1) entries idx in
      if idx / 2 ^ i * 2 ^ i == old_idx then some (derive_secret secret i idx) else rest

  -- The outer `none` is the failure of the assertion at the end.
  unfoldable pub get_secret : CounterpartyCommitmentSecrets → ℕ → Option (Option (List ℕ))
  unfolding find_secret
  get_secret old_secrets idx = elim (find_secret 0 old_secrets idx) [
    | some secret ↦ some (some secret)
    | none ↦ if ltb idx (get_min_seen_secret old_secrets) then some none else none
  ]
