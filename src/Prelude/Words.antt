-- ===== src/Prelude/Words.antt =====
-- Machine words: u64 arithmetic wraps at 2 ^ 64, and an i64 is its two's complement pattern, so the
-- casts between u64 and i64 change nothing.
use Prim.Native.Nat.{ℕ, ◌+◌, ◌-◌, ◌*◌, ◌/◌, ◌%◌, ◌^◌, ◌<◌}
use mathlib.Core.Path.{◌≡◌}
use mathlib.Core.Bool.{Bool}
use native.Mathlib.Omega.{arith}
use rust_lightning.Prelude.Tests.{ltb, leb, if◌then◌else◌}

abbrev pub IsByte : ℕ → Type 0
IsByte b = b < 256

abbrev pub IsU64 : ℕ → Type 0
IsU64 v = v < 2 ^ 64

abbrev pub add64 : ℕ → ℕ → ℕ
add64 a b = (a + b) % 2 ^ 64

abbrev pub sub64 : ℕ → ℕ → ℕ
sub64 a b = (a + 2 ^ 64 - b) % 2 ^ 64

abbrev pub mul64 : ℕ → ℕ → ℕ
mul64 a b = a * b % 2 ^ 64

-- The sign test of an i64, and the order of two of them.
abbrev pub is_nonneg_i64 : ℕ → Bool
is_nonneg_i64 a = ltb a (2 ^ 63)

abbrev pub le_i64 : ℕ → ℕ → Bool
le_i64 a b = leb ((a + 2 ^ 63) % 2 ^ 64) ((b + 2 ^ 63) % 2 ^ 64)

-- The negative of an i64, and its division by a positive number, which rounds towards zero.
abbrev pub neg64 : ℕ → ℕ
neg64 a = (2 ^ 64 - a) % 2 ^ 64

abbrev pub div_i64 : ℕ → ℕ → ℕ
div_i64 a d = if is_nonneg_i64 a then a / d else neg64 (neg64 a / d)

pub add64-sub64 : (a b : ℕ) → IsU64 a → IsU64 b → add64 (sub64 a b) b ≡ a
add64-sub64 a b ha hb = omega arith
