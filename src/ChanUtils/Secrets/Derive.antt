-- ===== src/ChanUtils/Secrets/Derive.antt =====
-- Deriving a secret from one further up the tree gives what deriving it from the seed gives.
use rust_lightning.Prelude.{
  ℕ, zero, suc, ◌+◌, ◌-◌, ◌*◌, ◌/◌, ◌%◌, ◌^◌, ◌≤◌, ◌<◌, ◌≡◌, refl, sym, ap, ◌∙◌, List, arith, ◌==◌,
  if◌then◌else◌,
}
use rust_lightning.ChanUtils.Secrets.{has_bit, flip_bit, derive_secret, build_commitment_secret}
use native.Mathlib.Nat.{pow-suc, div-div-eq-div-mul, mul-div_cancel}

pub pow-pos : (b : ℕ) → 0 < 2 ^ b
pow-pos zero = omega arith
pow-pos (suc b) = omega (arith, pow-pos b, pow-suc 2 b)

pub div_two : (a b : ℕ) → a / 2 ^ suc b ≡ a / 2 ^ b / 2
div_two a b = rw pow-suc (sym (div-div-eq-div-mul a (2 ^ b) 2))

-- Numbers that agree above bit `b` agree above every higher bit.
pub agree_up : (k b i j : ℕ) → i / 2 ^ b ≡ j / 2 ^ b → i / 2 ^ (k + b) ≡ j / 2 ^ (k + b)
agree_up zero b i j h = simp (zero_add b) h
  where
    zero_add : (b : ℕ) → 0 + b ≡ b
    zero_add b = omega arith
agree_up (suc k) b i j h =
    let e : suc k + b ≡ suc (k + b) = omega arith in
    rw (e, div_two i, div_two j, agree_up k b i j h)

double_shift : (q b : ℕ) → q * 2 ^ suc b ≡ q * 2 * 2 ^ b
double_shift q b = rw pow-suc (grind arith)

pub even_bit : (q b : ℕ) → q * 2 * 2 ^ b / 2 ^ b % 2 ≡ 0
even_bit q b = rw (mul-div_cancel (q * 2) (pow-pos b)) (omega arith)

module _ (sha256 : List ℕ → List ℕ) where
  -- Where the low bits are zero nothing is hashed.
  pub derive_secret-shifted : (b q : ℕ) (s : List ℕ) → derive_secret sha256 s b (q * 2 ^ b) ≡ s
  unfolding derive_secret
  derive_secret-shifted zero q s = refl
  derive_secret-shifted (suc b) q s =
      rw double_shift (ground (arith, even_bit q b, derive_secret-shifted b (q * 2) s))

  derive_step :
      (s : List ℕ) (n idx : ℕ)
      → derive_secret sha256 s (suc n) idx
        ≡ derive_secret sha256 (if has_bit idx n then sha256 (flip_bit s n) else s) n idx
  unfolding derive_secret
  derive_step s n idx = refl

  derive_secret-agree :
      (k b : ℕ) (s : List ℕ) (q j : ℕ)
      → q ≡ j / 2 ^ b
      → derive_secret sha256 (derive_secret sha256 s (k + b) (q * 2 ^ b)) b j
        ≡ derive_secret sha256 s (k + b) j
  derive_secret-agree zero b s q j h =
      let e : 0 + b ≡ b = omega arith in rw (e, derive_secret-shifted b q s)
  derive_secret-agree (suc k) b s q j h =
      let e : suc k + b ≡ suc (k + b) = omega arith in
      let same : q * 2 ^ b / 2 ^ b ≡ j / 2 ^ b = mul-div_cancel q (pow-pos b) ∙ h in
      rw
        (
          e,
          derive_step s (k + b) (q * 2 ^ b),
          derive_step s (k + b) j,
          ap (λ (t : ℕ). t % 2 == 1) (agree_up k b (q * 2 ^ b) j same),
        )
        (derive_secret-agree k b _ q j h)

  -- For b at most 48, the secret of a number whose low `b` bits are zero gives every secret that differs
  -- from it in these bits only.
  pub derive_secret-build :
      (b : ℕ) (seed : List ℕ) (idx : ℕ)
      → b ≤ 48
      → derive_secret sha256 (build_commitment_secret sha256 seed (idx / 2 ^ b * 2 ^ b)) b idx
        ≡ build_commitment_secret sha256 seed idx
  unfolding build_commitment_secret
  derive_secret-build b seed idx h =
      let e : 48 ≡ 48 - b + b = omega arith in
      rw e (derive_secret-agree (48 - b) b seed (idx / 2 ^ b) idx refl)
