-- ===== src/Base/Bits.antt =====
-- `&` with a mask of ones is a remainder.
use Prim.Native.Nat.{ℕ, zero, suc, ◌+◌, ◌-◌, ◌*◌, ◌/◌, ◌%◌, ◌^◌, ◌≤◌, ◌<◌, min, max}
use Prim.Native.Nat.{bit_and, bit_or, digits, bitwise, bit_and-bitwise, bit_or-bitwise}
use mathlib.Core.Path.{◌≡◌, refl, ◌∙◌, ap}
use native.Mathlib.Nat.{pow-suc, one-le-pow}
use native.Mathlib.Decide.{dec_lt}
use native.Mathlib.Omega.{arith}

-- What the native operations stand for: a recursion on binary digits, with fuel. `f` joins two
-- digits, `z` says what becomes of the second number when the first is used up.
module _ (z : ℕ → ℕ) (f : ℕ → ℕ → ℕ) where
  -- Fuel for the first number is enough, and more changes nothing.
  unit_more : (a b n : ℕ) → a ≤ n → digits z f (suc n) a b ≡ digits z f n a b
  unit_more zero b zero h = refl
  unit_more (suc a) b zero h = absurd (omega arith)
  unit_more zero b (suc n) h = refl
  unit_more (suc a) b (suc n) h = rw (unit_more (suc a / 2) (b / 2) n (omega arith))

  spare : (k a b n : ℕ) → n ≡ k + a → digits z f n a b ≡ digits z f a a b
  spare zero a b n e = let same : n ≡ a = omega arith in ap (λ m. digits z f m a b) same
  spare (suc k) a b n e =
      let more : n ≡ suc (k + a) = omega arith in
      ap (λ m. digits z f m a b) more
      ∙ unit_more a b (k + a) (omega arith)
      ∙ spare k a b (k + a) refl

  enough : (n a b : ℕ) → a ≤ n → digits z f n a b ≡ digits z f a a b
  enough n a b h = spare (n - a) a b n (omega arith)

  bitwise_digit :
      (a b : ℕ)
      → bitwise z f (suc a) b ≡ 2 * bitwise z f (suc a / 2) (b / 2) + f (suc a % 2) (b % 2)
  bitwise_digit a b = omega (arith, enough a (suc a / 2) (b / 2) (omega arith))

bit_and_digit : (a b : ℕ) → bit_and a b ≡ 2 * bit_and (a / 2) (b / 2) + min (a % 2) (b % 2)
bit_and_digit zero b = simp bit_and-bitwise (omega arith)
bit_and_digit (suc a) b = simp bit_and-bitwise (bitwise_digit (λ y. 0) min a b)

pub bit_or_digit : (a b : ℕ) → bit_or a b ≡ 2 * bit_or (a / 2) (b / 2) + max (a % 2) (b % 2)
bit_or_digit zero b = simp bit_or-bitwise (omega arith)
bit_or_digit (suc a) b = simp bit_or-bitwise (bitwise_digit (λ y. y) max a b)

no_ones : (n a : ℕ) → a < n → bit_and a 0 ≡ 0
no_ones zero a h = absurd (omega arith)
no_ones (suc n) a h = elim (dec_lt 0 a) [
  | yes pos ↦ omega (arith, bit_and_digit a 0, no_ones n (a / 2) (omega arith))
  | no none ↦ let nil : a ≡ 0 = omega arith in rw nil refl
]

mod_double : (a p : ℕ) → 0 < p → a % (2 * p) ≡ a / 2 % p * 2 + a % 2
mod_double a p h = grind arith

pub bit_and-mask : (k a : ℕ) → bit_and a (2 ^ k - 1) ≡ a % 2 ^ k
bit_and-mask zero a = ground (arith, no_ones (suc a) a)
bit_and-mask (suc k) a = ground (
  arith,
  bit_and_digit a (2 ^ suc k - 1),
  pow-suc 2 k,
  one-le-pow k 2,
  bit_and-mask k (a / 2),
  mod_double a (2 ^ k),
)
