-- ===== src/SrswQueue/Sizes.antt =====
-- `pow_2_size`: the smallest power of two that is not below the argument.
use Prim.Native.Nat.{bit_or}
use native.Mathlib.Nat.{pow-suc, pow-le-pow_right, div-div-eq-div-mul, mul_comm, zero-div}
use jullop.Base.{
  ℕ, zero, suc, ◌+◌, ◌-◌, ◌*◌, ◌/◌, ◌%◌, ◌^◌, ◌≤◌, ◌<◌, ◌≡◌, ◌≢◌, ◌⊎◌, ◌∙◌, inl, inr, ap, sym, refl,
  arith, dec_lt, sub_size,
}
use jullop.Base.Bits.{bit_or_digit}
use jullop.SrswQueue.{or_shifts, pow_2_size}

-- `x` has at most `l` bits, and the highest `k` of these are ones.
record TopOnes (l k x : ℕ) : Type 0 where
  fits : x < 2 ^ l
  ones : 2 ^ l ≤ x + 2 ^ (l - k)

two_pow_eq : (a b : ℕ) → a ≡ b → 2 ^ a ≡ 2 ^ b
two_pow_eq a b e = ap (λ n. 2 ^ n) e

-- One bit more in the exponent, past the end of a truncated subtraction or not.
gap :
    (l k : ℕ)
    → (k ≤ l) × (2 ^ (suc l - k) ≡ 2 * 2 ^ (l - k))
      ⊎ (l < k) × (2 ^ (suc l - k) ≡ 1) × (2 ^ (l - k) ≡ 1)
gap l k = elim (dec_lt l k) [
  | yes past ↦
      inr (past, two_pow_eq (suc l - k) 0 (omega arith), two_pow_eq (l - k) 0 (omega arith))
  | no within ↦ inl (
    omega arith,
    omega (arith, two_pow_eq (suc l - k) (suc (l - k)) (omega arith), pow-suc 2 (l - k)),
  )
]

-- Its half has the same ones, in one bit less.
TopOnes-half : (l k x : ℕ) → TopOnes (suc l) k x → TopOnes l k (x / 2)
TopOnes-half l k x t = omega (arith, pow-suc 2 l, gap l k)

two_pow_add : (a k : ℕ) → 2 ^ (a + k) ≡ 2 ^ a * 2 ^ k
two_pow_add a zero = omega (arith, two_pow_eq (a + 0) a (omega arith))
two_pow_add a (suc k) = omega (
  arith,
  two_pow_eq (a + suc k) (suc (a + k)) (omega arith),
  pow-suc 2 (a + k),
  ap (λ (t : ℕ). 2 ^ a * t) (pow-suc 2 k),
  two_pow_add a k,
)

pow_split : (l k : ℕ) → k ≤ l → 2 ^ l ≡ 2 ^ (l - k) * 2 ^ k
pow_split l k h = two_pow_eq l (l - k + k) (omega arith) ∙ two_pow_add (l - k) k

two_pow_mono : (a b : ℕ) → a ≤ b → 2 ^ a ≤ 2 ^ b
two_pow_mono a b h = pow-le-pow_right (omega arith) h

-- The quotient by a power of two, where the ones reach that far up.
top_quotient : (p q x : ℕ) → q ≤ p → x < q * p → q * p ≤ x + q → 0 < q → x / p + 1 ≡ q
top_quotient p q x le lt ge pos = grind arith

-- Where the ones meet their shifted copy, the lowest bit is set in one of the two.
low_bit : (l k x : ℕ) → suc l ≤ 2 * k → TopOnes (suc l) k x → x % 2 + x / 2 ^ k % 2 ≢ 0
low_bit l k x h t = elim (dec_lt l k) [
  | yes past ↦ λ e. omega (arith, two_pow_eq (suc l - k) 0 (omega arith), pow-suc 2 l)
  | no within ↦
      let q : x / 2 ^ k + 1 ≡ 2 ^ (suc l - k) =
        top_quotient (2 ^ k) (2 ^ (suc l - k)) x (two_pow_mono (suc l - k) k (omega arith))
          (omega (arith, pow_split (suc l) k (omega arith)))
          (omega (arith, pow_split (suc l) k (omega arith)))
          (two_pow_mono 0 (suc l - k) (omega arith)) in
      λ e. omega (arith, q, gap l k)
]

shift_half : (k x : ℕ) → x / 2 ^ k / 2 ≡ x / 2 / 2 ^ k
shift_half k x =
    div-div-eq-div-mul x (2 ^ k) 2
    ∙ ap (λ (d : ℕ). x / d) (mul_comm (2 ^ k) 2)
    ∙ sym (div-div-eq-div-mul x 2 (2 ^ k))

smear : (l k x : ℕ) → TopOnes l k x → TopOnes l (2 * k) (bit_or x (x / 2 ^ k))
smear zero k x t =
    let none_set : x ≡ 0 = omega arith in
    rw (none_set, zero-div (2 ^ k))
      (record {
        fits = omega arith;
        ones = omega (arith, two_pow_mono 0 (0 - 2 * k) (omega arith));
      })
smear (suc l) k x t =
    let digit = bit_or_digit x (x / 2 ^ k) in
    let ih : TopOnes l (2 * k) (bit_or (x / 2) (x / 2 ^ k / 2)) =
      rw (shift_half k x) (smear l k (x / 2) (TopOnes-half l k x t)) in
    elim (dec_lt l (2 * k)) [
      | yes past ↦
          let low = low_bit l k x past t in
          record {
            fits = omega (arith, digit, ih.fits, pow-suc 2 l);
            ones = omega (arith, digit, ih.ones, pow-suc 2 l, gap l (2 * k), low);
          }
      | no within ↦ record {
        fits = omega (arith, digit, ih.fits, pow-suc 2 l);
        ones = omega (arith, digit, ih.ones, pow-suc 2 l, gap l (2 * k));
      }
    ]

-- The number of bits of `n`.
bit_length :
    (n : ℕ) → 0 < n → (b : ℕ) → n < 2 ^ b → (l : ℕ) × (l < b) × (2 ^ l ≤ n) × (n < 2 ^ suc l)
bit_length n pos zero h = absurd (omega arith)
bit_length n pos (suc b) h = elim (dec_lt n (2 ^ b)) [
  | yes less ↦ let (l, lt, lo, hi) = bit_length n pos b less in (l, omega arith, lo, hi)
  | no more ↦ (b, omega arith, omega arith, h)
]

-- Five doublings make ones of all the bits, of which there are at most 32.
or_shifts-ones : (l n : ℕ) → l < 32 → 2 ^ l ≤ n → n < 2 ^ suc l → or_shifts n + 1 ≡ 2 ^ suc l
unfolding or_shifts
or_shifts-ones l n small lo hi =
    let first : TopOnes (suc l) 1 n = record {
      fits = hi;
      ones = omega (arith, pow-suc 2 l, two_pow_eq (suc l - 1) l (omega arith));
    } in
    let all =
      smear (suc l) 16 _
        (smear (suc l) 8 _ (smear (suc l) 4 _ (smear (suc l) 2 _ (smear (suc l) 1 n first)))) in
    omega (arith, all.fits, all.ones, two_pow_eq (suc l - 32) 0 (omega arith))

-- For a size from 1 to 2 ^ 32, `pow_2_size` gives the power of two that is not below the size and is
-- less than twice the size.
pub pow_2_size-least :
    (size : ℕ)
    → 0 < size
    → size ≤ 2 ^ 32
    → (k : ℕ) × (pow_2_size size ≡ 2 ^ k) × (k ≤ 32) × (size ≤ 2 ^ k) × (2 ^ k < 2 * size)
unfolding pow_2_size
pow_2_size-least zero pos small = elim pos [ ]
pow_2_size-least (suc zero) pos small = (0, refl, omega arith, omega arith, omega arith)
pow_2_size-least (suc (suc n)) pos small =
    let (l, lt, lo, hi) = bit_length (suc n) (omega arith) 32 (omega arith) in
    let ones = or_shifts-ones l (suc n) lt lo hi in
    let top = two_pow_mono (suc l) 32 (omega arith) in
    let less : sub_size (suc (suc n)) 1 ≡ suc n = omega arith in
    (suc l, rw (less, or_shifts) (omega (arith, ones, top)), lt, hi, omega (arith, lo, pow-suc 2 l))

not_below : (j k : ℕ) → 2 ^ k ≤ 2 ^ j → ¬ (j < k)
not_below j k le lt =
    omega (arith, two_pow_mono (suc j) k lt, pow-suc 2 j, two_pow_mono 0 j (omega arith))

-- A power of two is kept.
pub pow_2_size_self : (k : ℕ) → k ≤ 32 → pow_2_size (2 ^ k) ≡ 2 ^ k
pow_2_size_self k h =
    let (j, e, le, lo, hi) =
      pow_2_size-least (2 ^ k) (two_pow_mono 0 k (omega arith)) (two_pow_mono k 32 h) in
    e ∙ two_pow_eq j k (omega (arith, not_below j k lo, above j hi))
  where
    above : (j : ℕ) → 2 ^ j < 2 * 2 ^ k → ¬ (k < j)
    above j hi lt = omega (arith, two_pow_mono (suc k) j lt, pow-suc 2 k)
