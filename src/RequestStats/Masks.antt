-- ===== src/RequestStats/Masks.antt =====
-- The bits of `is_time_set`, checked for every byte.
use jullop.Base.{
  ℕ, zero, suc, ◌<◌, ◌≡◌, refl, arith, Bool, true, false, ◌&&◌, ◌||◌, not, ◌==◌, ◌!=◌,
}
use jullop.RequestStats.{bit, set_bit, clear_bit}

unfoldable every : ℕ → (ℕ → Bool) → Bool
every zero test = true
every (suc n) test = every n test && test n

every-at : (n i : ℕ) (test : ℕ → Bool) → i < n → every n test ≡ true → test i ≡ true
unfolding every
every-at zero i test h e = absurd (omega arith)
every-at (suc n) i test h e = ground (arith, every-at n i test)

abbrev eqb : Bool → Bool → Bool
eqb true b = b
eqb false b = not b

eqb-eq : (a b : Bool) → eqb a b ≡ true → a ≡ b
eqb-eq true b e = ground arith
eqb-eq false b e = ground arith

abbrev every_case : (ℕ → ℕ → ℕ → Bool) → Bool
every_case test = every 256 (λ x. every 5 (λ t. every 5 (λ u. test x t u)))

case_at :
    (test : ℕ → ℕ → ℕ → Bool) (x t u : ℕ)
    → x < 256
    → t < 5
    → u < 5
    → every_case test ≡ true
    → test x t u ≡ true
case_at test x t u hx ht hu e =
    every-at 5 u (λ k. test x t k) hu
      (every-at 5 t (λ j. every 5 (λ k. test x j k)) ht
        (every-at 256 x (λ i. every 5 (λ j. every 5 (λ k. test i j k))) hx e))

abbrev set_case : ℕ → ℕ → ℕ → Bool
set_case x t u = eqb (bit (set_bit x t) u != 0) (u == t || (bit x u != 0))

abbrev clear_case : ℕ → ℕ → ℕ → Bool
clear_case x t u = eqb (bit (clear_bit x t) u != 0) (not (u == t) && (bit x u != 0))

set_table : every_case set_case ≡ true
unfolding every
set_table = refl

clear_table : every_case clear_case ≡ true
unfolding every
clear_table = refl

pub bit-set_bit :
    (x t u : ℕ) → x < 256 → t < 5 → u < 5 → (bit (set_bit x t) u != 0) ≡ (u == t || (bit x u != 0))
bit-set_bit x t u hx ht hu = eqb-eq _ _ (case_at set_case x t u hx ht hu set_table)

pub bit-clear_bit :
    (x t u : ℕ)
    → x < 256
    → t < 5
    → u < 5
    → (bit (clear_bit x t) u != 0) ≡ (not (u == t) && (bit x u != 0))
bit-clear_bit x t u hx ht hu = eqb-eq _ _ (case_at clear_case x t u hx ht hu clear_table)

pub bit-zero : (u : ℕ) → u < 5 → (bit 0 u != 0) ≡ false
unfolding every
bit-zero u h = eqb-eq _ _ (every-at 5 u (λ k. eqb (bit 0 k != 0) false) h refl)
