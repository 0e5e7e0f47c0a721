-- ===== src/Base/Arrays.antt =====
-- Reads and writes of an array in range.
use Prim.Native.Nat.{ℕ, zero, suc, ◌<◌}
use mathlib.Core.Path.{◌≡◌, refl, sym}
use mathlib.Core.Logic.{◌≢◌}
use mathlib.Core.List.{List, [], ◌∷◌}
use native.Mathlib.Omega.{arith}
use jullop.Base.Lists.{length, set, get_elem?-set_self, get_elem?-set_ne}
use jullop.Base.Calls.{done, load, store}

module _ {ℓ} {A : Type ℓ} where
  pub load_inside : (xs : List A) (i : ℕ) → i < length xs → (a : A) × (load xs i ≡ done a)
  load_inside [] i h = absurd (omega arith)
  load_inside (x ∷ xs) zero h = (x, refl)
  load_inside (x ∷ xs) (suc i) h = load_inside xs i (omega arith)

  pub load_in_range : (xs : List A) (i : ℕ) (a : A) → load xs i ≡ done a → i < length xs
  load_in_range [] i a e = cc
  load_in_range (x ∷ xs) zero a e = omega arith
  load_in_range (x ∷ xs) (suc i) a e = omega (arith, load_in_range xs i a e)

  pub store_inside :
      (xs : List A) (i : ℕ) (v : A) → i < length xs → store xs i v ≡ done (set xs i v)
  store_inside xs i v h = ground arith

  pub load-set : (xs : List A) (i : ℕ) (v : A) → i < length xs → load (set xs i v) i ≡ done v
  load-set xs i v h = rw (load, get_elem?-set_self xs i v h) refl

  pub load-set_other : (xs : List A) (i j : ℕ) (v : A) → j ≢ i → load (set xs i v) j ≡ load xs j
  load-set_other xs i j v ne = rw (load, get_elem?-set_ne xs i j v (λ e. ne (sym e))) refl
