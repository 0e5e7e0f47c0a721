-- ===== src/Base/Calls.antt =====
-- How a C call ends: with a value, by `exit(EXIT_FAILURE)` of a failed CHECK (logging.h), in
-- undefined behaviour, or not within the rounds that the model allows its loops (`unfinished`).
use Prim.Native.Nat.{ℕ, ◌%◌}
use mathlib.Core.Bool.{Bool, true, false}
use mathlib.Core.List.{List}
use mathlib.Core.Option.{none, some}
use jullop.Base.Tests.{◌==◌, ltb, if◌then◌else◌}
use jullop.Base.Lists.{length, get_elem?, set}

pub data Outcome {ℓ} (A : Type ℓ) : Type ℓ where
  done : A → Outcome A
  exit_failure : Outcome A
  fault : Outcome A
  unfinished : Outcome A

infixl 5 ◌>>=◌ ◌>>◌
abbrev pub ◌>>=◌ {ℓ κ} : {A : Type ℓ} {B : Type κ} → Outcome A → (A → Outcome B) → Outcome B
done a >>= f = f a
exit_failure >>= f = exit_failure
fault >>= f = fault
unfinished >>= f = unfinished

abbrev pub ◌>>◌ {ℓ} : {B : Type ℓ} → Outcome (Unit {0}) → Outcome B → Outcome B
m >> k = m >>= λ _. k

-- CHECK: the process exits if the test holds.
abbrev pub check : Bool → Outcome (Unit {0})
check true = exit_failure
check false = done tt

-- A read and a write of an array, undefined out of range.
abbrev pub load {ℓ} : {A : Type ℓ} → List A → ℕ → Outcome A
load xs i = elim (get_elem? xs i) [ none ↦ fault | some x ↦ done x ]

abbrev pub store {ℓ} : {A : Type ℓ} → List A → ℕ → A → Outcome (List A)
store xs i v = if ltb i (length xs) then done (set xs i v) else fault

-- `a % n`, undefined for n = 0.
abbrev pub rem_size : ℕ → ℕ → Outcome ℕ
rem_size a n = if n == 0 then fault else done (a % n)
