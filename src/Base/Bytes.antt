-- ===== src/Base/Bytes.antt =====
-- Blocks of memory: `malloc`, `realloc`, and a copy of bytes into a block.
use Prim.Native.Nat.{ℕ, zero, suc, ◌+◌, ◌-◌, ◌≤◌}
use mathlib.Core.Path.{◌≡◌, refl, sym, ap, ◌∙◌}
use mathlib.Core.List.{List, [], ◌∷◌, ◌++◌, append_assoc}
use native.Mathlib.Omega.{arith}
use jullop.Base.Tests.{leb, if◌then◌else◌}
use jullop.Base.Lists.{
  length, take, drop, replicate, length-take, length-drop, length-append, length-replicate,
}
use jullop.Base.Calls.{Outcome, done, fault}

abbrev pub malloc : ℕ → ℕ → List ℕ
malloc junk n = replicate n junk

abbrev pub realloc : ℕ → List ℕ → ℕ → List ℕ
realloc junk block n = take n (block ++ replicate n junk)

abbrev pub overwrite : List ℕ → ℕ → List ℕ → List ℕ
overwrite block at bytes = take at block ++ bytes ++ drop (at + length bytes) block

-- A write of `bytes` from index `at` on, undefined unless the block has room for them.
abbrev pub copy : List ℕ → ℕ → List ℕ → Outcome (List ℕ)
copy block at bytes =
    if leb (at + length bytes) (length block) then done (overwrite block at bytes) else fault

pub take_short : (n : ℕ) (xs ys : List ℕ) → n ≤ length xs → take n (xs ++ ys) ≡ take n xs
take_short zero xs ys h = refl
take_short (suc n) [] ys h = absurd (omega arith)
take_short (suc n) (x ∷ xs) ys h = ap (λ l. x ∷ l) (take_short n xs ys (omega arith))

pub take-append : (n : ℕ) (xs ys : List ℕ) → length xs ≡ n → take n (xs ++ ys) ≡ xs
take-append zero [] ys h = refl
take-append zero (x ∷ xs) ys h = absurd (omega arith)
take-append (suc n) [] ys h = absurd (omega arith)
take-append (suc n) (x ∷ xs) ys h = ap (λ l. x ∷ l) (take-append n xs ys (omega arith))

pub drop-append : (n : ℕ) (xs ys : List ℕ) → length xs ≡ n → drop n (xs ++ ys) ≡ ys
drop-append zero [] ys h = refl
drop-append zero (x ∷ xs) ys h = absurd (omega arith)
drop-append (suc n) [] ys h = absurd (omega arith)
drop-append (suc n) (x ∷ xs) ys h = drop-append n xs ys (omega arith)

pub length-realloc : (junk : ℕ) (block : List ℕ) (n : ℕ) → length (realloc junk block n) ≡ n
length-realloc junk block n = omega (
  arith,
  length-take n (block ++ replicate n junk),
  length-append block (replicate n junk),
  length-replicate n junk,
)

take_twice : (n m : ℕ) (xs : List ℕ) → n ≤ m → take n (take m xs) ≡ take n xs
take_twice zero m xs h = refl
take_twice (suc n) zero xs h = absurd (omega arith)
take_twice (suc n) (suc m) [] h = refl
take_twice (suc n) (suc m) (x ∷ xs) h = ap (λ l. x ∷ l) (take_twice n m xs (omega arith))

-- `realloc` to a larger size keeps what the block holds.
pub take-realloc :
    (junk : ℕ) (block : List ℕ) (n k : ℕ)
    → k ≤ n
    → k ≤ length block
    → take k (realloc junk block n) ≡ take k block
take-realloc junk block n k le fits =
    take_twice k n (block ++ replicate n junk) le ∙ take_short k block (replicate n junk) fits

pub length-overwrite :
    (block : List ℕ) (at : ℕ) (bytes : List ℕ)
    → at + length bytes ≤ length block
    → length (overwrite block at bytes) ≡ length block
length-overwrite block at bytes h = omega (
  arith,
  length-append (take at block ++ bytes) (drop (at + length bytes) block),
  length-append (take at block) bytes,
  length-take at block,
  length-drop (at + length bytes) block,
)

-- What stands before the end of the written bytes.
pub take-overwrite :
    (block : List ℕ) (at : ℕ) (bytes : List ℕ)
    → at + length bytes ≤ length block
    → take (at + length bytes) (overwrite block at bytes) ≡ take at block ++ bytes
take-overwrite block at bytes h =
    take-append (at + length bytes) (take at block ++ bytes) _
      (omega (arith, length-append (take at block) bytes, length-take at block))

-- What stood before the written bytes is kept.
pub take-overwrite_before :
    (block : List ℕ) (at : ℕ) (bytes : List ℕ)
    → at ≤ length block
    → take at (overwrite block at bytes) ≡ take at block
take-overwrite_before block at bytes h =
    let short : length (take at block) ≡ at = omega (arith, length-take at block) in
    ap (take at) (append_assoc (take at block) bytes _) ∙ take-append at (take at block) _ short

-- A part of the written bytes.
pub take-overwrite_part :
    (block : List ℕ) (at : ℕ) (xs ys : List ℕ)
    → at ≤ length block
    → take (at + length xs) (overwrite block at (xs ++ ys)) ≡ take at block ++ xs
take-overwrite_part block at xs ys h =
    ap (λ l. take (at + length xs) (l ++ drop (at + length (xs ++ ys)) block))
      (sym (append_assoc (take at block) xs ys))
    ∙ ap (take (at + length xs)) (append_assoc (take at block ++ xs) ys _)
    ∙ take-append (at + length xs) (take at block ++ xs) _
        (omega (arith, length-append (take at block) xs, length-take at block))

pub take_all : (n : ℕ) (xs : List ℕ) → length xs ≤ n → take n xs ≡ xs
take_all zero [] h = refl
take_all zero (x ∷ xs) h = absurd (omega arith)
take_all (suc n) [] h = refl
take_all (suc n) (x ∷ xs) h = ap (λ l. x ∷ l) (take_all n xs (omega arith))

pub take-append-drop : (n : ℕ) (xs : List ℕ) → take n xs ++ drop n xs ≡ xs
take-append-drop zero xs = refl
take-append-drop (suc n) [] = refl
take-append-drop (suc n) (x ∷ xs) = ap (λ l. x ∷ l) (take-append-drop n xs)

pub drop-take : (n k : ℕ) (xs : List ℕ) → drop n (take k xs) ≡ take (k - n) (drop n xs)
drop-take zero k xs = ap (λ m. take m xs) (omega arith)
drop-take (suc n) zero xs = let e : 0 - suc n ≡ 0 = omega arith in rw e
drop-take (suc n) (suc k) [] = sym (take_all (suc k - suc n) [] (omega arith))
drop-take (suc n) (suc k) (x ∷ xs) = drop-take n k xs ∙ ap (λ m. take m (drop n xs)) (omega arith)

drop_none : (n : ℕ) → drop {A = ℕ} n [] ≡ []
drop_none zero = refl
drop_none (suc n) = refl

pub drop-drop : (n m : ℕ) (xs : List ℕ) → drop n (drop m xs) ≡ drop (m + n) xs
drop-drop n zero xs = ap (λ k. drop k xs) (omega arith)
drop-drop zero (suc m) [] = sym (drop_none (suc m + 0))
drop-drop (suc n) (suc m) [] = sym (drop_none (suc m + suc n))
drop-drop n (suc m) (x ∷ xs) = drop-drop n m xs ∙ ap (λ k. drop k (x ∷ xs)) (eq n m)
  where
    eq : (n m : ℕ) → suc (m + n) ≡ suc m + n
    eq n m = omega arith
