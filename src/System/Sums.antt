-- ===== src/System/Sums.antt =====
-- Sums over a list, and a property of all its members.
use jullop.Base.{ℕ, ◌+◌, ◌<◌, ◌≤◌, ◌≡◌, refl, ap, arith, dec_lt, List, [], ◌∷◌, ◌++◌}

module _ {ℓ} {A : Type ℓ} where
  abbrev pub sum_of : (A → ℕ) → List A → ℕ
  sum_of weight [] = 0
  sum_of weight (x ∷ xs) = weight x + sum_of weight xs

  pub sum_of-append :
      (weight : A → ℕ) (xs ys : List A)
      → sum_of weight (xs ++ ys) ≡ sum_of weight xs + sum_of weight ys
  sum_of-append weight [] ys = omega arith
  sum_of-append weight (x ∷ xs) ys = omega (arith, sum_of-append weight xs ys)

  -- A member that weighs something is somewhere in the list.
  pub sum_of-find :
      (weight : A → ℕ) (xs : List A)
      → 0 < sum_of weight xs
      → (before : List A) × (x : A) × (after : List A) × (xs ≡ before ++ (x ∷ after))
        × (0 < weight x)
  sum_of-find weight [] h = absurd (omega arith)
  sum_of-find weight (x ∷ xs) h = elim (dec_lt 0 (weight x)) [
    | yes here ↦ ([], x, xs, refl, here)
    | no light ↦
        let (before, y, after, e, there) = sum_of-find weight xs (omega arith) in
        (x ∷ before, y, after, ap (λ l. x ∷ l) e, there)
  ]

  abbrev pub All {κ} : (A → Type κ) → List A → Type κ
  All P [] = Unit
  All P (x ∷ xs) = P x × All P xs

  pub All-append {κ} : (P : A → Type κ) (xs ys : List A) → All P xs → All P ys → All P (xs ++ ys)
  All-append P [] ys hx hy = hy
  All-append P (x ∷ xs) ys hx hy = (hx.0, All-append P xs ys hx.1 hy)

  pub All-split {κ} : (P : A → Type κ) (xs ys : List A) → All P (xs ++ ys) → All P xs × All P ys
  All-split P [] ys h = (tt, h)
  All-split P (x ∷ xs) ys h = let (hx, hy) = All-split P xs ys h.1 in ((h.0, hx), hy)

  -- A property passes on to the members that weigh nothing.
  pub All-light {κ μ} :
      (P : A → Type κ) (Q : A → Type μ) (weight : A → ℕ)
      → ((x : A) → weight x ≡ 0 → P x → Q x)
      → (xs : List A) → sum_of weight xs ≡ 0
      → All P xs
      → All Q xs
  All-light P Q weight pass [] light h = tt
  All-light P Q weight pass (x ∷ xs) light h =
      (pass x (omega arith) h.0, All-light P Q weight pass xs (omega arith) h.1)

  -- A member in the midst of a list.
  pub sum_of-middle :
      (weight : A → ℕ) (before : List A) (x : A) (after : List A)
      → sum_of weight (before ++ (x ∷ after))
        ≡ sum_of weight before + (weight x + sum_of weight after)
  sum_of-middle weight before x after = sum_of-append weight before (x ∷ after)

  pub sum_of-removed :
      (weight : A → ℕ) (before : List A) (x : A) (after : List A)
      → sum_of weight (before ++ (x ∷ after)) ≡ weight x + sum_of weight (before ++ after)
  sum_of-removed weight before x after =
      omega (arith, sum_of-append weight before (x ∷ after), sum_of-append weight before after)

  pub sum_of_mono :
      (light heavy : A → ℕ) (xs : List A)
      → ((x : A) → light x ≤ heavy x)
      → sum_of light xs ≤ sum_of heavy xs
  sum_of_mono light heavy [] h = omega arith
  sum_of_mono light heavy (x ∷ xs) h = omega (arith, h x, sum_of_mono light heavy xs h)
