-- ===== src/Ring/Slots.antt =====
-- The slots of a ring buffer of `cap` slots, from an offset on and round its end.
use native.Mathlib.Nat.{mod-eq-sub-mod, mod-add-mod, add-mod_right, mod-eq_of_lt}
use jullop.Base.{
  ◌⊎◌, inl, inr, ◌-◌, dec_lt, ◌↔◌, ℕ, suc, ◌+◌, ◌%◌, ◌≤◌, ◌<◌, ◌≡◌, sym, ◌≢◌, ◌∙◌, ap, List, [],
  ◌∷◌, ◌++◌, some, arith, length, get_elem?, set, get_elem?-set_self, get_elem?-set_ne,
}

-- From `h` on, the slots hold these items.
abbrev pub Holds : List ℕ → ℕ → ℕ → List ℕ → Type 0
Holds buf size h [] = Unit {0}
Holds buf size h (x ∷ xs) = (get_elem? buf h ≡ some x) × Holds buf size ((h + 1) % size) xs

pub shift_slot : (size h n : ℕ) → (h + suc n) % size ≡ ((h + 1) % size + n) % size
shift_slot size h n = rw mod-add-mod (ap (λ k. k % size) (omega arith))

-- Fewer than `size` steps on, the slot is another one.
other_slot : (size h n : ℕ) → h < size → suc n < size → (h + suc n) % size ≢ h
other_slot size h n lt small e = grind arith

-- A write just past the items leaves them alone.
pub Holds-set_past :
    (buf : List ℕ) (size h x : ℕ) (xs : List ℕ) (i : ℕ)
    → h < size
    → length xs < size
    → i ≡ (h + length xs) % size
    → Holds buf size h xs
    → Holds (set buf i x) size h xs
Holds-set_past buf size h x [] i lt small e held = tt
Holds-set_past buf size h x (y ∷ ys) i lt small e held = (
  get_elem?-set_ne buf i h x (λ at. other_slot size h (length ys) lt small (sym e ∙ at)) ∙ held.0,
  Holds-set_past buf size ((h + 1) % size) x ys i (omega arith) (omega arith)
      (e ∙ shift_slot size h (length ys)) held.1,
)

-- The slot just past the items extends them by what it holds.
pub Holds-append :
    (buf : List ℕ) (size h x : ℕ) (xs : List ℕ) (i : ℕ)
    → h < size
    → i ≡ (h + length xs) % size
    → get_elem? buf i ≡ some x
    → Holds buf size h xs
    → Holds buf size h (xs ++ x ∷ [])
Holds-append buf size h x [] i lt e last held = let at : i ≡ h = grind arith in (rw at at last, tt)
Holds-append buf size h x (y ∷ ys) i lt e last held = (
  held.0,
  Holds-append buf size ((h + 1) % size) x ys i (omega arith) (e ∙ shift_slot size h (length ys))
      last held.1,
)

-- A write just past the items appends to them.
pub Holds-set :
    (buf : List ℕ) (size h x : ℕ) (xs : List ℕ) (i : ℕ)
    → size ≤ length buf
    → h < size
    → length xs < size
    → i ≡ (h + length xs) % size
    → Holds buf size h xs
    → Holds (set buf i x) size h (xs ++ x ∷ [])
Holds-set buf size h x xs i fits lt small e held =
    Holds-append (set buf i x) size h x xs i lt e (get_elem?-set_self buf i x (omega arith))
      (Holds-set_past buf size h x xs i lt small e held)

-- All the way round is the same slot, and no shorter way is.
pub round_iff : (size h n : ℕ) → h < size → n < size → ((h + suc n) % size ≡ h) ↔ (suc n ≡ size)
round_iff size h n lt small = (
  λ e. elim (dec_lt (suc n) size) [
    | yes short ↦ absurd (other_slot size h n lt short e)
    | no long ↦ omega arith
  ],
  λ e. rw e (add-mod_right h size ∙ mod-eq_of_lt lt),
)

-- An offset less than once round: it has wrapped or it has not.
pub wrap_cases :
    (size h n p : ℕ)
    → h < size
    → n < size
    → p ≡ (h + n) % size
    → (h + n < size) × (p ≡ h + n) ⊎ (size ≤ h + n) × (p + size ≡ h + n)
wrap_cases size h n p lt small e = elim (dec_lt (h + n) size) [
  | yes short ↦ inl (short, e ∙ mod-eq_of_lt short)
  | no long ↦
      let once : h + n - size < size = omega arith in
      inr (
        omega arith,
        omega (arith, mod-eq-sub-mod {n = h + n} {m = size} (omega arith), mod-eq_of_lt once),
      )
]
