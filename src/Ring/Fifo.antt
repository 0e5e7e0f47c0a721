-- ===== src/Ring/Fifo.antt =====
-- The bounded first-in first-out queue of src/queue.h, as a list, oldest item first.
use jullop.Base.{
  ◌+◌, ◌≤◌, arith, length-append, ℕ, Bool, true, false, List, [], ◌∷◌, ◌++◌, Option, none, some,
  length, leb, if◌then◌else◌,
}

-- `false` is the failure of a push on a full queue.
unfoldable pub push : ℕ → List ℕ → ℕ → Bool × List ℕ
push cap q x = if leb cap (length q) then (false, q) else (true, q ++ x ∷ [])

-- `none` is the NULL of a pop from an empty queue.
unfoldable pub pop : List ℕ → Option ℕ × List ℕ
pop [] = (none, [])
pop (x ∷ q) = (some x, q)

pub length-push-le : (size : ℕ) (q : List ℕ) (x : ℕ) → length (push size q x).1 ≤ length q + 1
unfolding push
length-push-le size q x = ground (arith, length-append q (x ∷ []))
