-- ===== src/Ring/Api.antt =====
-- src/queue.h: what both queues answer.
use jullop.Base.{ℕ, Bool, true, false, Option, none, some, List, [], ◌∷◌, ◌++◌, ◌≢◌}
use Prim.Native.String.{String}

-- `enum QueueResult`
pub data QueueResult : Type 0 where
  success failure : QueueResult

-- `queue_result_name`; its default branch is for values outside the enumeration.
pub queue_result_name : QueueResult → String
queue_result_name success = "QUEUE_SUCCESS"
queue_result_name failure = "QUEUE_FAILURE"

abbrev pub null : ℕ
null = 0

-- The verdict of the bounded queue as a result of `queue_push`.
abbrev pub result_of : Bool → QueueResult
result_of true = success
result_of false = failure

-- A pop from an empty queue gives NULL.
abbrev pub pointer_of : Option ℕ → ℕ
pointer_of none = null
pointer_of (some x) = x

-- `queue_push` gets pointers to requests, never NULL.
abbrev pub NotNull : List ℕ → Type 0
NotNull [] = Unit {0}
NotNull (x ∷ xs) = (x ≢ null) × NotNull xs

pub NotNull-append : (xs : List ℕ) (x : ℕ) → x ≢ null → NotNull xs → NotNull (xs ++ x ∷ [])
NotNull-append [] x ne h = (ne, tt)
NotNull-append (y ∷ ys) x ne h = (h.0, NotNull-append ys x ne h.1)
