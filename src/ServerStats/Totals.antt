-- ===== src/ServerStats/Totals.antt =====
-- What `server_stats_record_request` adds, once and over many requests.
use jullop.Base.{
  ℕ, zero, suc, ◌+◌, ◌%◌, ◌^◌, ◌<◌, Outcome, ◌≡◌, refl, arith, List, [], ◌∷◌, length, add_size,
  done, ◌>>=◌,
}
use jullop.RequestStats.{
  TimeType, total_time, client_read_time, client_write_time, actor_time, queue_time, index,
  PerRequestStats,
}
use jullop.ServerStats.{ServerWideStats, server_stats_record_request}

-- The sums of two arrays, element by element.
abbrev pub add_all : List ℕ → List ℕ → List ℕ
add_all [] ys = []
add_all (x ∷ xs) [] = []
add_all (x ∷ xs) (y ∷ ys) = add_size x y ∷ add_all xs ys

add_five :
    (stats : ServerWideStats) (request : PerRequestStats) (xs ys : List ℕ)
    → stats.avg_micros ≡ xs
    → request.total_micros ≡ ys
    → length xs ≡ 5
    → length ys ≡ 5
    → server_stats_record_request stats request ≡ done (record stats { avg_micros = add_all xs ys })
unfolding server_stats_record_request
add_five stats request (a ∷ b ∷ c ∷ d ∷ e ∷ []) (a' ∷ b' ∷ c' ∷ d' ∷ e' ∷ []) p q h k =
    rw (p, q) refl
add_five stats request _ _ p q h k = absurd (omega arith)

-- A request's statistics as `per_request_clear_time` and the timers leave them: five totals.
abbrev pub HasFive : PerRequestStats → Type 0
HasFive request = length request.total_micros ≡ 5

length-add_all : (xs ys : List ℕ) → length xs ≡ length ys → length (add_all xs ys) ≡ length xs
length-add_all [] ys h = refl
length-add_all (x ∷ xs) [] h = absurd (omega arith)
length-add_all (x ∷ xs) (y ∷ ys) h = omega (arith, length-add_all xs ys)

-- `server_stats_record_request` adds each of the five totals of the request to the total of the
-- server with the same index, modulo 2 ^ 64, and leaves the two counters alone.
pub record_request_lem :
    (stats : ServerWideStats) (request : PerRequestStats)
    → length stats.avg_micros ≡ 5
    → HasFive request
    → (server_stats_record_request stats request
        ≡ done (record stats { avg_micros = add_all stats.avg_micros request.total_micros }))
      × (length (add_all stats.avg_micros request.total_micros) ≡ 5)
record_request_lem stats request h k = (
  add_five stats request stats.avg_micros request.total_micros refl refl h k,
  omega (arith, length-add_all stats.avg_micros request.total_micros),
)

-- The statistics with a request's totals added.
abbrev pub recorded : ServerWideStats → PerRequestStats → ServerWideStats
recorded stats request = record stats { avg_micros = add_all stats.avg_micros request.total_micros }

-- What a list has at an index.
abbrev pub slot : List ℕ → ℕ → ℕ
slot [] i = 0
slot (x ∷ xs) zero = x
slot (x ∷ xs) (suc i) = slot xs i

slot-add_all :
    (xs ys : List ℕ) (i : ℕ)
    → length xs ≡ length ys
    → i < length xs
    → slot (add_all xs ys) i ≡ add_size (slot xs i) (slot ys i)
slot-add_all [] ys i same small = absurd (omega arith)
slot-add_all (x ∷ xs) [] i same small = absurd (omega arith)
slot-add_all (x ∷ xs) (y ∷ ys) zero same small = refl
slot-add_all (x ∷ xs) (y ∷ ys) (suc i) same small = slot-add_all xs ys i (omega arith) (omega arith)

index_small : (type : TimeType) → index type < 5
index_small total_time = omega arith
index_small client_read_time = omega arith
index_small client_write_time = omega arith
index_small actor_time = omega arith
index_small queue_time = omega arith

-- The requests recorded one after the other.
abbrev pub record_all : ServerWideStats → List PerRequestStats → Outcome ServerWideStats
record_all stats [] = done stats
record_all stats (request ∷ requests) =
    server_stats_record_request stats request >>= λ after. record_all after requests

abbrev pub AllFive : List PerRequestStats → Type 0
AllFive [] = Unit {0}
AllFive (request ∷ requests) = HasFive request × AllFive requests

-- The sum of the requests' times of one type.
abbrev pub time_spent : TimeType → List PerRequestStats → ℕ
time_spent type [] = 0
time_spent type (request ∷ requests) =
    slot request.total_micros (index type) + time_spent type requests

-- However many requests with five times each are recorded, on statistics whose totals fit into 64
-- bits, every call returns, and the total of each type is what it was plus the sum of the requests'
-- times of that type, modulo 2 ^ 64; the two counters are as they were.
pub record_all_lem :
    (requests : List PerRequestStats) (stats : ServerWideStats)
    → length stats.avg_micros ≡ 5
    → ((type : TimeType) → slot stats.avg_micros (index type) < 2 ^ 64)
    → AllFive requests
    → (stats' : ServerWideStats) × (record_all stats requests ≡ done stats')
      × (length stats'.avg_micros ≡ 5)
      × ((type : TimeType)
          → slot stats'.avg_micros (index type)
            ≡ (slot stats.avg_micros (index type) + time_spent type requests) % 2 ^ 64)
      × (stats'.active_connections ≡ stats.active_connections)
      × (stats'.total_requests_processed ≡ stats.total_requests_processed)
record_all_lem [] stats h fits five = (stats, refl, h, λ type. omega (arith, fits type), refl, refl)
record_all_lem (request ∷ requests) stats h fits five =
    let (e, next_five) = record_request_lem stats request h five.0 in
    let next : ServerWideStats = record stats {
      avg_micros = add_all stats.avg_micros request.total_micros;
    } in
    let added = λ (type : TimeType).
      slot-add_all stats.avg_micros request.total_micros (index type) (omega (arith, h, five.0))
        (omega (arith, h, index_small type)) in
    let (last, runs, last_five, totals, active, total) =
      record_all_lem requests next next_five (λ type. omega (arith, added type)) five.1 in
    (last, rw e runs, last_five, λ type. omega (arith, totals type, added type), active, total)
