-- ===== src/ServerStats/Examples.antt =====
-- Two requests recorded.
use jullop.Base.{◌+◌, ◌%◌, ◌^◌, ◌<◌, arith, length, done, ◌≡◌, refl, ◌∷◌, [], replicate}
use jullop.RequestStats.{
  TimeType, total_time, client_read_time, client_write_time, actor_time, queue_time, index,
  PerRequestStats, epoch,
}
use jullop.ServerStats.{ServerWideStats}
use jullop.ServerStats.Totals.{slot, record_all, time_spent, record_all_lem}

-- The first total wraps around.
abbrev stats : ServerWideStats
stats = record {
  avg_micros = 18446744073709551615 ∷ 1 ∷ 2 ∷ 3 ∷ 4 ∷ [];
  active_connections = 2;
  total_requests_processed = 7;
}

abbrev one : PerRequestStats
one = record { start = replicate 5 epoch; total_micros = 5 ∷ 6 ∷ 7 ∷ 8 ∷ 9 ∷ []; is_time_set = 0 }

abbrev other : PerRequestStats
other = record one { total_micros = 10 ∷ 0 ∷ 20 ∷ 0 ∷ 30 ∷ [] }

fits : (type : TimeType) → slot stats.avg_micros (index type) < 2 ^ 64
fits total_time = omega arith
fits client_read_time = omega arith
fits client_write_time = omega arith
fits actor_time = omega arith
fits queue_time = omega arith

record_all_lem_example :
    (stats' : ServerWideStats) × (record_all stats (one ∷ other ∷ []) ≡ done stats')
    × (length stats'.avg_micros ≡ 5)
    × ((type : TimeType)
        → slot stats'.avg_micros (index type)
          ≡ (slot stats.avg_micros (index type) + time_spent type (one ∷ other ∷ [])) % 2 ^ 64)
    × (stats'.active_connections ≡ 2)
    × (stats'.total_requests_processed ≡ 7)
record_all_lem_example = record_all_lem (one ∷ other ∷ []) stats refl fits (refl, (refl, tt))
