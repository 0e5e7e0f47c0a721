-- ===== src/RequestStats/Examples.antt =====
-- Runs of src/request_stats.c at concrete inputs.
use jullop.Base.{◌+◌, ◌-◌, ◌*◌, ◌<◌, ◌≡◌, refl, [], ◌∷◌, arith, exit_failure}
use jullop.RequestStats.{
  Timespec, PerRequestStats, queue_time, actor_time, get_time_delta, per_request_clear_time,
  per_request_record_start,
}
use jullop.RequestStats.Elapsed.{nanoseconds, get_time_delta-near}
use jullop.RequestStats.Refine.{Agree, start, end, record_events, expected, stopped, timers_refine}

abbrev before_second : Timespec
before_second = record { tv_sec = 4; tv_nsec = 999999000 }

abbrev after_second : Timespec
after_second = record { tv_sec = 5; tv_nsec = 1500 }

abbrev dirty : PerRequestStats
dirty = record { start = []; total_micros = []; is_time_set = 77 }

-- The nanoseconds are fewer at the end than at the start.
delta : get_time_delta before_second after_second ≡ 3
unfolding get_time_delta
delta = refl

get_time_delta-near_example :
    (1000 * get_time_delta before_second after_second
      < nanoseconds after_second - nanoseconds before_second + 1000)
    × (nanoseconds after_second - nanoseconds before_second
        < 1000 * get_time_delta before_second after_second + 1000)
get_time_delta-near_example =
    get_time_delta-near before_second after_second
      (record { whole = omega arith; small = omega arith })
      (record { whole = omega arith; small = omega arith }) (omega arith)

-- A timer that is started twice.
twice :
    record_events
      (per_request_clear_time dirty)
      (start queue_time before_second ∷ start queue_time after_second ∷ [])
    ≡ exit_failure
unfolding record_events per_request_clear_time per_request_record_start
twice = refl

timers_refine_example :
    Agree
      (record_events (per_request_clear_time dirty) (
        start queue_time before_second
        ∷ end queue_time after_second
        ∷ start actor_time after_second
        ∷ []))
      (expected stopped (
        start queue_time before_second
        ∷ end queue_time after_second
        ∷ start actor_time after_second
        ∷ []))
timers_refine_example = timers_refine dirty (
    start queue_time before_second
    ∷ end queue_time after_second
    ∷ start actor_time after_second
    ∷ [])
