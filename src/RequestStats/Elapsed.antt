-- ===== src/RequestStats/Elapsed.antt =====
-- How close `get_time_delta` comes to the time that passed.
use jullop.Base.{ℕ, ◌+◌, ◌-◌, ◌*◌, ◌^◌, ◌≤◌, ◌<◌, arith}
use jullop.RequestStats.{Timespec, get_time_delta}

abbrev pub nanoseconds : Timespec → ℕ
nanoseconds t = 1000000000 * t.tv_sec + t.tv_nsec

-- What clock_gettime stores on a system up for less than 2 ^ 40 seconds.
pub record IsTime (t : Timespec) : Type 0 where
  pub whole : t.tv_nsec < 1000000000
  pub small : t.tv_sec < 2 ^ 40

-- Between two times of a clock that does not go back, `get_time_delta` does not overflow, and is less
-- than a microsecond from the time that passed, also where the nanoseconds are fewer at the end.
pub get_time_delta-near :
    (s e : Timespec)
    → IsTime s
    → IsTime e
    → nanoseconds s ≤ nanoseconds e
    → (1000 * get_time_delta s e < nanoseconds e - nanoseconds s + 1000)
      × (nanoseconds e - nanoseconds s < 1000 * get_time_delta s e + 1000)
unfolding get_time_delta
get_time_delta-near s e hs he le = ground (arith, hs.whole, hs.small, he.whole, he.small)
