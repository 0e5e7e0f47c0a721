-- ===== src/RequestStats.antt =====
-- src/request_stats.c: the timers of a request. `time_t` has 64 bits, in two's complement: the
-- differences wrap as those of `size_t`. What clock_gettime stores is an argument.
pub mod Elapsed
pub mod Masks
pub mod Refine
pub mod Running
mod Examples
use Prim.Native.Nat.{bit_and, bit_or}
use Prim.Native.String.{String}
use jullop.Base.{
  ℕ, ◌+◌, ◌-◌, ◌*◌, ◌/◌, ◌%◌, ◌^◌, Bool, not, List, add_size, sub_size, size_mod, replicate, ltb,
  ◌!=◌, if◌then◌else◌, Outcome, done, ◌>>=◌, ◌>>◌, check, load, store,
}

-- `enum TimeType`
pub data TimeType : Type 0 where
  total_time client_read_time client_write_time actor_time queue_time : TimeType

abbrev pub index : TimeType → ℕ
index total_time = 0
index client_read_time = 1
index client_write_time = 2
index actor_time = 3
index queue_time = 4

-- Its default branch is for values outside the enumeration.
pub time_name : TimeType → String
time_name total_time = "TOTAL_TIME"
time_name client_read_time = "CLIENT_READ_TIME"
time_name client_write_time = "CLIENT_WRITE_TIME"
time_name actor_time = "ACTOR_TIME"
time_name queue_time = "QUEUE_TIME"

-- `struct timespec`
pub record Timespec : Type 0 where
  pub tv_sec : ℕ
  pub tv_nsec : ℕ

pub record PerRequestStats : Type 0 where
  pub start : List Timespec
  pub total_micros : List ℕ
  pub is_time_set : ℕ

-- `x / 1000` of a signed x, which rounds toward 0.
abbrev pub thousandth : ℕ → ℕ
thousandth x = if ltb x (2 ^ 63) then x / 1000 else sub_size 0 ((size_mod - x) / 1000)

-- The differences are signed in C, where an overflow is undefined; here they wrap around modulo 2 ^ 64.
unfoldable pub get_time_delta : Timespec → Timespec → ℕ
get_time_delta start_time end_time =
    let sec = sub_size end_time.tv_sec start_time.tv_sec in
    let nsec = sub_size end_time.tv_nsec start_time.tv_nsec in
    add_size (1000000 * sec % size_mod) (thousandth nsec)

abbrev pub epoch : Timespec
epoch = record { tv_sec = 0; tv_nsec = 0 }

unfoldable pub per_request_clear_time : PerRequestStats → PerRequestStats
per_request_clear_time stats = record stats {
  is_time_set = 0;
  start = replicate 5 epoch;
  total_micros = replicate 5 0;
}

-- stats->is_time_set & (1 << type)
abbrev pub bit : ℕ → ℕ → ℕ
bit set type = bit_and set (2 ^ type)

unfoldable pub per_request_is_time_set : PerRequestStats → TimeType → Bool
per_request_is_time_set stats type = bit stats.is_time_set (index type) != 0

-- The bit set as an `int`, stored back into 8 bits.
abbrev pub set_bit : ℕ → ℕ → ℕ
set_bit set type = bit_or set (2 ^ type) % 2 ^ 8

abbrev pub clear_bit : ℕ → ℕ → ℕ
clear_bit set type = bit_and set (2 ^ 32 - 1 - 2 ^ type) % 2 ^ 8

-- `now` is what clock_gettime stores.
unfoldable pub per_request_record_start :
    PerRequestStats → TimeType → Timespec → Outcome PerRequestStats
per_request_record_start stats type now = do
  check (bit stats.is_time_set (index type) != 0)
  started ← store stats.start (index type) now
  done (record stats { is_time_set = set_bit stats.is_time_set (index type); start = started })

unfoldable pub per_request_record_end :
    PerRequestStats → TimeType → Timespec → Outcome PerRequestStats
per_request_record_end stats type now = do
  check (not (bit stats.is_time_set (index type) != 0))
  start ← load stats.start (index type)
  total ← load stats.total_micros (index type)
  totals ← store stats.total_micros (index type) (add_size total (get_time_delta start now))
  done (record stats {
    is_time_set = clear_bit stats.is_time_set (index type);
    total_micros = totals;
  })

unfoldable pub per_request_get_time : PerRequestStats → TimeType → Outcome ℕ
per_request_get_time stats type = load stats.total_micros (index type)
