-- ===== src/ServerStats.antt =====
-- src/server_stats.c: the counters that the threads share. Each is a 64-bit atomic that is changed
-- by atomic_fetch_add only. `server_stats_get_time` divides doubles and is left out.
pub mod Totals
mod Examples
use jullop.Base.{
  ℕ, Bool, not, List, add_size, sub_size, replicate, Outcome, done, ◌>>=◌, ◌>>◌, check, load, store,
}
use jullop.RequestStats.{
  TimeType, total_time, client_read_time, client_write_time, actor_time, queue_time, index,
  PerRequestStats, per_request_get_time,
}

-- `struct ServerWideStats`
pub record ServerWideStats : Type 0 where
  pub avg_micros : List ℕ
  pub active_connections : ℕ
  pub total_requests_processed : ℕ

-- The argument says whether the allocation succeeds.
unfoldable pub server_stats_init : Bool → Outcome ServerWideStats
server_stats_init struct_mem = do
  check (not struct_mem)
  done (record { avg_micros = replicate 5 0; active_connections = 0; total_requests_processed = 0 })

-- The two lines of `server_stats_record_request` for one type of time.
unfoldable pub atomic_add : ServerWideStats → PerRequestStats → TimeType → Outcome ServerWideStats
unfolding per_request_get_time
atomic_add stats request type = do
  micros ← per_request_get_time request type
  before ← load stats.avg_micros (index type)
  after ← store stats.avg_micros (index type) (add_size before micros)
  done (record stats { avg_micros = after })

unfoldable pub server_stats_record_request :
    ServerWideStats → PerRequestStats → Outcome ServerWideStats
unfolding atomic_add
server_stats_record_request stats request = atomic_add stats request total_time >>= λ stats.
    atomic_add stats request client_read_time >>= λ stats.
    atomic_add stats request client_write_time >>= λ stats.
    atomic_add stats request actor_time >>= λ stats. atomic_add stats request queue_time

unfoldable pub server_stats_incr_active_requests : ServerWideStats → ServerWideStats
server_stats_incr_active_requests stats = record stats {
  active_connections = add_size stats.active_connections 1;
}

unfoldable pub server_stats_decr_active_requests : ServerWideStats → ServerWideStats
server_stats_decr_active_requests stats = record stats {
  active_connections = sub_size stats.active_connections 1;
}

pub server_stats_get_active_requests : ServerWideStats → ℕ
server_stats_get_active_requests stats = stats.active_connections

unfoldable pub server_stats_incr_total_requests : ServerWideStats → ServerWideStats
server_stats_incr_total_requests stats = record stats {
  total_requests_processed = add_size stats.total_requests_processed 1;
}

unfoldable pub server_stats_decr_total_requests : ServerWideStats → ServerWideStats
server_stats_decr_total_requests stats = record stats {
  total_requests_processed = sub_size stats.total_requests_processed 1;
}

pub server_stats_get_total_requests : ServerWideStats → ℕ
server_stats_get_total_requests stats = stats.total_requests_processed
