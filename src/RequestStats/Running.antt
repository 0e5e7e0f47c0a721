-- ===== src/RequestStats/Running.antt =====
-- One start or end of a timer, seen only by which timers run.
use jullop.Base.{
  ℕ, ◌<◌, ◌≡◌, refl, arith, Bool, true, false, not, ◌&&◌, ◌||◌, length, set, length-set, ◌==◌, ◌!=◌,
  if◌then◌else◌, add_size, load_inside, store, done, ◌∙◌,
}
use jullop.RequestStats.{
  TimeType, PerRequestStats, Timespec, index, bit, set_bit, clear_bit, get_time_delta,
  per_request_clear_time, per_request_record_start, per_request_record_end,
}
use jullop.RequestStats.Masks.{bit-set_bit, bit-clear_bit, bit-zero}
use jullop.RequestStats.Refine.{update, index_small}

pub record Running (stats : PerRequestStats) (runs : ℕ → Bool) : Type 0 where
  pub byte : stats.is_time_set < 256
  pub starts : length stats.start ≡ 5
  pub totals : length stats.total_micros ≡ 5
  pub bits : (i : ℕ) → i < 5 → (bit stats.is_time_set i != 0) ≡ runs i

set_runs : (b c d : Bool) → c ≡ d → (b || c) ≡ (if b then true else d)
set_runs true c d e = refl
set_runs false c d e = e

clear_runs : (b c d : Bool) → c ≡ d → (not b && c) ≡ (if b then false else d)
clear_runs true c d e = refl
clear_runs false c d e = e

-- The sets of running timers are compared index by index.
pub Running-same :
    (stats : PerRequestStats) (runs also : ℕ → Bool)
    → Running stats runs
    → ((i : ℕ) → runs i ≡ also i)
    → Running stats also
Running-same stats runs also r same = record {
  byte = r.byte;
  starts = r.starts;
  totals = r.totals;
  bits = λ i h. r.bits i h ∙ same i;
}

-- A timer that does not run is started.
pub record_start_runs :
    (stats : PerRequestStats) (runs : ℕ → Bool) (type : TimeType) (now : Timespec)
    → Running stats runs
    → runs (index type) ≡ false
    → (stats' : PerRequestStats) × (per_request_record_start stats type now ≡ done stats')
      × Running stats' (update runs (index type) true)
unfolding per_request_record_start
record_start_runs stats runs type now r idle =
    let i = index type in
    let clear : (bit stats.is_time_set i != 0) ≡ false = r.bits i (index_small type) ∙ idle in
    let inside : store stats.start i now ≡ done (set stats.start i now) =
      ground (arith, r.starts, index_small type) in
    (
      record stats { is_time_set = set_bit stats.is_time_set i; start = set stats.start i now },
      rw (clear, inside) refl,
      record {
        byte = omega arith;
        starts = length-set stats.start i now ∙ r.starts;
        totals = r.totals;
        bits = λ u h.
            bit-set_bit stats.is_time_set i u r.byte (index_small type) h
            ∙ set_runs (u == i) _ _ (r.bits u h);
      },
    )

-- A timer that runs is ended.
pub record_end_runs :
    (stats : PerRequestStats) (runs : ℕ → Bool) (type : TimeType) (now : Timespec)
    → Running stats runs
    → runs (index type) ≡ true
    → (stats' : PerRequestStats) × (per_request_record_end stats type now ≡ done stats')
      × Running stats' (update runs (index type) false)
unfolding per_request_record_end
record_end_runs stats runs type now r runs_now =
    let i = index type in
    let is_set : (bit stats.is_time_set i != 0) ≡ true = r.bits i (index_small type) ∙ runs_now in
    let small = index_small type in
    let (from, e) = load_inside stats.start i (omega (arith, small, r.starts)) in
    let (before, f) = load_inside stats.total_micros i (omega (arith, small, r.totals)) in
    let sum = add_size before (get_time_delta from now) in
    let inside : store stats.total_micros i sum ≡ done (set stats.total_micros i sum) =
      ground (arith, r.totals, small) in
    (
      record stats {
        is_time_set = clear_bit stats.is_time_set i;
        total_micros = set stats.total_micros i sum;
      },
      rw (is_set, e, f, inside) refl,
      record {
        byte = omega arith;
        starts = r.starts;
        totals = length-set stats.total_micros i sum ∙ r.totals;
        bits = λ u h.
            bit-clear_bit stats.is_time_set i u r.byte small h
            ∙ clear_runs (u == i) _ _ (r.bits u h);
      },
    )

-- After `per_request_clear_time` no timer runs.
pub clear_time_runs :
    (stats : PerRequestStats) → Running (per_request_clear_time stats) (λ i. false)
unfolding per_request_clear_time
clear_time_runs stats = record {
  byte = omega arith;
  starts = refl;
  totals = refl;
  bits = λ i h. bit-zero i h;
}
