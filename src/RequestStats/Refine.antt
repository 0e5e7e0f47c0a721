-- ===== src/RequestStats/Refine.antt =====
-- The timers of a request as five stopwatches.
use mathlib.Core.Path.{subst}
use jullop.Base.{
  ℕ, suc, ◌<◌, ◌≡◌, refl, arith, Bool, true, false, not, ◌&&◌, ◌||◌, Option, none, some, List, [],
  ◌∷◌, length, get_elem?, set, length-set, get_elem?-set_self, get_elem?-set_ne, ◌==◌, Bool-cases,
  inl, inr, load, store, replicate, zero, ltb, ◌≢◌, ◌!=◌, if◌then◌else◌, add_size, Outcome, done,
  exit_failure, fault, unfinished, ◌>>=◌, ◌∙◌, ap, sym,
}
use jullop.RequestStats.{
  TimeType, total_time, client_read_time, client_write_time, actor_time, queue_time, Timespec,
  PerRequestStats, index, bit, set_bit, clear_bit, get_time_delta, per_request_clear_time,
  per_request_record_start, per_request_record_end,
}
use jullop.RequestStats.Masks.{bit-set_bit, bit-clear_bit, bit-zero}

-- Since when a stopwatch runs, if it does, and what it has added up.
pub record Stopwatches : Type 0 where
  pub since : ℕ → Option Timespec
  pub total : ℕ → ℕ

abbrev pub update {ℓ} : {A : Type ℓ} → (ℕ → A) → ℕ → A → ℕ → A
update f i v = λ u. if u == i then v else f u

pub data Event : Type 0 where
  start : TimeType → Timespec → Event
  end : TimeType → Timespec → Event

abbrev started : Stopwatches → ℕ → Timespec → Option Timespec → Outcome Stopwatches
started w i now none = done (record w { since = update w.since i (some now) })
started w i now (some t) = exit_failure

abbrev ended : Stopwatches → ℕ → Timespec → Option Timespec → Outcome Stopwatches
ended w i now none = exit_failure
ended w i now (some t) = done (record {
  since = update w.since i none;
  total = update w.total i (add_size (w.total i) (get_time_delta t now));
})

-- It is an error to start a stopwatch that runs and to end one that does not.
abbrev pub expected_event : Stopwatches → Event → Outcome Stopwatches
expected_event w (start type now) = started w (index type) now (w.since (index type))
expected_event w (end type now) = ended w (index type) now (w.since (index type))

unfoldable pub expected : Stopwatches → List Event → Outcome Stopwatches
expected w [] = done w
expected w (e ∷ events) = expected_event w e >>= λ w'. expected w' events

abbrev pub record_event : PerRequestStats → Event → Outcome PerRequestStats
record_event stats (start type now) = per_request_record_start stats type now
record_event stats (end type now) = per_request_record_end stats type now

unfoldable pub record_events : PerRequestStats → List Event → Outcome PerRequestStats
record_events stats [] = done stats
record_events stats (e ∷ events) = record_event stats e >>= λ stats'. record_events stats' events

abbrev running : Option Timespec → Bool
running none = false
running (some t) = true

-- The bit says whether the timer runs; its slot of `start` means nothing unless it does.
abbrev Started : List Timespec → ℕ → Option Timespec → Type 0
Started slots i none = Unit {0}
Started slots i (some t) = get_elem? slots i ≡ some t

pub record Represents (stats : PerRequestStats) (w : Stopwatches) : Type 0 where
  pub byte : stats.is_time_set < 256
  pub starts : length stats.start ≡ 5
  pub totals : length stats.total_micros ≡ 5
  pub bits : (i : ℕ) → i < 5 → (bit stats.is_time_set i != 0) ≡ running (w.since i)
  pub since_at : (i : ℕ) → i < 5 → Started stats.start i (w.since i)
  pub total_at : (i : ℕ) → i < 5 → get_elem? stats.total_micros i ≡ some (w.total i)

abbrev pub Agree : Outcome PerRequestStats → Outcome Stopwatches → Type 0
Agree (done stats) (done w) = Represents stats w
Agree exit_failure exit_failure = Unit {0}
Agree _ _ = ⊥

pub index_small : (t : TimeType) → index t < 5
index_small total_time = omega arith
index_small client_read_time = omega arith
index_small client_write_time = omega arith
index_small actor_time = omega arith
index_small queue_time = omega arith

running_set :
    (b c : Bool) (now : Timespec) (old : Option Timespec)
    → c ≡ running old
    → (b || c) ≡ running (if b then some now else old)
running_set true c now old e = refl
running_set false c now old e = e

running_clear :
    (b c : Bool) (old : Option Timespec)
    → c ≡ running old
    → (not b && c) ≡ running (if b then none else old)
running_clear true c old e = refl
running_clear false c old e = e

slot_kept :
    (xs ys : List Timespec) (u : ℕ) (o : Option Timespec)
    → get_elem? ys u ≡ get_elem? xs u
    → Started xs u o
    → Started ys u o
slot_kept xs ys u none e h = tt
slot_kept xs ys u (some t) e h = e ∙ h

slot_set :
    (slots : List Timespec) (u i : ℕ) (now : Timespec) (old : Option Timespec)
    → i < length slots
    → Started slots u old
    → Started (set slots i now) u (if u == i then some now else old)
slot_set slots u i now old h s = elim (Bool-cases (u == i)) [
  | inl same ↦
      let at : i ≡ u = ground arith in
      rw same (ap (λ k. get_elem? (set slots i now) k) (sym at) ∙ get_elem?-set_self slots i now h)
  | inr other ↦
      let apart : i ≢ u = λ e. ground arith in
      rw other (slot_kept slots (set slots i now) u old (get_elem?-set_ne slots i u now apart) s)
]

slot_free :
    (slots : List Timespec) (b : Bool) (u : ℕ) (old : Option Timespec)
    → Started slots u old
    → Started slots u (if b then none else old)
slot_free slots true u old s = tt
slot_free slots false u old s = s

total_set :
    (totals : List ℕ) (u i v : ℕ) (old : ℕ)
    → i < length totals
    → get_elem? totals u ≡ some old
    → get_elem? (set totals i v) u ≡ some (if u == i then v else old)
total_set totals u i v old h s = elim (Bool-cases (u == i)) [
  | inl same ↦
      let at : i ≡ u = ground arith in
      rw same (ap (λ k. get_elem? (set totals i v) k) (sym at) ∙ get_elem?-set_self totals i v h)
  | inr other ↦
      let apart : i ≢ u = λ e. ground arith in rw other (get_elem?-set_ne totals i u v apart ∙ s)
]

-- A start of a timer that does not run.
started-Represents :
    (stats : PerRequestStats) (w : Stopwatches) (i : ℕ) (now : Timespec)
    → i < 5
    → Represents stats w
    → Represents
        (record stats { is_time_set = set_bit stats.is_time_set i; start = set stats.start i now })
        (record w { since = update w.since i (some now) })
started-Represents stats w i now h r = record {
  byte = omega arith;
  starts = length-set stats.start i now ∙ r.starts;
  totals = r.totals;
  bits = λ u hu.
      bit-set_bit stats.is_time_set i u r.byte h hu
      ∙ running_set (u == i) _ now (w.since u) (r.bits u hu);
  since_at =
      λ u hu. slot_set stats.start u i now (w.since u) (omega (arith, r.starts)) (r.since_at u hu);
  total_at = r.total_at;
}

-- An end of a timer that runs.
ended-Represents :
    (stats : PerRequestStats) (w : Stopwatches) (i v : ℕ)
    → i < 5
    → Represents stats w
    → Represents
        (record stats {
          is_time_set = clear_bit stats.is_time_set i;
          total_micros = set stats.total_micros i v;
        })
        (record { since = update w.since i none; total = update w.total i v })
ended-Represents stats w i v h r = record {
  byte = omega arith;
  starts = r.starts;
  totals = length-set stats.total_micros i v ∙ r.totals;
  bits = λ u hu.
      bit-clear_bit stats.is_time_set i u r.byte h hu
      ∙ running_clear (u == i) _ (w.since u) (r.bits u hu);
  since_at = λ u hu. slot_free stats.start (u == i) u (w.since u) (r.since_at u hu);
  total_at = λ u hu.
      total_set stats.total_micros u i v (w.total u) (omega (arith, r.totals)) (r.total_at u hu);
}

start-Agree :
    (stats : PerRequestStats) (w : Stopwatches) (type : TimeType) (now : Timespec)
    (o : Option Timespec)
    → w.since (index type) ≡ o
    → Represents stats w
    → Agree (per_request_record_start stats type now) (started w (index type) now o)
unfolding per_request_record_start
start-Agree stats w type now none e r =
    let clear : (bit stats.is_time_set (index type) != 0) ≡ false =
      r.bits (index type) (index_small type) ∙ ap running e in
    let inside : ltb (index type) (length stats.start) ≡ true =
      ground (arith, r.starts, index_small type) in
    rw (clear, inside) (started-Represents stats w (index type) now (index_small type) r)
start-Agree stats w type now (some t) e r =
    let is_set : (bit stats.is_time_set (index type) != 0) ≡ true =
      r.bits (index type) (index_small type) ∙ ap running e in
    rw is_set tt

end-Agree :
    (stats : PerRequestStats) (w : Stopwatches) (type : TimeType) (now : Timespec)
    (o : Option Timespec)
    → w.since (index type) ≡ o
    → Represents stats w
    → Agree (per_request_record_end stats type now) (ended w (index type) now o)
unfolding per_request_record_end
end-Agree stats w type now none e r =
    let clear : (bit stats.is_time_set (index type) != 0) ≡ false =
      r.bits (index type) (index_small type) ∙ ap running e in
    rw clear tt
end-Agree stats w type now (some t) e r =
    let is_set : (bit stats.is_time_set (index type) != 0) ≡ true =
      r.bits (index type) (index_small type) ∙ ap running e in
    let sum = add_size (w.total (index type)) (get_time_delta t now) in
    let at : get_elem? stats.start (index type) ≡ some t =
      subst (Started stats.start (index type)) e (r.since_at (index type) (index_small type)) in
    let from : load stats.start (index type) ≡ done t = rw (load, at) refl in
    let before : load stats.total_micros (index type) ≡ done (w.total (index type)) =
      rw (load, r.total_at (index type) (index_small type)) refl in
    let inside : store stats.total_micros (index type) sum
        ≡ done (set stats.total_micros (index type) sum) =
      ground (arith, r.totals, index_small type) in
    rw (is_set, from, before, inside)
      (ended-Represents stats w (index type) sum (index_small type) r)

event-Agree :
    (stats : PerRequestStats) (w : Stopwatches) (e : Event)
    → Represents stats w
    → Agree (record_event stats e) (expected_event w e)
event-Agree stats w (start type now) r = start-Agree stats w type now _ refl r
event-Agree stats w (end type now) r = end-Agree stats w type now _ refl r

Agree-bind :
    (a : Outcome PerRequestStats) (b : Outcome Stopwatches)
    (f : PerRequestStats → Outcome PerRequestStats) (g : Stopwatches → Outcome Stopwatches)
    → Agree a b
    → ((s : PerRequestStats) (w : Stopwatches) → Represents s w → Agree (f s) (g w))
    → Agree (a >>= f) (b >>= g)
Agree-bind (done s) (done w) f g r h = h s w r
Agree-bind exit_failure exit_failure f g r h = tt
Agree-bind (done s) exit_failure f g r h = absurd r
Agree-bind (done s) fault f g r h = absurd r
Agree-bind (done s) unfinished f g r h = absurd r
Agree-bind exit_failure (done w) f g r h = absurd r
Agree-bind exit_failure fault f g r h = absurd r
Agree-bind exit_failure unfinished f g r h = absurd r
Agree-bind fault b f g r h = absurd r
Agree-bind unfinished b f g r h = absurd r

events-Agree :
    (events : List Event) (stats : PerRequestStats) (w : Stopwatches)
    → Represents stats w
    → Agree (record_events stats events) (expected w events)
unfolding record_events expected
events-Agree [] stats w r = r
events-Agree (e ∷ events) stats w r =
    Agree-bind (record_event stats e) (expected_event w e) _ _ (event-Agree stats w e r)
      (λ s w' r'. events-Agree events s w' r')

abbrev pub stopped : Stopwatches
stopped = record { since = λ i. none; total = λ i. 0 }

get_elem?-replicate : (n a u : ℕ) → u < n → get_elem? (replicate n a) u ≡ some a
get_elem?-replicate zero a u h = absurd (omega arith)
get_elem?-replicate (suc n) a zero h = refl
get_elem?-replicate (suc n) a (suc u) h = get_elem?-replicate n a u (omega arith)

cleared-Represents : (stats : PerRequestStats) → Represents (per_request_clear_time stats) stopped
unfolding per_request_clear_time
cleared-Represents stats = record {
  byte = omega arith;
  starts = refl;
  totals = refl;
  bits = λ u hu. bit-zero u hu;
  since_at = λ u hu. tt;
  total_at = λ u hu. get_elem?-replicate 5 0 u hu;
}

-- After `per_request_clear_time`, whatever the fields were, any sequence of starts and ends is
-- recorded as five stopwatches record it: the process exits exactly where a timer that runs is
-- started or one that does not run is ended; otherwise the bits say which timers run, and the totals
-- are the sums of what passed between the starts and the ends, each timer apart from the others.
pub timers_refine :
    (stats : PerRequestStats) (events : List Event)
    → Agree (record_events (per_request_clear_time stats) events) (expected stopped events)
timers_refine stats events =
    events-Agree events (per_request_clear_time stats) stopped (cleared-Represents stats)
