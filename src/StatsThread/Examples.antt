-- ===== src/StatsThread/Examples.antt =====
-- One actor with two queues, which hold one request and none.
use jullop.Base.{ℕ, zero, suc, ◌<◌, ◌≡◌, refl, [], ◌∷◌, arith, done, replicate}
use jullop.Kernel.Counting.{counting}
use jullop.MrmwQueue.{Queue}
use jullop.MrmwQueue.Invariant.{Represents}
use jullop.Server.{Server, ActorInfo}
use jullop.StatsThread.{queue_usage}
use jullop.StatsThread.Usage.{HasCount, HasQueues, queue_usage_lem}

abbrev none_left : Queue ℕ
none_left = record {
  max_size = 2;
  current_size = 0;
  ring_buffer = 0 ∷ 0 ∷ [];
  enqueue_offset = 0;
  dequeue_offset = 0;
  add_event = 0;
}

abbrev one_left : Queue ℕ
one_left = record none_left { current_size = 1; ring_buffer = 7 ∷ 0 ∷ []; enqueue_offset = 1 }

none_left-Represents : Represents none_left []
none_left-Represents = ground arith

one_left-Represents : Represents one_left (7 ∷ [])
one_left-Represents = ground arith

abbrev actor : ActorInfo ℕ
actor = record { id = 0; input_queue = one_left ∷ none_left ∷ [] }

abbrev server : Server ℕ
server = record {
  server_stats = record {
    avg_micros = replicate 5 0;
    active_connections = 1;
    total_requests_processed = 0;
  };
  io_worker_count = 2;
  actor_count = 1;
  app_actors = actor ∷ [];
}

abbrev count : ℕ → ℕ → ℕ
count i zero = 1
count i (suc j) = 0

counted : (i j : ℕ) → j < 2 → HasCount actor.input_queue j (count i j)
counted i zero h = record {
  queue = one_left;
  items = 7 ∷ [];
  queue_at = refl;
  holds = one_left-Represents;
  many = refl;
}
counted i (suc zero) h = record {
  queue = none_left;
  items = [];
  queue_at = refl;
  holds = none_left-Represents;
  many = refl;
}
counted i (suc (suc j)) h = absurd (omega arith)

has_queues : (i : ℕ) → i < 1 → HasQueues server.app_actors i 2 (count i)
has_queues zero h = record { actor = actor; actor_at = refl; queues = counted 0 }
has_queues (suc i) h = absurd (omega arith)

queue_usage_lem_example : queue_usage counting (record { lock = 0; unlock = 0 }) server ≡ done 1
queue_usage_lem_example =
    queue_usage_lem counting (record { lock = 0; unlock = 0 }) (refl, refl) server count has_queues
