-- ===== src/StatsThread.antt =====
-- src/stats_thread.c: the number of requests that wait for an actor. The printing is left out.
pub mod Usage
mod Examples
use jullop.Base.{ℕ, zero, suc, List, add_size, Outcome, done, ◌>>=◌, load}
use jullop.Kernel.{EventFd}
use jullop.MrmwQueue.{Queue, Mutex, queue_size}
use jullop.Server.{Server, ActorInfo}

module _ (efd : EventFd) (m : Mutex) where
  -- The inner loop of `queue_usage`, with the rounds left and `queue_id`.
  unfoldable pub queue_sizes : ℕ → ℕ → List (Queue efd.State) → ℕ → Outcome ℕ
  queue_sizes zero queue_id queues size = done size
  queue_sizes (suc left) queue_id queues size = do
    queue ← load queues queue_id
    n ← queue_size efd m queue
    queue_sizes left (suc queue_id) queues (add_size size n)

  -- The outer loop, with the rounds left and `actor_id`.
  unfoldable pub actor_sizes : ℕ → ℕ → ℕ → List (ActorInfo efd.State) → ℕ → Outcome ℕ
  actor_sizes zero workers actor_id actors size = done size
  actor_sizes (suc left) workers actor_id actors size = do
    actor ← load actors actor_id
    size' ← queue_sizes workers 0 actor.input_queue size
    actor_sizes left workers (suc actor_id) actors size'

  unfoldable pub queue_usage : Server efd.State → Outcome ℕ
  queue_usage server = actor_sizes server.actor_count server.io_worker_count 0 server.app_actors 0
