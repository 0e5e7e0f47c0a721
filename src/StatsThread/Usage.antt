-- ===== src/StatsThread/Usage.antt =====
-- `queue_usage` is the number of the requests in all queues.
use jullop.Base.{
  ℕ, zero, suc, ◌+◌, ◌%◌, ◌^◌, ◌<◌, ◌≡◌, sym, ◌∙◌, arith, ap, List, length, add_size, ◌!=◌, false,
  done, load,
}
use jullop.Kernel.{EventFd}
use jullop.MrmwQueue.{Queue, Mutex, queue_size}
use jullop.MrmwQueue.Invariant.{Represents}
use jullop.MrmwQueue.Refine.{Works}
use jullop.Server.{Server, ActorInfo}
use jullop.StatsThread.{queue_sizes, actor_sizes, queue_usage}

-- f id + f (id + 1) + ..., for so many terms.
abbrev pub sum_from : (ℕ → ℕ) → ℕ → ℕ → ℕ
sum_from f id zero = 0
sum_from f id (suc left) = f id + sum_from f (suc id) left

-- A queue of the list, and in it so many requests.
pub record HasCount {Q : Type 0} (queues : List (Queue Q)) (id n : ℕ) : Type 0 where
  pub queue : Queue Q
  pub items : List ℕ
  pub queue_at : load queues id ≡ done queue
  pub holds : Represents queue items
  pub many : length items ≡ n

-- An actor of the list, and its queues.
pub record HasQueues {Q : Type 0} (actors : List (ActorInfo Q)) (id workers : ℕ) (count : ℕ → ℕ)
    : Type 0 where
  pub actor : ActorInfo Q
  pub actor_at : load actors id ≡ done actor
  pub queues : (j : ℕ) → j < workers → HasCount actor.input_queue j (count j)

add_sum : (size a b : ℕ) → (add_size size a + b) % 2 ^ 64 ≡ (size + (a + b)) % 2 ^ 64
add_sum size a b = omega arith

module _ (efd : EventFd) (m : Mutex) (works : Works m) where
  size_count :
      (q : Queue efd.State) (items : List ℕ)
      → Represents q items
      → queue_size efd m q ≡ done (length items)
  unfolding queue_size
  size_count q items rep =
      let l : (m.lock != 0) ≡ false = ground (arith, works) in
      let u : (m.unlock != 0) ≡ false = ground (arith, works) in
      rw (l, u) (ap done (sym rep.counted))

  queue_sizes_lem :
      (left id size : ℕ) (queues : List (Queue efd.State)) (count : ℕ → ℕ)
      → size < 2 ^ 64
      → ((j : ℕ) → j < id + left → HasCount queues j (count j))
      → queue_sizes efd m left id queues size ≡ done ((size + sum_from count id left) % 2 ^ 64)
  unfolding queue_sizes
  queue_sizes_lem zero id size queues count small h = ap done (omega arith)
  queue_sizes_lem (suc left) id size queues count small h =
      let at = h id (omega arith) in
      let n = size_count at.queue at.items at.holds in
      rw (at.queue_at, n, at.many)
        (queue_sizes_lem left (suc id) (add_size size (count id)) queues count (omega arith)
            (λ j b. h j (omega arith))
          ∙ ap done (add_sum size (count id) (sum_from count (suc id) left)))

  actor_sizes_lem :
      (left workers id size : ℕ) (actors : List (ActorInfo efd.State)) (count : ℕ → ℕ → ℕ)
      → size < 2 ^ 64
      → ((i : ℕ) → i < id + left → HasQueues actors i workers (count i))
      → actor_sizes efd m left workers id actors size
        ≡ done ((size + sum_from (λ i. sum_from (count i) 0 workers) id left) % 2 ^ 64)
  unfolding actor_sizes
  actor_sizes_lem zero workers id size actors count small h = ap done (omega arith)
  actor_sizes_lem (suc left) workers id size actors count small h =
      let at = h id (omega arith) in
      let here = sum_from (count id) 0 workers in
      let inner =
        queue_sizes_lem workers 0 size at.actor.input_queue (count id) small
          (λ j b. at.queues j (omega arith)) in
      rw (at.actor_at, inner)
        (actor_sizes_lem left workers (suc id) ((size + here) % 2 ^ 64) actors count (omega arith)
            (λ i b. h i (omega arith))
          ∙ ap done
              (add_sum size here (sum_from (λ i. sum_from (count i) 0 workers) (suc id) left)))

  -- With every actor's queue for every worker in place, `queue_usage` returns the number of requests
  -- in all of them, modulo 2 ^ 64.
  pub queue_usage_lem :
      (server : Server efd.State) (count : ℕ → ℕ → ℕ)
      → ((i : ℕ)
          → i < server.actor_count
          → HasQueues server.app_actors i server.io_worker_count (count i))
      → queue_usage efd m server
        ≡ done (
            sum_from (λ i. sum_from (count i) 0 server.io_worker_count) 0 server.actor_count
            % 2 ^ 64)
  unfolding queue_usage
  queue_usage_lem server count h =
      actor_sizes_lem server.actor_count server.io_worker_count 0 0 server.app_actors count
        (omega arith) (λ i b. h i (omega arith))
      ∙ ap done (omega arith)
