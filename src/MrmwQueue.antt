-- ===== src/MrmwQueue.antt =====
-- src/mrmw_queue.c: the bounded queue under a mutex that the server is linked with. Pointers are
-- numbers, NULL is 0. The results of the pthread calls and of calloc are arguments.
pub mod Invariant
pub mod Refine
pub mod Run
pub mod Wakeup
mod Examples
use jullop.Base.{
  ℕ, ◌+◌, Bool, true, not, List, Option, none, some, add_size, sub_size, replicate, ◌==◌, ◌!=◌,
  if◌then◌else◌, Outcome, done, exit_failure, ◌>>=◌, ◌>>◌, check, load, store, rem_size,
}
use jullop.Kernel.{EventFd}
use jullop.Ring.Api.{QueueResult, success, failure, null}

-- `struct Queue`; `S` is the state of the kernel's event descriptor.
pub record Queue (S : Type 0) : Type 0 where
  pub max_size : ℕ
  pub current_size : ℕ
  pub ring_buffer : List ℕ
  pub enqueue_offset : ℕ
  pub dequeue_offset : ℕ
  pub add_event : S

-- What pthread_mutex_lock and pthread_mutex_unlock return in one call of an operation.
pub record Mutex : Type 0 where
  pub lock : ℕ
  pub unlock : ℕ

-- Whether the allocations of `queue_init` succeed, and what pthread_mutex_init returns.
pub record Resources : Type 0 where
  pub queue_mem : Bool
  pub ring_mem : Bool
  pub mutex_init : ℕ

pub is_full : {S : Type 0} → Queue S → Bool
is_full q = q.current_size == q.max_size

pub is_empty : {S : Type 0} → Queue S → Bool
is_empty q = q.current_size == 0

module _ (efd : EventFd) where
  -- eventfd(2) is taken to succeed; the code does not test its result.
  unfoldable pub queue_init : Resources → ℕ → Outcome (Queue efd.State)
  queue_init r max_size = do
    check (not r.queue_mem)
    check (not r.ring_mem)
    check (r.mutex_init != 0)
    done (record {
      max_size = max_size;
      current_size = 0;
      ring_buffer = replicate max_size null;
      enqueue_offset = 0;
      dequeue_offset = 0;
      add_event = efd.create;
    })

  -- eventfd_write of 1, and the CHECK of its result.
  unfoldable pub notify : efd.State → Outcome efd.State
  notify s = elim (efd.write s 1) [ none ↦ exit_failure | some t ↦ done t ]

  unfoldable pub queue_push : Mutex → Queue efd.State → ℕ → Outcome (QueueResult × Queue efd.State)
  unfolding is_full notify
  queue_push m q ptr = do
    check (m.lock != 0)
    if is_full q then (do check (m.unlock != 0); done (failure, q)) else (do
      buf ← store q.ring_buffer q.enqueue_offset ptr
      tail ← rem_size (add_size q.enqueue_offset 1) q.max_size
      event ← notify q.add_event
      check (m.unlock != 0)
      done (
        success,
        record q {
          ring_buffer = buf;
          enqueue_offset = tail;
          current_size = add_size q.current_size 1;
          add_event = event;
        },
      ))

  unfoldable pub queue_pop : Mutex → Queue efd.State → Outcome (ℕ × Queue efd.State)
  unfolding is_empty
  queue_pop m q = do
    check (m.lock != 0)
    if is_empty q then (do check (m.unlock != 0); done (null, q)) else (do
      ptr ← load q.ring_buffer q.dequeue_offset
      head ← rem_size (add_size q.dequeue_offset 1) q.max_size
      check (m.unlock != 0)
      done (ptr, record q { dequeue_offset = head; current_size = sub_size q.current_size 1 }))

  unfoldable pub queue_size : Mutex → Queue efd.State → Outcome ℕ
  queue_size m q = do
    check (m.lock != 0)
    let size = q.current_size
    check (m.unlock != 0)
    done size
