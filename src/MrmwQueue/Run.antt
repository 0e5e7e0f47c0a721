-- ===== src/MrmwQueue/Run.antt =====
-- A queue from its creation on, under any sequence of calls.
use mathlib.Core.Path.{subst}
use jullop.Base.{
  ℕ, ◌+◌, ◌-◌, ◌^◌, ◌<◌, ◌≡◌, refl, List, [], ◌∷◌, arith, length, length-replicate, replicate, ◌∙◌,
  size_mod, Outcome, done, ◌>>=◌,
}
use jullop.Kernel.{EventFd}
use jullop.Ring.Api.{QueueResult, result_of, pointer_of}
use jullop.Ring.Fifo
use jullop.Ring.Fifo.{length-push-le}
use jullop.MrmwQueue.{Queue, Mutex, Resources, queue_init, queue_push, queue_pop}
use jullop.MrmwQueue.Invariant.{Represents}
use jullop.MrmwQueue.Refine.{Works, queue_push_refines, queue_pop_refines}

pub data Call : Type 0 where
  push : Mutex → ℕ → Call
  pop : Mutex → Call

pub data Reply : Type 0 where
  pushed : QueueResult → Reply
  popped : ℕ → Reply

-- What a bounded queue of `size` items replies.
abbrev pub expected : ℕ → List ℕ → List Call → List Reply
expected size q [] = []
expected size q (push m ptr ∷ calls) =
    pushed (result_of (Fifo.push size q ptr).0) ∷ expected size (Fifo.push size q ptr).1 calls
expected size q (pop m ∷ calls) =
    popped (pointer_of (Fifo.pop q).0) ∷ expected size (Fifo.pop q).1 calls

abbrev pub AllWork : List Call → Type 0
AllWork [] = Unit {0}
AllWork (push m ptr ∷ calls) = Works m × AllWork calls
AllWork (pop m ∷ calls) = Works m × AllWork calls

module _ (efd : EventFd) where
  unfoldable pub run : Queue efd.State → List Call → Outcome (List Reply)
  run q [] = done []
  run q (push m ptr ∷ calls) =
      queue_push efd m q ptr >>= λ p. run p.1 calls >>= λ replies. done (pushed p.0 ∷ replies)
  run q (pop m ∷ calls) =
      queue_pop efd m q >>= λ p. run p.1 calls >>= λ replies. done (popped p.0 ∷ replies)

  abbrev fresh : ℕ → Queue efd.State
  fresh size = record {
    max_size = size;
    current_size = 0;
    ring_buffer = replicate size 0;
    enqueue_offset = 0;
    dequeue_offset = 0;
    add_event = efd.create;
  }

  queue_init-fresh :
      (r : Resources) (size : ℕ) (q : Queue efd.State)
      → queue_init efd r size ≡ done q
      → fresh size ≡ q
  unfolding queue_init
  queue_init-fresh r size q e = ground arith

  -- `queue_init` with a size that is not 0 makes an empty queue, whose descriptor counts 0.
  pub queue_init-Represents :
      (r : Resources) (size : ℕ) (q : Queue efd.State)
      → 0 < size
      → size < size_mod
      → queue_init efd r size ≡ done q
      → Represents q [] × (q.max_size ≡ size) × (efd.value q.add_event ≡ 0)
  queue_init-Represents r size q pos small e = rw (← queue_init-fresh r size q e) (
    record {
      allocated = length-replicate size 0;
      word_sized = small;
      counted = refl;
      bounded = omega arith;
      head_in = pos;
      tail_at = grind arith;
      held = tt;
    },
    refl,
    efd.value-create,
  )

  run-push :
      (m : Mutex) (ptr : ℕ) (calls : List Call) (q q' : Queue efd.State) (r : QueueResult)
      (rs : List Reply)
      → queue_push efd m q ptr ≡ done (r, q')
      → run q' calls ≡ done rs
      → run q (push m ptr ∷ calls) ≡ done (pushed r ∷ rs)
  unfolding run
  run-push m ptr calls q q' r rs e h = rw (e, h)

  run-pop :
      (m : Mutex) (ptr : ℕ) (calls : List Call) (q q' : Queue efd.State) (rs : List Reply)
      → queue_pop efd m q ≡ done (ptr, q')
      → run q' calls ≡ done rs
      → run q (pop m ∷ calls) ≡ done (popped ptr ∷ rs)
  unfolding run
  run-pop m ptr calls q q' rs e h = rw (e, h)

  run-expected :
      (calls : List Call) (q : Queue efd.State) (items : List ℕ) (size : ℕ)
      → AllWork calls
      → Represents q items
      → q.max_size ≡ size
      → efd.value q.add_event + length calls < 2 ^ 64 - 1
      → run q calls ≡ done (expected size items calls)
  run-expected [] q items size ok r same event = unfold run in refl
  run-expected (push m ptr ∷ calls) q items size ok r same event =
      let (q', e, r', same', count) = queue_push_refines efd m q items ptr ok.0 r (omega arith) in
      subst (λ k. run q (push m ptr ∷ calls) ≡ done (expected k items (push m ptr ∷ calls))) same
        (run-push m ptr calls q q' _ _ e (
          run-expected calls q' (Fifo.push q.max_size items ptr).1 q.max_size ok.1 r' same'
            (omega (arith, count, event, length-push-le q.max_size items ptr))))
  run-expected (pop m ∷ calls) q items size ok r same event =
      let (q', e, r', same', event') = queue_pop_refines efd m q items ok.0 r in
      run-pop m _ calls q q' _ e (
        run-expected calls q' (Fifo.pop items).1 size ok.1 r' (same' ∙ same)
          (rw event' (omega arith)))

  -- Any sequence of pushes and pops on a queue made by `queue_init` is answered as a bounded
  -- first-in first-out queue of that size answers it, as long as the pthread calls succeed and the
  -- sequence is shorter than the event descriptor can count. No call exits or faults.
  pub run_refines :
      (r : Resources) (size : ℕ) (q : Queue efd.State) (calls : List Call)
      → 0 < size
      → size < size_mod
      → queue_init efd r size ≡ done q
      → AllWork calls
      → length calls < 2 ^ 64 - 1
      → run q calls ≡ done (expected size [] calls)
  run_refines r size q calls pos small e ok few =
      let (rep, same, quiet) = queue_init-Represents r size q pos small e in
      run-expected calls q [] size ok rep same (omega arith)
