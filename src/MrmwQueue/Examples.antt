-- ===== src/MrmwQueue/Examples.antt =====
-- Runs of src/mrmw_queue.c at concrete inputs, over the counting descriptor.
use jullop.Base.{ℕ, ◌≡◌, refl, true, List, [], ◌∷◌, ◌++◌, arith, length, done}
use jullop.Kernel.Counting.{counting}
use jullop.Ring.Api.{success, failure, null}
use jullop.Ring.Fifo
use jullop.MrmwQueue.{Queue, Mutex, Resources, queue_init, queue_push, queue_pop, queue_size}
use jullop.MrmwQueue.Invariant.{Represents}
use jullop.MrmwQueue.Run.{Call, push, pop, pushed, popped, expected, run, run_refines}
use jullop.MrmwQueue.Wakeup.{System, Step, Reach, no_lost_wakeup, deliveries_in_order}

abbrev plenty : Resources
plenty = record { queue_mem = true; ring_mem = true; mutex_init = 0 }

abbrev free_lock : Mutex
free_lock = record { lock = 0; unlock = 0 }

abbrev empty_queue : Queue ℕ
empty_queue = record {
  max_size = 2;
  current_size = 0;
  ring_buffer = 0 ∷ 0 ∷ [];
  enqueue_offset = 0;
  dequeue_offset = 0;
  add_event = 0;
}

-- One item, in the last slot: the next push goes round.
abbrev wrapped : Queue ℕ
wrapped = record {
  max_size = 2;
  current_size = 1;
  ring_buffer = 5 ∷ 7 ∷ [];
  enqueue_offset = 0;
  dequeue_offset = 1;
  add_event = 1;
}

queue_init_two : queue_init counting plenty 2 ≡ done empty_queue
unfolding queue_init
queue_init_two = refl

wrapped-Represents : Represents wrapped (7 ∷ [])
wrapped-Represents = ground arith

empty-Represents : Represents empty_queue []
empty-Represents = ground arith

queue_size-wrapped : queue_size counting free_lock wrapped ≡ done 1
unfolding queue_size
queue_size-wrapped = refl

abbrev script : List Call
script =
    push free_lock 3
    ∷ push free_lock 4
    ∷ push free_lock 5
    ∷ pop free_lock
    ∷ push free_lock 6
    ∷ pop free_lock
    ∷ pop free_lock
    ∷ pop free_lock
    ∷ []

expected-script :
    expected 2 [] script
    ≡ pushed success
      ∷ pushed success
      ∷ pushed failure
      ∷ popped 3
      ∷ pushed success
      ∷ popped 4
      ∷ popped 6
      ∷ popped null
      ∷ []
unfolding Fifo.push Fifo.pop
expected-script = refl

run_refines_example : run counting empty_queue script ≡ done (expected 2 [] script)
run_refines_example =
    run_refines counting plenty 2 empty_queue script (omega arith) (omega arith) queue_init_two
      (ground arith) (omega arith)

abbrev one_item : Queue ℕ
one_item = record empty_queue {
  current_size = 1;
  ring_buffer = 9 ∷ 0 ∷ [];
  enqueue_offset = 1;
  add_event = 1;
}

abbrev at_rest : System ℕ
at_rest = record { queue = empty_queue; left = 0; sent = []; taken = [] }

abbrev one_sent : System ℕ
one_sent = record { queue = one_item; left = 0; sent = 9 ∷ []; taken = [] }

abbrev awake : System ℕ
awake = record one_sent { queue = record one_item { add_event = 0 }; left = 1 }

abbrev drained : System ℕ
drained = record {
  queue = record one_item { add_event = 0; current_size = 0; dequeue_offset = 1 };
  left = 0;
  sent = 9 ∷ [];
  taken = 9 ∷ [];
}

push_nine : queue_push counting free_lock empty_queue 9 ≡ done (success, one_item)
unfolding queue_push
push_nine = refl

pop_nine : queue_pop counting free_lock awake.queue ≡ done (9, drained.queue)
unfolding queue_pop
pop_nine = refl

at_rest-Reach : Reach counting at_rest
at_rest-Reach = Reach.start empty-Represents (omega arith) refl refl refl refl

one_sent-Reach : Reach counting one_sent
one_sent-Reach =
    Reach.later at_rest-Reach (Step.push free_lock 9 (refl, refl) (omega arith) push_nine)

awake-Reach : Reach counting awake
awake-Reach = Reach.later one_sent-Reach (Step.wake {n = 1} {t = 0} refl refl)

drained-Reach : Reach counting drained
drained-Reach =
    Reach.later awake-Reach (Step.take free_lock (refl, refl) (omega arith) pop_nine (omega arith))

no_lost_wakeup_example : drained.taken ≡ drained.sent
no_lost_wakeup_example = no_lost_wakeup counting drained-Reach refl refl

deliveries_in_order_example :
    (items : List ℕ) × (awake.sent ≡ awake.taken ++ items) × (length items ≡ 1)
deliveries_in_order_example = deliveries_in_order counting awake-Reach
