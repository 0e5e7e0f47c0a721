-- ===== src/SrswQueue/Examples.antt =====
-- Runs of src/srsw_queue.c at concrete inputs, over the counting descriptor.
use jullop.Base.{
  ℕ, ◌+◌, ◌-◌, ◌*◌, ◌^◌, ◌≤◌, ◌<◌, ◌≡◌, ◌≢◌, refl, true, List, [], ◌∷◌, ◌++◌, arith, done, fault,
  load,
}
use jullop.Kernel.Counting.{counting}
use jullop.Ring.Api.{success, null}
use jullop.Ring.Fifo
use jullop.SrswQueue.{Queue, Resources, advance, queue_init, queue_push, queue_pop}
use jullop.SrswQueue.{notify, pow_2_size}
use jullop.SrswQueue.Invariant.{Represents}
use jullop.SrswQueue.Sizes.{pow_2_size-least}
use jullop.SrswQueue.Refine.{Pushes, srsw_push_refines, srsw_pop_refines}
use jullop.SrswQueue.Overflow.{push_all, init_too_small}
use jullop.SrswQueue.Threads.{System, Writer, Reader, Step, Reach}
use jullop.SrswQueue.Wakeup.{
  IsStart, queue_init-IsStart, srsw_in_order, srsw_read_oldest, srsw_no_race, srsw_no_lost_wakeup,
}

pow_2_sizes : (pow_2_size 1000 ≡ 1024) × (pow_2_size 1024 ≡ 1024) × (pow_2_size 1 ≡ 1)
unfolding pow_2_size
pow_2_sizes = (refl, refl, refl)

-- There is no shift by 32: above 2 ^ 32 the result need not be a power of two.
pow_2_size_large : pow_2_size (2 ^ 32 + 1) ≡ 2 ^ 33 - 1
unfolding pow_2_size
pow_2_size_large = refl

pow_2_size-least_example :
    (k : ℕ) × (pow_2_size 1000 ≡ 2 ^ k) × (k ≤ 32) × (1000 ≤ 2 ^ k) × (2 ^ k < 2 * 1000)
pow_2_size-least_example = pow_2_size-least 1000 (omega arith) (omega arith)

abbrev plenty : Resources
plenty = record { queue_mem = true; memalign = 0; junk = 0 }

abbrev made : Queue ℕ
made = record {
  max_size = 16;
  mask = 15;
  push_offset = 0;
  pop_offset = 0;
  ring_buffer = 0 ∷ 0 ∷ [];
  add_event = 0;
}

queue_init_sixteen : queue_init counting plenty 16 ≡ done made
unfolding queue_init
queue_init_sixteen = refl

-- One request in the queue.
abbrev one_item : Queue ℕ
one_item = record made { push_offset = 1; ring_buffer = 9 ∷ 0 ∷ []; add_event = 1 }

one_item-Represents : Represents one_item (9 ∷ [])
one_item-Represents = record {
  ring = record {
    bits = 4;
    size_at = refl;
    mask_at = refl;
    small = omega arith;
    pop_in = omega arith;
    push_in = omega arith;
  };
  room = omega arith;
  push_at = refl;
  held = (refl, tt);
}

push_second :
    queue_push counting one_item 8
    ≡ done (success, record one_item { push_offset = 2; ring_buffer = 9 ∷ 8 ∷ []; add_event = 2 })
unfolding queue_push notify
push_second = refl

srsw_push_refines_example : Pushes counting one_item (9 ∷ []) 8
srsw_push_refines_example =
    srsw_push_refines counting one_item (9 ∷ []) 8 one_item-Represents (omega arith)

srsw_pop_refines_example :
    (q' : Queue ℕ) × (queue_pop one_item ≡ done (9, q')) × Represents q' [] × (q'.max_size ≡ 16)
unfolding Fifo.pop
srsw_pop_refines_example = srsw_pop_refines one_item (9 ∷ []) one_item-Represents

-- A queue for 16 items has memory for two pointers.
init_too_small_example :
    (q' : Queue ℕ) × (push_all counting made (5 ∷ 6 ∷ []) ≡ done q')
    × (advance q'.mask q'.push_offset ≢ q'.pop_offset)
    × (queue_push counting q' 7 ≡ fault)
init_too_small_example =
    init_too_small counting plenty 4 made (5 ∷ 6 ∷ []) 7 (omega arith) (omega arith)
      queue_init_sixteen refl

abbrev at_rest : System ℕ
at_rest = record {
  queue = made;
  writer = Writer.idle;
  reader = Reader.idle;
  left = 0;
  sent = [];
  taken = [];
}

at_rest-IsStart : IsStart counting at_rest
at_rest-IsStart =
    queue_init-IsStart counting plenty 16 made (omega arith) (omega arith) queue_init_sixteen

-- One request is pushed.
abbrev one_sent : System ℕ
one_sent = record at_rest { queue = one_item; sent = 9 ∷ [] }

notify_one : notify counting 0 ≡ done 1
unfolding notify
notify_one = refl

one_sent-Reach : Reach counting at_rest one_sent
one_sent-Reach =
    Reach.later
      (Reach.later
        (Reach.later
          (Reach.later (Reach.later Reach.here (Step.begin_push 9 refl (omega arith)))
            (Step.push_room 9 0 refl (omega arith)))
          (Step.fill 9 0 _ refl refl))
        (Step.publish 9 0 refl))
      (Step.notified 1 refl notify_one)

-- The actor read the counter and is in `queue_pop`.
abbrev popping : System ℕ
popping = record one_sent {
  queue = record (one_sent.queue) { add_event = 0 };
  left = 1;
  reader = Reader.testing 0;
}

popping-Reach : Reach counting at_rest popping
popping-Reach =
    Reach.later (Reach.later one_sent-Reach (Step.wake 1 0 refl refl refl))
      (Step.begin_pop refl (omega arith))

-- Both are about to access a slot.
abbrev both_at_slots : System ℕ
both_at_slots = record popping { reader = Reader.reading 0; writer = Writer.filling 8 1 }

both_at_slots-Reach : Reach counting at_rest both_at_slots
both_at_slots-Reach =
    Reach.later
      (Reach.later (Reach.later popping-Reach (Step.pop_item 0 refl (omega arith)))
        (Step.begin_push 8 refl (omega arith)))
      (Step.push_room 8 1 refl (omega arith))

-- The request is taken, and the writer is idle.
abbrev drained : System ℕ
drained = record popping {
  queue = record (popping.queue) { pop_offset = 1 };
  reader = Reader.idle;
  left = 0;
  taken = 9 ∷ [];
}

drained-Reach : Reach counting at_rest drained
drained-Reach =
    Reach.later
      (Reach.later (Reach.later popping-Reach (Step.pop_item 0 refl (omega arith)))
        (Step.read 9 0 refl refl))
      (Step.release 9 0 refl)

srsw_in_order_example :
    (items : List ℕ) × (both_at_slots.sent ≡ both_at_slots.taken ++ items)
    × Represents both_at_slots.queue items
srsw_in_order_example = srsw_in_order counting at_rest-IsStart both_at_slots-Reach

srsw_read_oldest_example :
    (ptr : ℕ) × (rest : List ℕ) × (load both_at_slots.queue.ring_buffer 0 ≡ done ptr)
    × (ptr ≢ null)
    × (both_at_slots.sent ≡ both_at_slots.taken ++ ptr ∷ rest)
srsw_read_oldest_example = srsw_read_oldest counting 0 at_rest-IsStart both_at_slots-Reach refl

srsw_no_race_example :
    (◌≢◌ {A = ℕ} 1 0) × (load (9 ∷ 8 ∷ []) 0 ≡ load both_at_slots.queue.ring_buffer 0)
srsw_no_race_example =
    srsw_no_race counting 8 1 0 (9 ∷ 8 ∷ []) at_rest-IsStart both_at_slots-Reach refl refl refl

writer_idle : Writer.idle ≢ Writer.notifying
writer_idle = cc

srsw_no_lost_wakeup_example : drained.taken ≡ drained.sent
srsw_no_lost_wakeup_example =
    srsw_no_lost_wakeup counting at_rest-IsStart drained-Reach refl refl writer_idle
