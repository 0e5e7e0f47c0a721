-- ===== src/MrmwQueue/Invariant.antt =====
-- The representation of src/mrmw_queue.c: which list of items a queue stands for.
use jullop.Base.{ℕ, ◌+◌, ◌%◌, ◌≤◌, ◌<◌, ◌≡◌, List, length, size_mod}
use jullop.Ring.Slots.{Holds}
use jullop.MrmwQueue.{Queue}

-- The queue holds these items, oldest first, and none of its offsets is out of range.
pub record Represents {S : Type 0} (q : Queue S) (items : List ℕ) : Type 0 where
  pub allocated : length q.ring_buffer ≡ q.max_size
  pub word_sized : q.max_size < size_mod
  pub counted : length items ≡ q.current_size
  pub bounded : q.current_size ≤ q.max_size
  pub head_in : q.dequeue_offset < q.max_size
  pub tail_at : q.enqueue_offset ≡ (q.dequeue_offset + length items) % q.max_size
  pub held : Holds q.ring_buffer q.max_size q.dequeue_offset items
