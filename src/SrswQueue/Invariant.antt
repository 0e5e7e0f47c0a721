-- ===== src/SrswQueue/Invariant.antt =====
-- The representation of src/srsw_queue.c: which list of items a queue stands for.
use jullop.Base.{ℕ, ◌+◌, ◌-◌, ◌%◌, ◌^◌, ◌<◌, ◌≡◌, List, length, add_size, arith}
use jullop.Base.Bits.{bit_and-mask}
use jullop.Ring.Slots.{Holds}
use jullop.SrswQueue.{Queue, advance}

-- The ring has a power of two of slots, and `mask` has a one for each bit of an offset.
pub record IsRing {S : Type 0} (q : Queue S) : Type 0 where
  pub bits : ℕ
  pub size_at : q.max_size ≡ 2 ^ bits
  pub mask_at : q.mask ≡ 2 ^ bits - 1
  pub small : q.max_size < 2 ^ 63
  pub pop_in : q.pop_offset < q.max_size
  pub push_in : q.push_offset < q.max_size

-- The queue holds these items, oldest first. Nothing is said of the slots past them: the allocation
-- need not have one for each offset.
pub record Represents {S : Type 0} (q : Queue S) (items : List ℕ) : Type 0 where
  pub ring : IsRing q
  pub room : length items < q.max_size
  pub push_at : q.push_offset ≡ (q.pop_offset + length items) % q.max_size
  pub held : Holds q.ring_buffer q.max_size q.pop_offset items

-- In a ring, adding one and masking is the next slot.
pub advance-eq-mod :
    {S : Type 0} (q : Queue S) (x : ℕ)
    → IsRing q
    → x < q.max_size
    → advance q.mask x ≡ (x + 1) % q.max_size
advance-eq-mod q x r lt =
    let fits : add_size x 1 ≡ x + 1 = omega (arith, r.small) in
    rw (r.mask_at, fits, bit_and-mask r.bits (x + 1), r.size_at)
