-- ===== src/SrswQueue.antt =====
-- src/srsw_queue.c: the queue for one reader and one writer, without a lock. Pointers are numbers,
-- NULL is 0. This file has the operations run alone; Threads interleaves their shared accesses.
pub mod Sizes
pub mod Invariant
pub mod Refine
pub mod Init
pub mod Overflow
pub mod Threads
pub mod Steps
pub mod Wakeup
mod Examples
use Prim.Native.Nat.{bit_and, bit_or}
use jullop.Base.{
  ℕ, ◌+◌, ◌-◌, ◌/◌, ◌^◌, Bool, true, not, List, Option, none, some, add_size, sub_size, replicate,
  ◌==◌, ◌!=◌, leb, if◌then◌else◌, word_bytes, Outcome, done, exit_failure, ◌>>=◌, ◌>>◌, check, load,
  store,
}
use jullop.Kernel.{EventFd}
use jullop.Ring.Api.{QueueResult, success, failure, null}

-- `struct Queue`. The list has a slot for each pointer that the allocation has room for.
pub record Queue (S : Type 0) : Type 0 where
  pub max_size : ℕ
  pub mask : ℕ
  pub push_offset : ℕ
  pub pop_offset : ℕ
  pub ring_buffer : List ℕ
  pub add_event : S

-- The five lines `value |= value >> k` of `pow_2_size`.
pub or_shifts : ℕ → ℕ
or_shifts v0 =
    let v1 = bit_or v0 (v0 / 2 ^ 1) in
    let v2 = bit_or v1 (v1 / 2 ^ 2) in
    let v3 = bit_or v2 (v2 / 2 ^ 4) in let v4 = bit_or v3 (v3 / 2 ^ 8) in bit_or v4 (v4 / 2 ^ 16)

-- `pow_2_size`
unfoldable pub pow_2_size : ℕ → ℕ
unfolding or_shifts
pow_2_size size = add_size (or_shifts (sub_size size 1)) 1

-- Whether calloc succeeds, what posix_memalign returns, and what its memory holds: it is not cleared.
pub record Resources : Type 0 where
  pub queue_mem : Bool
  pub memalign : ℕ
  pub junk : ℕ

-- (x + 1) & queue->mask
abbrev pub advance : ℕ → ℕ → ℕ
advance mask x = bit_and (add_size x 1) mask

-- `queue_size`
unfoldable pub queue_size : {S : Type 0} → Queue S → ℕ
queue_size q =
    let push = q.push_offset in
    let pop = q.pop_offset in
    if leb pop push then sub_size push pop else add_size (sub_size q.max_size pop) push

-- `queue_pop`
unfoldable pub queue_pop : {S : Type 0} → Queue S → Outcome (ℕ × Queue S)
queue_pop q = if q.pop_offset == q.push_offset then done (null, q) else (do
  ptr ← load q.ring_buffer q.pop_offset
  done (ptr, record q { pop_offset = advance q.mask q.pop_offset }))

module _ (efd : EventFd) where
  -- posix_memalign is asked for `size` bytes, which hold `size / 8` pointers.
  unfoldable pub queue_init : Resources → ℕ → Outcome (Queue efd.State)
  unfolding pow_2_size
  queue_init r requested = do
    let size = pow_2_size requested
    check (not r.queue_mem)
    check (r.memalign != 0)
    done (record {
      max_size = size;
      mask = sub_size size 1;
      push_offset = 0;
      pop_offset = 0;
      ring_buffer = replicate (size / word_bytes) r.junk;
      add_event = efd.create;
    })

  -- eventfd_write of 1, and the CHECK of its result.
  unfoldable pub notify : efd.State → Outcome efd.State
  notify s = elim (efd.write s 1) [ none ↦ exit_failure | some t ↦ done t ]

  unfoldable pub queue_push : Queue efd.State → ℕ → Outcome (QueueResult × Queue efd.State)
  unfolding notify
  queue_push q ptr = if advance q.mask q.push_offset == q.pop_offset then done (failure, q) else (do
    buf ← store q.ring_buffer q.push_offset ptr
    event ← notify q.add_event
    done (
      success,
      record q { ring_buffer = buf; push_offset = advance q.mask q.push_offset; add_event = event },
    ))
