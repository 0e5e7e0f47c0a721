-- ===== src/MrmwQueue/Refine.antt =====
-- The operations of src/mrmw_queue.c against the bounded queue of Ring/Fifo.
use native.Mathlib.Nat.{mod-eq_of_lt, mod-add-mod}
use jullop.Base.{
  ℕ, ◌+◌, ◌-◌, ◌%◌, ◌^◌, ◌<◌, ◌≡◌, refl, ◌≢◌, ◌∙◌, ap, List, [], ◌∷◌, ◌++◌, some, arith, length,
  length-append, length-set, set, dec_lt, done, get_elem?,
}
use jullop.Kernel.{EventFd}
use jullop.Ring.Fifo
use jullop.Ring.Slots.{Holds-set, shift_slot}
use jullop.Ring.Api.{success, failure, null, result_of, pointer_of}
use jullop.MrmwQueue.{Queue, Mutex, queue_push, queue_pop}
use jullop.MrmwQueue.Invariant.{Represents}

-- Both pthread calls of an operation succeed.
abbrev pub Works : Mutex → Type 0
Works m = (m.lock ≡ 0) × (m.unlock ≡ 0)

module _ (efd : EventFd) where
  -- What a push stores.
  abbrev pushed : Queue efd.State → ℕ → efd.State → Queue efd.State
  pushed q ptr t = record q {
    ring_buffer = set q.ring_buffer q.enqueue_offset ptr;
    enqueue_offset = (q.enqueue_offset + 1) % 2 ^ 64 % q.max_size;
    current_size = (q.current_size + 1) % 2 ^ 64;
    add_event = t;
  }

  next_tail :
      (q : Queue efd.State) (items : List ℕ) (ptr : ℕ)
      → Represents q items
      → (q.enqueue_offset + 1) % 2 ^ 64 % q.max_size
        ≡ (q.dequeue_offset + length (items ++ ptr ∷ [])) % q.max_size
  next_tail q items ptr r =
      let fits : q.enqueue_offset < q.max_size = omega arith in
      rw
        (
          length-append items (ptr ∷ []),
          mod-eq_of_lt {n = q.enqueue_offset + 1} {m = 2 ^ 64} (omega arith),
          r.tail_at,
        )
        (rw mod-add-mod (ap (λ k. k % q.max_size) (omega arith)))

  pushed-Represents :
      (q : Queue efd.State) (items : List ℕ) (ptr : ℕ) (t : efd.State)
      → Represents q items
      → q.current_size < q.max_size
      → Represents (pushed q ptr t) (items ++ ptr ∷ [])
  pushed-Represents q items ptr t r room = record {
    allocated = omega (arith, length-set q.ring_buffer q.enqueue_offset ptr, r.allocated);
    word_sized = r.word_sized;
    counted = omega (arith, length-append items (ptr ∷ []), r.counted, r.word_sized);
    bounded = omega arith;
    head_in = r.head_in;
    tail_at = next_tail q items ptr r;
    held =
        Holds-set q.ring_buffer q.max_size q.dequeue_offset ptr items q.enqueue_offset
          (omega (arith, r.allocated)) r.head_in (omega (arith, r.counted)) r.tail_at r.held;
  }

  pub queue_push-full :
      (m : Mutex) (q : Queue efd.State) (ptr : ℕ)
      → Works m
      → q.current_size ≡ q.max_size
      → queue_push efd m q ptr ≡ done (failure, q)
  unfolding queue_push
  queue_push-full m q ptr ok full = ground arith

  queue_push-room :
      (m : Mutex) (q : Queue efd.State) (ptr : ℕ) (t : efd.State)
      → Works m
      → q.current_size ≢ q.max_size
      → q.enqueue_offset < length q.ring_buffer
      → 0 < q.max_size
      → efd.write q.add_event 1 ≡ some t
      → queue_push efd m q ptr ≡ done (success, pushed q ptr t)
  unfolding queue_push
  queue_push-room m q ptr t ok room fits pos w = ground arith

  -- A push on a queue that stands for `items` leaves it standing for what the bounded queue has after
  -- a push, and returns that queue's verdict. It succeeds exactly when an item was appended, and then
  -- the event descriptor counts one more.
  pub queue_push_refines :
      (m : Mutex) (q : Queue efd.State) (items : List ℕ) (ptr : ℕ)
      → Works m
      → Represents q items
      → efd.value q.add_event + 1 < 2 ^ 64 - 1
      → (q' : Queue efd.State) × (queue_push efd m q ptr
          ≡ done (result_of (Fifo.push q.max_size items ptr).0, q'))
        × Represents q' (Fifo.push q.max_size items ptr).1
        × (q'.max_size ≡ q.max_size)
        × (efd.value q'.add_event + length items
            ≡ efd.value q.add_event + length (Fifo.push q.max_size items ptr).1)
  unfolding Fifo.push
  queue_push_refines m q items ptr ok r event = elim (dec_lt q.current_size q.max_size) [
    | yes room ↦
        let (t, w) = efd.write_room q.add_event 1 event in
        (
          pushed q ptr t,
          ground (arith, queue_push-room m q ptr t ok (omega arith) (omega arith) (omega arith) w),
          ground (arith, pushed-Represents q items ptr t r room),
          refl,
          ground (arith, efd.write_adds q.add_event t 1 w, length-append items (ptr ∷ [])),
        )
    | no full ↦ (
      q,
      ground (arith, queue_push-full m q ptr ok (omega arith)),
      ground arith,
      refl,
      ground arith,
    )
  ]

  -- What a pop leaves.
  abbrev popped : Queue efd.State → Queue efd.State
  popped q = record q {
    dequeue_offset = (q.dequeue_offset + 1) % 2 ^ 64 % q.max_size;
    current_size = (q.current_size + 2 ^ 64 - 1) % 2 ^ 64;
  }

  popped-Represents :
      (q : Queue efd.State) (x : ℕ) (xs : List ℕ) → Represents q (x ∷ xs) → Represents (popped q) xs
  popped-Represents q x xs r = record {
    allocated = r.allocated;
    word_sized = r.word_sized;
    counted = omega (arith, r.counted, r.bounded, r.word_sized);
    bounded = omega (arith, r.counted, r.bounded, r.word_sized);
    head_in = rw next (omega (arith, r.head_in));
    tail_at = rw next (r.tail_at ∙ shift_slot q.max_size q.dequeue_offset (length xs));
    held = rw next r.held.1;
  }
    where
      next : (q.dequeue_offset + 1) % 2 ^ 64 ≡ q.dequeue_offset + 1
      next = omega (arith, r.head_in, r.word_sized)

  queue_pop-empty :
      (m : Mutex) (q : Queue efd.State)
      → Works m
      → q.current_size ≡ 0
      → queue_pop efd m q ≡ done (null, q)
  unfolding queue_pop
  queue_pop-empty m q ok empty = ground arith

  queue_pop-item :
      (m : Mutex) (q : Queue efd.State) (x : ℕ)
      → Works m
      → q.current_size ≢ 0
      → 0 < q.max_size
      → get_elem? q.ring_buffer q.dequeue_offset ≡ some x
      → queue_pop efd m q ≡ done (x, popped q)
  unfolding queue_pop
  queue_pop-item m q x ok some_left pos here = ground arith

  -- A pop returns the oldest item, or NULL when there is none, leaves the queue standing for the
  -- items behind it, and leaves the event descriptor alone.
  pub queue_pop_refines :
      (m : Mutex) (q : Queue efd.State) (items : List ℕ)
      → Works m
      → Represents q items
      → (q' : Queue efd.State) × (queue_pop efd m q ≡ done (pointer_of (Fifo.pop items).0, q'))
        × Represents q' (Fifo.pop items).1
        × (q'.max_size ≡ q.max_size)
        × (q'.add_event ≡ q.add_event)
  unfolding Fifo.pop
  queue_pop_refines m q [] ok r = (q, queue_pop-empty m q ok (omega arith), r, refl, refl)
  queue_pop_refines m q (x ∷ xs) ok r = (
    popped q,
    queue_pop-item m q x ok (omega arith) (omega arith) r.held.0,
    popped-Represents q x xs r,
    refl,
    refl,
  )
