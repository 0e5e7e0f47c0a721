-- ===== src/SrswQueue/Refine.antt =====
-- The operations of src/srsw_queue.c, run one after the other, against the bounded queue of Ring/Fifo.
-- A ring of `max_size` slots holds one item fewer.
use native.Mathlib.Nat.{mod-add-mod}
use jullop.Base.{
  ℕ, suc, ◌+◌, ◌-◌, ◌%◌, ◌^◌, ◌≤◌, ◌<◌, ◌≡◌, refl, ◌≢◌, ◌↔◌, ◌⊎◌, ◌∙◌, ap, List, [], ◌∷◌, ◌++◌,
  some, arith, length, length-append, length-set, set, dec_lt, done, fault, inl, inr, get_elem?,
  get_elem?-set_self,
}
use jullop.Kernel.{EventFd}
use jullop.Ring.Api.{success, failure, null, result_of, pointer_of}
use jullop.Ring.Fifo
use jullop.Ring.Slots.{Holds-set_past, Holds-append, shift_slot, round_iff, wrap_cases}
use jullop.SrswQueue.{Queue, advance, queue_push, queue_pop, queue_size}
use jullop.SrswQueue.Invariant.{Represents, advance-eq-mod}

-- Where a push would put the offset, counted from the pop offset.
pub next_push :
    {S : Type 0} (q : Queue S) (items : List ℕ)
    → Represents q items
    → advance q.mask q.push_offset ≡ (q.pop_offset + suc (length items)) % q.max_size
next_push q items r =
    advance-eq-mod q q.push_offset r.ring r.ring.push_in
    ∙ rw r.push_at (rw mod-add-mod (ap (λ k. k % q.max_size) (omega arith)))

-- The test of `queue_push` is true exactly when one slot is left.
pub full_iff :
    {S : Type 0} (q : Queue S) (items : List ℕ)
    → Represents q items
    → (advance q.mask q.push_offset ≡ q.pop_offset) ↔ (suc (length items) ≡ q.max_size)
full_iff q items r =
    rw (next_push q items r) (round_iff q.max_size q.pop_offset (length items) r.ring.pop_in r.room)

wraps :
    {S : Type 0} (q : Queue S) (items : List ℕ)
    → Represents q items
    → (q.pop_offset + length items < q.max_size) × (q.push_offset ≡ q.pop_offset + length items)
      ⊎ (q.max_size ≤ q.pop_offset + length items)
        × (q.push_offset + q.max_size ≡ q.pop_offset + length items)
wraps q items r =
    wrap_cases q.max_size q.pop_offset (length items) q.push_offset r.ring.pop_in r.room r.push_at

-- The test of `queue_pop` is true exactly when nothing is queued.
pub empty_iff :
    {S : Type 0} (q : Queue S) (items : List ℕ)
    → Represents q items
    → (q.pop_offset ≡ q.push_offset) ↔ (length items ≡ 0)
empty_iff q items r =
    let w = wraps q items r in
    (λ e. omega (arith, w, r.room, r.ring.pop_in), λ e. omega (arith, w, r.ring.pop_in))

-- The number that `queue_size` returns between two operations is the number of items.
pub queue_size-eq-length :
    {S : Type 0} (q : Queue S) (items : List ℕ) → Represents q items → queue_size q ≡ length items
unfolding queue_size
queue_size-eq-length q items r =
    ground (arith, wraps q items r, r.ring.pop_in, r.ring.push_in, r.ring.small, r.room)

module _ (efd : EventFd) where
  abbrev pub pushed : Queue efd.State → ℕ → efd.State → Queue efd.State
  pushed q ptr t = record q {
    ring_buffer = set q.ring_buffer q.push_offset ptr;
    push_offset = advance q.mask q.push_offset;
    add_event = t;
  }

  pushed-Represents :
      (q : Queue efd.State) (items : List ℕ) (ptr : ℕ) (t : efd.State)
      → Represents q items
      → q.push_offset < length q.ring_buffer
      → suc (length items) < q.max_size
      → Represents (pushed q ptr t) (items ++ ptr ∷ [])
  pushed-Represents q items ptr t r fits small = record {
    ring = record {
      bits = r.ring.bits;
      size_at = r.ring.size_at;
      mask_at = r.ring.mask_at;
      small = r.ring.small;
      pop_in = r.ring.pop_in;
      push_in = rw (next_push q items r) (omega (arith, r.ring.pop_in));
    };
    room = omega (arith, length-append items (ptr ∷ []));
    push_at =
        rw (length-append items (ptr ∷ []), next_push q items r)
          (ap (λ k. (q.pop_offset + k) % q.max_size) (omega arith));
    held =
        Holds-append (set q.ring_buffer q.push_offset ptr) q.max_size q.pop_offset ptr items
          q.push_offset r.ring.pop_in r.push_at
          (get_elem?-set_self q.ring_buffer q.push_offset ptr fits)
          (Holds-set_past q.ring_buffer q.max_size q.pop_offset ptr items q.push_offset
            r.ring.pop_in r.room r.push_at r.held);
  }

  queue_push-full :
      (q : Queue efd.State) (ptr : ℕ)
      → advance q.mask q.push_offset ≡ q.pop_offset
      → queue_push efd q ptr ≡ done (failure, q)
  unfolding queue_push
  queue_push-full q ptr full = ground arith

  pub queue_push-room :
      (q : Queue efd.State) (ptr : ℕ) (t : efd.State)
      → advance q.mask q.push_offset ≢ q.pop_offset
      → q.push_offset < length q.ring_buffer
      → efd.write q.add_event 1 ≡ some t
      → queue_push efd q ptr ≡ done (success, pushed q ptr t)
  unfolding queue_push
  queue_push-room q ptr t room fits w = ground arith

  queue_push-outside :
      (q : Queue efd.State) (ptr : ℕ)
      → advance q.mask q.push_offset ≢ q.pop_offset
      → length q.ring_buffer ≤ q.push_offset
      → queue_push efd q ptr ≡ fault
  unfolding queue_push
  queue_push-outside q ptr room outside = ground arith

  -- The branches of a push on a queue that stands for `items`: as a bounded queue of `max_size - 1`
  -- items, or outside the allocation.
  abbrev pub Pushes : Queue efd.State → List ℕ → ℕ → Type 0
  Pushes q items ptr =
      ((q' : Queue efd.State) × (queue_push efd q ptr
          ≡ done (result_of (Fifo.push (q.max_size - 1) items ptr).0, q'))
        × Represents q' (Fifo.push (q.max_size - 1) items ptr).1
        × (q'.max_size ≡ q.max_size)
        × (length q'.ring_buffer ≡ length q.ring_buffer))
      ⊎ (suc (length items) < q.max_size)
        × (length q.ring_buffer ≤ q.push_offset)
        × (queue_push efd q ptr ≡ fault)

  -- A push on a queue that stands for `items` does what a bounded queue of `max_size - 1` items does,
  -- with the same verdict; or there is room, but no slot is allocated for its offset, and the store is
  -- outside the allocation. The counter of the event descriptor has room for one more.
  pub srsw_push_refines :
      (q : Queue efd.State) (items : List ℕ) (ptr : ℕ)
      → Represents q items
      → efd.value q.add_event + 1 < 2 ^ 64 - 1
      → Pushes q items ptr
  unfolding Fifo.push
  srsw_push_refines q items ptr r event = elim (dec_lt (suc (length items)) q.max_size) [
    | yes small ↦
        let (t, w) = efd.write_room q.add_event 1 event in
        let open_slot : advance q.mask q.push_offset ≢ q.pop_offset =
          λ e. omega (arith, (full_iff q items r).0 e) in
        elim (dec_lt q.push_offset (length q.ring_buffer)) [
          | yes fits ↦ inl (
            pushed q ptr t,
            ground (arith, queue_push-room q ptr t open_slot fits w),
            ground (arith, pushed-Represents q items ptr t r fits small),
            refl,
            length-set q.ring_buffer q.push_offset ptr,
          )
          | no outside ↦ inr (small, omega arith, queue_push-outside q ptr open_slot (omega arith))
        ]
    | no full ↦
        let at_end : advance q.mask q.push_offset ≡ q.pop_offset =
          (full_iff q items r).1 (omega (arith, r.room)) in
        inl (q, ground (arith, queue_push-full q ptr at_end), ground arith, refl, refl)
  ]

abbrev popped : {S : Type 0} → Queue S → Queue S
popped q = record q { pop_offset = advance q.mask q.pop_offset }

pub popped-Represents :
    {S : Type 0} (q : Queue S) (x : ℕ) (xs : List ℕ)
    → Represents q (x ∷ xs)
    → Represents (popped q) xs
popped-Represents q x xs r =
    let next : advance q.mask q.pop_offset ≡ (q.pop_offset + 1) % q.max_size =
      advance-eq-mod q q.pop_offset r.ring r.ring.pop_in in
    record {
      ring = record {
        bits = r.ring.bits;
        size_at = r.ring.size_at;
        mask_at = r.ring.mask_at;
        small = r.ring.small;
        pop_in = rw next (omega (arith, r.ring.pop_in));
        push_in = r.ring.push_in;
      };
      room = omega (arith, r.room);
      push_at = rw next (r.push_at ∙ shift_slot q.max_size q.pop_offset (length xs));
      held = rw next r.held.1;
    }

queue_pop-empty :
    {S : Type 0} (q : Queue S) → q.pop_offset ≡ q.push_offset → queue_pop q ≡ done (null, q)
unfolding queue_pop
queue_pop-empty q e = ground arith

queue_pop-item :
    {S : Type 0} (q : Queue S) (x : ℕ)
    → q.pop_offset ≢ q.push_offset
    → get_elem? q.ring_buffer q.pop_offset ≡ some x
    → queue_pop q ≡ done (x, popped q)
unfolding queue_pop
queue_pop-item q x ne here = ground arith

-- A pop on a queue that stands for `items`, whatever is allocated past them, returns the oldest item,
-- or NULL when there is none, and leaves the queue standing for the items behind it.
pub srsw_pop_refines :
    {S : Type 0} (q : Queue S) (items : List ℕ)
    → Represents q items
    → (q' : Queue S) × (queue_pop q ≡ done (pointer_of (Fifo.pop items).0, q'))
      × Represents q' (Fifo.pop items).1
      × (q'.max_size ≡ q.max_size)
unfolding Fifo.pop
srsw_pop_refines q [] r = (q, queue_pop-empty q ((empty_iff q [] r).1 refl), r, refl)
srsw_pop_refines q (x ∷ xs) r = (
  popped q,
  queue_pop-item q x (λ e. omega (arith, (empty_iff q (x ∷ xs) r).0 e)) r.held.0,
  popped-Represents q x xs r,
  refl,
)
