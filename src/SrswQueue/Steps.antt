-- ===== src/SrswQueue/Steps.antt =====
-- What each step of the two threads of Threads keeps: the queue stands for the items between its
-- offsets, each item has its notice, and the threads' local variables are current.
use jullop.Base.{
  ℕ, suc, ◌+◌, ◌-◌, ◌%◌, ◌<◌, ◌≡◌, ◌≢◌, ◌∙◌, ap, List, [], ◌∷◌, ◌++◌, some, arith, length,
  length-append, get_elem?, get_elem?-set_self, get_elem?-set_ne, set, append_assoc, done, load,
  store,
}
use jullop.Kernel.{EventFd}
use jullop.Ring.Api.{null, NotNull, NotNull-append}
use jullop.Ring.Slots.{Holds-set_past, Holds-append}
use jullop.SrswQueue.{Queue, advance, notify}
use jullop.SrswQueue.Invariant.{Represents}
use jullop.SrswQueue.Refine.{next_push, full_iff, empty_iff, popped-Represents}
use jullop.SrswQueue.Threads.{System, Writer, Reader, Step}

-- What the writer's local variables say about the queue: its offset is current, and past the test
-- there is room for one more item, which the reader can only make larger.
abbrev WriterOk : {S : Type 0} → Queue S → List ℕ → Writer → Type 0
WriterOk q items Writer.idle = Unit {0}
WriterOk q items (Writer.testing ptr off) = (off ≡ q.push_offset) × (ptr ≢ null)
WriterOk q items (Writer.filling ptr off) =
    (off ≡ q.push_offset) × (ptr ≢ null) × (suc (length items) < q.max_size)
WriterOk q items (Writer.publishing ptr off) =
    (off ≡ q.push_offset)
    × (ptr ≢ null)
    × (suc (length items) < q.max_size)
    × (get_elem? q.ring_buffer off ≡ some ptr)
WriterOk q items Writer.notifying = Unit {0}

-- What the reader's say: past the test there is an item, which the writer cannot take away.
abbrev ReaderOk : {S : Type 0} → Queue S → List ℕ → ℕ → Reader → Type 0
ReaderOk q items left Reader.idle = Unit {0}
ReaderOk q items left (Reader.testing off) = (off ≡ q.pop_offset) × (0 < left)
ReaderOk q items left (Reader.reading off) = (off ≡ q.pop_offset) × (0 < left)
ReaderOk q items left (Reader.releasing ptr off) =
    (off ≡ q.pop_offset) × (0 < left) × (get_elem? q.ring_buffer off ≡ some ptr)

-- An item is published before it is notified.
abbrev unannounced : Writer → ℕ
unannounced Writer.notifying = 1
unannounced _ = 0

pub record Inv (efd : EventFd) (s : System efd.State) (items : List ℕ) : Type 0 where
  pub stands : Represents s.queue items
  pub ordered : s.sent ≡ s.taken ++ items
  pub notices : length items ≡ efd.value s.queue.add_event + s.left + unannounced s.writer
  pub real : NotNull items
  pub writer_ok : WriterOk s.queue items s.writer
  pub reader_ok : ReaderOk s.queue items s.left s.reader

-- A change of the descriptor alone does not change what the queue stands for.
event-Represents :
    {S : Type 0} (q : Queue S) (items : List ℕ) (t : S)
    → Represents q items
    → Represents (record q { add_event = t }) items
event-Represents q items t r = record {
  ring = record {
    bits = r.ring.bits;
    size_at = r.ring.size_at;
    mask_at = r.ring.mask_at;
    small = r.ring.small;
    pop_in = r.ring.pop_in;
    push_in = r.ring.push_in;
  };
  room = r.room;
  push_at = r.push_at;
  held = r.held;
}

-- Past the writer's test there is room.
room_for_one :
    {S : Type 0} (q : Queue S) (items : List ℕ) (off : ℕ)
    → Represents q items
    → off ≡ q.push_offset
    → advance q.mask off ≢ q.pop_offset
    → suc (length items) < q.max_size
room_for_one q items off r e ne =
    let open_slot : suc (length items) ≢ q.max_size = λ f. ne (rw e ((full_iff q items r).1 f)) in
    omega (arith, r.room)

-- With an item in the queue the two offsets differ, and the reader's slot holds the first one.
pub offsets_differ :
    {S : Type 0} (q : Queue S) (items : List ℕ)
    → Represents q items
    → 0 < length items
    → q.pop_offset ≢ q.push_offset
offsets_differ q items r some_item e = omega (arith, (empty_iff q items r).0 e)

-- The writer's slot lies past the items.
fill-Represents :
    {S : Type 0} (q : Queue S) (items : List ℕ) (off ptr : ℕ)
    → Represents q items
    → off ≡ q.push_offset
    → Represents (record q { ring_buffer = set q.ring_buffer off ptr }) items
fill-Represents q items off ptr r e = record {
  ring = record {
    bits = r.ring.bits;
    size_at = r.ring.size_at;
    mask_at = r.ring.mask_at;
    small = r.ring.small;
    pop_in = r.ring.pop_in;
    push_in = r.ring.push_in;
  };
  room = r.room;
  push_at = r.push_at;
  held =
      Holds-set_past q.ring_buffer q.max_size q.pop_offset ptr items off r.ring.pop_in r.room
        (e ∙ r.push_at) r.held;
}

pub store-done :
    (xs : List ℕ) (i v : ℕ) (ys : List ℕ)
    → store xs i v ≡ done ys
    → (i < length xs) × (ys ≡ set xs i v)
store-done xs i v ys e = ground arith

pub load-done : (xs : List ℕ) (i v : ℕ) → load xs i ≡ done v → get_elem? xs i ≡ some v
load-done xs i v e = ground arith

publish-Represents :
    {S : Type 0} (q : Queue S) (items : List ℕ) (off ptr : ℕ)
    → Represents q items
    → off ≡ q.push_offset
    → suc (length items) < q.max_size
    → get_elem? q.ring_buffer off ≡ some ptr
    → Represents (record q { push_offset = advance q.mask off }) (items ++ ptr ∷ [])
publish-Represents q items off ptr r e small last =
    let next : advance q.mask off ≡ (q.pop_offset + suc (length items)) % q.max_size =
      rw e (next_push q items r) in
    record {
      ring = record {
        bits = r.ring.bits;
        size_at = r.ring.size_at;
        mask_at = r.ring.mask_at;
        small = r.ring.small;
        pop_in = r.ring.pop_in;
        push_in = rw next (omega (arith, r.ring.pop_in));
      };
      room = omega (arith, length-append items (ptr ∷ []));
      push_at =
          rw (length-append items (ptr ∷ []), next)
            (ap (λ k. (q.pop_offset + k) % q.max_size) (omega arith));
      held =
          Holds-append q.ring_buffer q.max_size q.pop_offset ptr items off r.ring.pop_in
            (e ∙ r.push_at) last r.held;
    }

module _ (efd : EventFd) where
  notify_adds : (s t : efd.State) → notify efd s ≡ done t → efd.value t ≡ efd.value s + 1
  unfolding notify
  notify_adds s t e = efd.write_adds s t 1 (ground arith)

  fill-Inv :
      {s : System efd.State} {items : List ℕ} (ptr off : ℕ) (buf : List ℕ)
      → Inv efd s items
      → s.writer ≡ Writer.filling ptr off
      → store s.queue.ring_buffer off ptr ≡ done buf
      → Inv efd
          (record s {
            queue = record (s.queue) { ring_buffer = buf };
            writer = Writer.publishing ptr off;
          })
          items
  fill-Inv {s} {items} ptr off buf inv at e = ground (
    arith,
    store-done s.queue.ring_buffer off ptr buf e,
    fill-Represents s.queue items off ptr inv.stands,
    offsets_differ s.queue items inv.stands,
    get_elem?-set_self s.queue.ring_buffer off ptr,
    get_elem?-set_ne s.queue.ring_buffer off s.queue.pop_offset ptr,
  )

  publish-Inv :
      {s : System efd.State} {items : List ℕ} (ptr off : ℕ)
      → Inv efd s items
      → s.writer ≡ Writer.publishing ptr off
      → Inv efd
          (record s {
            queue = record (s.queue) { push_offset = advance s.queue.mask off };
            writer = Writer.notifying;
            sent = s.sent ++ ptr ∷ [];
          })
          (items ++ ptr ∷ [])
  publish-Inv {s} {items} ptr off inv at = ground (
    arith,
    publish-Represents s.queue items off ptr inv.stands,
    NotNull-append items ptr,
    length-append items (ptr ∷ []),
    append_assoc s.taken items (ptr ∷ []),
  )

  -- The reader gives the first item back.
  release-Inv :
      {s : System efd.State} (items : List ℕ) (ptr off : ℕ)
      → Inv efd s items
      → s.reader ≡ Reader.releasing ptr off
      → (after : List ℕ) × Inv efd
          (record s {
            queue = record (s.queue) { pop_offset = advance s.queue.mask off };
            reader = Reader.idle;
            left = s.left - 1;
            taken = s.taken ++ ptr ∷ [];
          })
          after
  release-Inv {s} [] ptr off inv at = absurd (ground arith)
  release-Inv {s} (x ∷ xs) ptr off inv at = (
    xs,
    ground (
      arith,
      popped-Represents s.queue x xs inv.stands,
      append_assoc s.taken (ptr ∷ []) xs,
      inv.stands.held,
    ),
  )

  pub Step-Inv :
      {s t : System efd.State} {items : List ℕ}
      → Step efd s t
      → Inv efd s items
      → (after : List ℕ) × Inv efd t after
  Step-Inv {s} {items = items} (Step.begin_push ptr idle ne) inv = (items, ground arith)
  Step-Inv {s} {items = items} (Step.push_full ptr off at full) inv = (items, ground arith)
  Step-Inv {s} {items = items} (Step.push_room ptr off at room) inv =
      (items, ground (arith, room_for_one s.queue items off inv.stands))
  Step-Inv {s} {items = items} (Step.fill ptr off buf at e) inv =
      (items, fill-Inv ptr off buf inv at e)
  Step-Inv {s} {items = items} (Step.publish ptr off at) inv =
      (items ++ ptr ∷ [], publish-Inv ptr off inv at)
  Step-Inv {s} {items = items} (Step.notified t at e) inv = (
    items,
    ground (arith, event-Represents s.queue items t inv.stands, notify_adds s.queue.add_event t e),
  )
  Step-Inv {s} {items = items} (Step.wake n t idle none_left e) inv = (
    items,
    ground (
      arith,
      event-Represents s.queue items t inv.stands,
      efd.read_takes s.queue.add_event t n e,
    ),
  )
  Step-Inv {s} {items = items} (Step.begin_pop idle left) inv = (items, ground arith)
  Step-Inv {s} {items = items} (Step.pop_empty off at e) inv =
      absurd (ground (arith, offsets_differ s.queue items inv.stands))
  Step-Inv {s} {items = items} (Step.pop_item off at ne) inv = (items, ground arith)
  Step-Inv {s} {items = items} (Step.read ptr off at e) inv =
      (items, ground (arith, load-done s.queue.ring_buffer off ptr e))
  Step-Inv {s} {items = items} (Step.release ptr off at) inv = release-Inv items ptr off inv at
