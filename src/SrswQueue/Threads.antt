-- ===== src/SrswQueue/Threads.antt =====
-- One writer and one reader of src/srsw_queue.c, interleaved at each access to shared memory: the
-- loads and stores of the offsets, the accesses to the slots, and the calls on the event descriptor.
-- The reader is the actor of src/actor.c, which pops as often as the descriptor counted.
use jullop.Base.{ℕ, ◌-◌, ◌<◌, ◌≡◌, ◌≢◌, List, [], ◌∷◌, ◌++◌, some, done, load, store}
use jullop.Kernel.{EventFd}
use jullop.Ring.Api.{null}
use jullop.SrswQueue.{Queue, advance, notify}

-- Where `queue_push` stands, with its live variables. The load of `pop_offset` and the test are one
-- step, since the test reads nothing else that is shared.
pub data Writer : Type 0 where
  idle : Writer
  testing : (ptr push_offset : ℕ) → Writer  -- `push_offset` is loaded
  filling : (ptr push_offset : ℕ) → Writer  -- the test found room
  publishing : (ptr push_offset : ℕ) → Writer  -- the slot is written
  notifying : Writer  -- `push_offset` is stored

-- Where `queue_pop` stands.
pub data Reader : Type 0 where
  idle : Reader
  testing : (pop_offset : ℕ) → Reader  -- `pop_offset` is loaded
  reading : (pop_offset : ℕ) → Reader  -- the test found an item
  releasing : (ptr pop_offset : ℕ) → Reader  -- the slot is read

-- `left` is the number of rounds of the actor's `for` loop that are not complete. `sent` and `taken`
-- record what was published and what was released.
pub record System (S : Type 0) : Type 0 where
  pub queue : Queue S
  pub writer : Writer
  pub reader : Reader
  pub left : ℕ
  pub sent : List ℕ
  pub taken : List ℕ

pub data Step (efd : EventFd) (s : System efd.State) : System efd.State → Type 0 where
  begin_push :
      (ptr : ℕ)
      → s.writer ≡ Writer.idle
      → ptr ≢ null
      → Step efd s (record s { writer = Writer.testing ptr s.queue.push_offset })
  push_full :
      (ptr off : ℕ)
      → s.writer ≡ Writer.testing ptr off
      → advance s.queue.mask off ≡ s.queue.pop_offset
      → Step efd s (record s { writer = Writer.idle })
  push_room :
      (ptr off : ℕ)
      → s.writer ≡ Writer.testing ptr off
      → advance s.queue.mask off ≢ s.queue.pop_offset
      → Step efd s (record s { writer = Writer.filling ptr off })
  fill :
      (ptr off : ℕ) (buf : List ℕ)
      → s.writer ≡ Writer.filling ptr off
      → store s.queue.ring_buffer off ptr ≡ done buf
      → Step efd s (record s {
        queue = record (s.queue) { ring_buffer = buf };
        writer = Writer.publishing ptr off;
      })
  publish :
      (ptr off : ℕ)
      → s.writer ≡ Writer.publishing ptr off
      → Step efd s (record s {
        queue = record (s.queue) { push_offset = advance s.queue.mask off };
        writer = Writer.notifying;
        sent = s.sent ++ ptr ∷ [];
      })
  notified :
      (t : efd.State)
      → s.writer ≡ Writer.notifying
      → notify efd s.queue.add_event ≡ done t
      → Step efd s (record s { queue = record (s.queue) { add_event = t }; writer = Writer.idle })
  wake :
      (n : ℕ) (t : efd.State)
      → s.reader ≡ Reader.idle
      → s.left ≡ 0
      → efd.read s.queue.add_event ≡ some (n, t)
      → Step efd s (record s { queue = record (s.queue) { add_event = t }; left = n })
  begin_pop :
      s.reader ≡ Reader.idle
      → 0 < s.left
      → Step efd s (record s { reader = Reader.testing s.queue.pop_offset })
  -- `queue_pop` returns NULL, and the actor leaves its loop.
  pop_empty :
      (off : ℕ)
      → s.reader ≡ Reader.testing off
      → off ≡ s.queue.push_offset
      → Step efd s (record s { reader = Reader.idle; left = 0 })
  pop_item :
      (off : ℕ)
      → s.reader ≡ Reader.testing off
      → off ≢ s.queue.push_offset
      → Step efd s (record s { reader = Reader.reading off })
  read :
      (ptr off : ℕ)
      → s.reader ≡ Reader.reading off
      → load s.queue.ring_buffer off ≡ done ptr
      → Step efd s (record s { reader = Reader.releasing ptr off })
  release :
      (ptr off : ℕ)
      → s.reader ≡ Reader.releasing ptr off
      → Step efd s (record s {
        queue = record (s.queue) { pop_offset = advance s.queue.mask off };
        reader = Reader.idle;
        left = s.left - 1;
        taken = s.taken ++ ptr ∷ [];
      })

-- A store outside the allocation has no step: the writer does not get past it.
pub data Reach (efd : EventFd) (start : System efd.State) : System efd.State → Type 0 where
  here : Reach efd start start
  later : {s t : System efd.State} → Reach efd start s → Step efd s t → Reach efd start t
