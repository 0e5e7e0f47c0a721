-- ===== src/SrswQueue/Wakeup.antt =====
-- What holds in every state that the two threads of Threads reach.
use jullop.Base.{
  ℕ, ◌<◌, ◌≡◌, ◌≢◌, refl, ◌∙◌, sym, List, [], ◌∷◌, ◌++◌, ◌≤◌, ◌^◌, ap, arith, append-nil, done,
  load, store, load-set_other,
}
use jullop.Kernel.{EventFd}
use jullop.Ring.Api.{null}
use jullop.SrswQueue.{Queue, Resources, queue_init}
use jullop.SrswQueue.Init.{queue_init_lem}
use jullop.SrswQueue.Invariant.{Represents}
use jullop.SrswQueue.Threads.{System, Writer, Reader, Reach}
use jullop.SrswQueue.Steps.{Inv, store-done, offsets_differ, Step-Inv}

-- An empty queue whose descriptor has counted nothing, and idle threads.
pub record IsStart (efd : EventFd) (s : System efd.State) : Type 0 where
  pub empty : Represents s.queue []
  pub quiet : efd.value s.queue.add_event ≡ 0
  pub writer_idle : s.writer ≡ Writer.idle
  pub reader_idle : s.reader ≡ Reader.idle
  pub none_left : s.left ≡ 0
  pub none_sent : s.sent ≡ []
  pub none_taken : s.taken ≡ []

module _ (efd : EventFd) where
  -- Every queue that `queue_init` makes for a size from 1 to 2 ^ 32 is one.
  pub queue_init-IsStart :
      (r : Resources) (requested : ℕ) (q : Queue efd.State)
      → 0 < requested
      → requested ≤ 2 ^ 32
      → queue_init efd r requested ≡ done q
      → IsStart efd (record {
        queue = q;
        writer = Writer.idle;
        reader = Reader.idle;
        left = 0;
        sent = [];
        taken = [];
      })
  queue_init-IsStart r requested q pos small made =
      let (empty, quiet) = queue_init_lem efd r requested q pos small made in
      record {
        empty = empty;
        quiet = quiet;
        writer_idle = refl;
        reader_idle = refl;
        none_left = refl;
        none_sent = refl;
        none_taken = refl;
      }

  IsStart-Inv : {s : System efd.State} → IsStart efd s → Inv efd s []
  IsStart-Inv {s} b = ground (arith, b.empty, b.quiet)

  Reach-Inv :
      {s t : System efd.State} → IsStart efd s → Reach efd s t → (items : List ℕ) × Inv efd t items
  Reach-Inv b Reach.here = ([], IsStart-Inv b)
  Reach-Inv b (Reach.later r st) = Step-Inv efd st (Reach-Inv b r).1

  -- From an empty queue, such as `queue_init` makes for a size from 1 to 2 ^ 32, at every interleaving
  -- of one writer and one reader, both idle at first, up to a store outside the allocation: what was
  -- taken so far is a prefix of what was sent, in order, and the rest is in the slots between the two
  -- offsets.
  pub srsw_in_order :
      {s t : System efd.State}
      → IsStart efd s
      → Reach efd s t
      → (items : List ℕ) × (t.sent ≡ t.taken ++ items) × Represents t.queue items
  srsw_in_order b r = let (items, inv) = Reach-Inv b r in (items, inv.ordered, inv.stands)

  -- From an empty queue, such as `queue_init` makes for a size from 1 to 2 ^ 32, at every interleaving
  -- from both threads idle up to a store outside the allocation: when the reader is about to load a slot, the
  -- slot is allocated and holds the oldest request that was sent and not yet taken, also while the
  -- writer is in mid-push.
  pub srsw_read_oldest :
      {s t : System efd.State} (off : ℕ)
      → IsStart efd s
      → Reach efd s t
      → t.reader ≡ Reader.reading off
      → (ptr : ℕ) × (rest : List ℕ) × (load t.queue.ring_buffer off ≡ done ptr)
        × (ptr ≢ null)
        × (t.sent ≡ t.taken ++ ptr ∷ rest)
  srsw_read_oldest {t = t} off b r at = let (items, inv) = Reach-Inv b r in oldest items inv
    where
      oldest :
          (items : List ℕ)
          → Inv efd t items
          → (ptr : ℕ) × (rest : List ℕ) × (load t.queue.ring_buffer off ≡ done ptr)
            × (ptr ≢ null)
            × (t.sent ≡ t.taken ++ ptr ∷ rest)
      oldest [] inv = absurd (ground arith)
      oldest (x ∷ xs) inv = (x, xs, ground (arith, inv.stands.held), inv.real.0, inv.ordered)

  -- From an empty queue, such as `queue_init` makes for a size from 1 to 2 ^ 32, at every interleaving
  -- from both threads idle on: when the writer is about to store into a slot inside the allocation while the
  -- reader is about to load one, these are different slots, and the store leaves what the reader loads
  -- as it is.
  pub srsw_no_race :
      {s t : System efd.State} (ptr off o : ℕ) (buf : List ℕ)
      → IsStart efd s
      → Reach efd s t
      → t.writer ≡ Writer.filling ptr off
      → t.reader ≡ Reader.reading o
      → store t.queue.ring_buffer off ptr ≡ done buf
      → (off ≢ o) × (load buf o ≡ load t.queue.ring_buffer o)
  srsw_no_race {t = t} ptr off o buf b r at reads stored =
      let (items, inv) = Reach-Inv b r in
      let apart : off ≢ o = λ e. ground (
        arith,
        offsets_differ t.queue items inv.stands,
        inv.writer_ok,
        inv.reader_ok,
        inv.notices,
      ) in
      let (inside, written) = store-done t.queue.ring_buffer off ptr buf stored in
      (
        apart,
        ap (λ l. load l o) written
            ∙ load-set_other t.queue.ring_buffer off o ptr (λ e. apart (sym e)),
      )

  -- While the actor has rounds left, `queue_pop` does not find the ring empty.
  pub srsw_pop_while_left :
      {s t : System efd.State} (off : ℕ)
      → IsStart efd s
      → Reach efd s t
      → t.reader ≡ Reader.testing off
      → off ≢ t.queue.push_offset
  srsw_pop_while_left {t = t} off b r at e =
      let (items, inv) = Reach-Inv b r in
      ground (arith, offsets_differ t.queue items inv.stands, inv.reader_ok, inv.notices)

  -- No wakeup is lost from an empty queue on, such as `queue_init` makes for a size from 1 to 2 ^ 32, at
  -- every interleaving from both threads idle up to a store outside the allocation: when the actor has no rounds left, the descriptor counts 0 and the writer does
  -- not stand between its store and its notification, every request that was sent has been taken.
  pub srsw_no_lost_wakeup :
      {s t : System efd.State}
      → IsStart efd s
      → Reach efd s t
      → t.left ≡ 0
      → efd.value t.queue.add_event ≡ 0
      → t.writer ≢ Writer.notifying
      → t.taken ≡ t.sent
  srsw_no_lost_wakeup {t = t} b r idle quiet settled =
      let (items, inv) = Reach-Inv b r in drained items inv
    where
      drained : (items : List ℕ) → Inv efd t items → t.taken ≡ t.sent
      drained [] inv = sym (inv.ordered ∙ append-nil t.taken)
      drained (x ∷ xs) inv = absurd (ground (arith, inv.notices))
