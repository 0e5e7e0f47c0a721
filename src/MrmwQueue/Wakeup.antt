-- ===== src/MrmwQueue/Wakeup.antt =====
-- The lock-based queue between the threads that push on it (src/client.c, `client_handle_read`) and
-- the actor that drains it (src/actor.c, the loops of `process_epoll_event`). The mutex makes a push
-- and a pop one step each; reading the event descriptor is a step of its own.
use jullop.Base.{
  ℕ, ◌+◌, ◌-◌, ◌^◌, ◌<◌, ◌≡◌, refl, ◌≢◌, sym, List, [], ◌∷◌, ◌++◌, some, arith, length, done,
  append-nil, append_assoc, Bool-cases, inl, inr, leb,
}
use jullop.Kernel.{EventFd}
use jullop.Ring.Api.{QueueResult, success, failure, null, result_of, NotNull, NotNull-append}
use jullop.Ring.Fifo
use jullop.MrmwQueue.{Queue, Mutex, queue_push, queue_pop}
use jullop.MrmwQueue.Invariant.{Represents}
use jullop.MrmwQueue.Refine.{Works, queue_push_refines, queue_pop_refines}

-- The actor waits in epoll_wait or is about to call eventfd_read when `left` is 0; otherwise it is in
-- the `for` loop with that many rounds left. `sent` and `taken` record what was pushed and popped.
pub record System (S : Type 0) : Type 0 where
  pub queue : Queue S
  pub left : ℕ
  pub sent : List ℕ
  pub taken : List ℕ

abbrev pub sent_after : QueueResult → List ℕ → ℕ → List ℕ
sent_after success sent ptr = sent ++ ptr ∷ []
sent_after failure sent ptr = sent

push_real :
    (size ptr : ℕ) (items : List ℕ)
    → ptr ≢ null
    → NotNull items
    → NotNull (Fifo.push size items ptr).1
unfolding Fifo.push
push_real size ptr items ne h = elim (Bool-cases (leb size (length items))) [
  | inl full ↦ rw full h
  | inr room ↦ rw room (NotNull-append items ptr ne h)
]

-- What was sent stays what was taken and then what is queued.
push_order :
    (size ptr : ℕ) (sent taken items : List ℕ)
    → sent ≡ taken ++ items
    → sent_after (result_of (Fifo.push size items ptr).0) sent ptr
      ≡ taken ++ (Fifo.push size items ptr).1
unfolding Fifo.push
push_order size ptr sent taken items e = elim (Bool-cases (leb size (length items))) [
  | inl full ↦ rw full e
  | inr room ↦ rw room (rw e (append_assoc taken items (ptr ∷ [])))
]

drained : (taken sent items : List ℕ) → sent ≡ taken ++ items → length items ≡ 0 → taken ≡ sent
drained taken sent [] e h = rw (e, append-nil)
drained taken sent (x ∷ xs) e h = absurd (omega arith)

module _ (efd : EventFd) where
  pub data Step (s : System efd.State) : System efd.State → Type 0 where
    -- `queue_push` of a request by an IO worker
    push :
        (m : Mutex) (ptr : ℕ) {r : QueueResult} {q : Queue efd.State}
        → Works m
        → ptr ≢ null
        → queue_push efd m s.queue ptr ≡ done (r, q)
        → Step s (record s { queue = q; sent = sent_after r s.sent ptr })
    -- `eventfd_read`, with a result that is not -1
    wake :
        {n : ℕ} {t : efd.State}
        → s.left ≡ 0
        → efd.read s.queue.add_event ≡ some (n, t)
        → Step s (record s { queue = record (s.queue) { add_event = t }; left = n })
    -- one round of the `for` loop
    take :
        (m : Mutex) {ptr : ℕ} {q : Queue efd.State}
        → Works m
        → 0 < s.left
        → queue_pop efd m s.queue ≡ done (ptr, q)
        → ptr ≢ null
        → Step s (record s { queue = q; left = s.left - 1; taken = s.taken ++ ptr ∷ [] })
    -- the early return of the loop, on NULL
    give_up :
        (m : Mutex) {q : Queue efd.State}
        → Works m
        → 0 < s.left
        → queue_pop efd m s.queue ≡ done (null, q)
        → Step s (record s { queue = q; left = 0 })

  -- A queue as `queue_init` makes it, and an actor that waits.
  pub data Reach : System efd.State → Type 0 where
    start :
        {s : System efd.State}
        → Represents s.queue []
        → s.queue.max_size < 2 ^ 63
        → efd.value s.queue.add_event ≡ 0
        → s.left ≡ 0
        → s.sent ≡ []
        → s.taken ≡ []
        → Reach s
    later : {s t : System efd.State} → Reach s → Step s t → Reach t

  -- The items in the queue are those sent and not yet taken, in order, and each has its notification:
  -- in the descriptor, or in the rounds that the actor has left.
  pub record Inv (s : System efd.State) : Type 0 where
    pub items : List ℕ
    pub stands : Represents s.queue items
    pub small : s.queue.max_size < 2 ^ 63
    pub ordered : s.sent ≡ s.taken ++ items
    pub notified : length items ≡ efd.value s.queue.add_event + s.left
    pub real : NotNull items

  push-Inv :
      (s : System efd.State) (m : Mutex) (ptr : ℕ) (r : QueueResult) (q : Queue efd.State)
      → Works m
      → ptr ≢ null
      → queue_push efd m s.queue ptr ≡ done (r, q)
      → Inv s
      → Inv (record s { queue = q; sent = sent_after r s.sent ptr })
  push-Inv s m ptr r q ok ne e inv =
      let (q', e', rep, same, count) =
        queue_push_refines efd m s.queue inv.items ptr ok inv.stands
          (omega (arith, inv.stands, inv.notified)) in
      let here : q' ≡ q = ground arith in
      let verdict : r ≡ result_of (Fifo.push s.queue.max_size inv.items ptr).0 = ground arith in
      record {
        items = (Fifo.push s.queue.max_size inv.items ptr).1;
        stands = rw here at rep;
        small = ground arith;
        ordered = rw verdict (push_order s.queue.max_size ptr s.sent s.taken inv.items inv.ordered);
        notified = ground arith;
        real = push_real s.queue.max_size ptr inv.items ne inv.real;
      }

  wake-Inv :
      (s : System efd.State) (n : ℕ) (t : efd.State)
      → s.left ≡ 0
      → efd.read s.queue.add_event ≡ some (n, t)
      → Inv s
      → Inv (record s { queue = record (s.queue) { add_event = t }; left = n })
  wake-Inv s n t idle e inv =
      let (all, pos, reset) = efd.read_takes s.queue.add_event t n e in
      record {
        items = inv.items;
        stands = record {
          allocated = inv.stands.allocated;
          word_sized = inv.stands.word_sized;
          counted = inv.stands.counted;
          bounded = inv.stands.bounded;
          head_in = inv.stands.head_in;
          tail_at = inv.stands.tail_at;
          held = inv.stands.held;
        };
        small = inv.small;
        ordered = inv.ordered;
        notified = omega (arith, inv.notified);
        real = inv.real;
      }

  -- A pop on a queue with items gives the oldest one.
  pop_is_head :
      (q : Queue efd.State) (m : Mutex) (ptr : ℕ) (q' : Queue efd.State) (x : ℕ) (xs : List ℕ)
      → Works m
      → queue_pop efd m q ≡ done (ptr, q')
      → Represents q (x ∷ xs)
      → (ptr ≡ x) × Represents q' xs × (q'.max_size ≡ q.max_size) × (q'.add_event ≡ q.add_event)
  unfolding Fifo.pop
  pop_is_head q m ptr q' x xs ok e rep =
      let (p, e', rep', same, event) = queue_pop_refines efd m q (x ∷ xs) ok rep in
      let here : p ≡ q' = ground arith in
      (ground arith, rw here at rep', ground arith, ground arith)

  take-Inv :
      (s : System efd.State) (m : Mutex) (ptr : ℕ) (q : Queue efd.State) (items : List ℕ)
      → Works m
      → 0 < s.left
      → queue_pop efd m s.queue ≡ done (ptr, q)
      → Represents s.queue items
      → s.queue.max_size < 2 ^ 63
      → s.sent ≡ s.taken ++ items
      → length items ≡ efd.value s.queue.add_event + s.left
      → NotNull items
      → (ptr ≢ null) × Inv (record s { queue = q; left = s.left - 1; taken = s.taken ++ ptr ∷ [] })
  take-Inv s m ptr q [] ok left e rep small o n real = absurd (omega arith)
  take-Inv s m ptr q (x ∷ xs) ok left e rep small o n real =
      let (head, rep', same, event) = pop_is_head s.queue m ptr q x xs ok e rep in
      (
        rw head real.0,
        record {
          items = xs;
          stands = rep';
          small = ground arith;
          ordered = rw (o, head) (sym (append_assoc s.taken (x ∷ []) xs));
          notified = ground arith;
          real = real.1;
        },
      )

  Step-Inv : {s t : System efd.State} → Step s t → Inv s → Inv t
  Step-Inv {s} (push m ptr {r} {q} ok ne e) inv = push-Inv s m ptr r q ok ne e inv
  Step-Inv {s} (wake {n} {t} idle e) inv = wake-Inv s n t idle e inv
  Step-Inv {s} (take m {ptr} {q} ok left e ne) inv =
      (take-Inv s m ptr q inv.items ok left e inv.stands inv.small inv.ordered inv.notified
        inv.real).1
  Step-Inv {s} (give_up m {q} ok left e) inv = absurd (
      (take-Inv s m null q inv.items ok left e inv.stands inv.small inv.ordered inv.notified
          inv.real).0
        refl)

  Reach-Inv : {s : System efd.State} → Reach s → Inv s
  Reach-Inv {s} (start rep small zero_event idle none_sent none_taken) = record {
    items = [];
    stands = rep;
    small = small;
    ordered = rw (none_sent, none_taken);
    notified = omega arith;
    real = tt;
  }
  Reach-Inv (later r st) = Step-Inv st (Reach-Inv r)

  -- In every reachable state, while the actor has rounds of its loop left, the next pop returns a
  -- request, never NULL.
  pub pop_while_left :
      {s : System efd.State}
      → Reach s
      → (m : Mutex) → Works m
      → 0 < s.left
      → (ptr : ℕ) × (q : Queue efd.State) × (queue_pop efd m s.queue ≡ done (ptr, q)) × (ptr ≢ null)
  pop_while_left {s} r m ok left =
      let inv = Reach-Inv r in
      let (q, e, rep, same, event) = queue_pop_refines efd m s.queue inv.items ok inv.stands in
      let (ne, after) =
        take-Inv s m _ q inv.items ok left e inv.stands inv.small inv.ordered inv.notified
          inv.real in
      (_, q, e, ne)

  -- No wakeup is lost: in every reachable state in which the actor has no round of its loop left and
  -- the counter of the descriptor is 0, so that it sleeps, every request that was ever pushed has been
  -- taken, in the order of the pushes.
  pub no_lost_wakeup :
      {s : System efd.State}
      → Reach s
      → s.left ≡ 0
      → efd.value s.queue.add_event ≡ 0
      → s.taken ≡ s.sent
  no_lost_wakeup {s} r idle quiet =
      let inv = Reach-Inv r in
      drained s.taken s.sent inv.items inv.ordered (omega (arith, inv.notified))

  -- In every reachable state the requests taken so far are a prefix of those sent, in order; what is
  -- missing is in the queue, which counts it.
  pub deliveries_in_order :
      {s : System efd.State}
      → Reach s
      → (items : List ℕ) × (s.sent ≡ s.taken ++ items) × (length items ≡ s.queue.current_size)
  deliveries_in_order r = let inv = Reach-Inv r in (inv.items, inv.ordered, inv.stands.counted)
