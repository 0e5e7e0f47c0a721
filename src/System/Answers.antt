-- ===== src/System/Answers.antt =====
-- An actor takes a request from its queue and answers it.
use mathlib.Core.Path.{subst}
use jullop.Base.{
  ℕ, ◌<◌, ◌≤◌, ◌≡◌, ◌≢◌, refl, sym, ◌∙◌, ap, arith, Bool, List, [], ◌∷◌, ◌++◌, length, done,
}
use jullop.Kernel.{Socket, Epoll, EventFd}
use jullop.Ring.Api.{null, pointer_of}
use jullop.Ring.Fifo
use jullop.MrmwQueue.{Queue, Mutex, queue_pop}
use jullop.MrmwQueue.Invariant.{Represents}
use jullop.MrmwQueue.Refine.{Works, queue_pop_refines}
use jullop.Server.{World}
use jullop.Lifecycle.{reading, queued, writing, closed, InPhase}
use jullop.System.{at_address, Entry, State, wait_weight, address_weight, with_queue}
use jullop.System.Sums.{sum_of-find, sum_of, sum_of-middle, sum_of_mono}
use jullop.System.Queues.{HasQueue, AfterCall, with_queue_lem, occurrences}
use jullop.System.Invariant.{IsOpen, IsSystem, wait-queued, wait-not_queued}
use jullop.System.Turns.{opened}
use jullop.System.Phases.{done-injective}
use jullop.System.Actors.{finds, wait-address}

pub occurs_inside : (test : ℕ → Bool) (items : List ℕ) → occurrences test items ≤ length items
occurs_inside test [] = omega arith
occurs_inside test (y ∷ items) = ground (arith, occurs_inside test items)

occurs_first : (x : ℕ) (items : List ℕ) → 0 < occurrences (at_address x) (x ∷ items)
occurs_first x items = ground arith

-- What a pop gives an actor: a request, and its queue without it.
pub record Popped (efd : EventFd) {E : Type 0} (w : World E efd.State) (m : Mutex) (i : ℕ)
    (items : List ℕ) (q : Queue efd.State) : Type 0 where
  pub x : ℕ
  pub xs : List ℕ
  pub items_are : items ≡ x ∷ xs
  pub some_request : x ≢ null
  pub queue : Queue efd.State
  pub world : World E efd.State
  pub runs : with_queue efd w i (λ z. queue_pop efd m z) ≡ done (x, world)
  pub op : AfterCall efd w i queue world
  pub holds : Represents queue xs
  pub same_size : queue.max_size ≡ q.max_size
  pub same_event : queue.add_event ≡ q.add_event

module _ (sock : Socket) (ep : Epoll) (efd : EventFd) (listen : ℕ)
    (s : State ep.State efd.State sock.State) (h : IsSystem sock ep efd listen s) (m : Mutex)
    (works : Works m) (i : ℕ) (small : i < s.world.server.actor_count)
    (some_left : 0 < s.left i) where
  abbrev pub its_queue :
      HasQueue efd s.world.server.app_actors s.world.epoll.id (s.left i) s.entries i
  its_queue = h.queues i small

  pub popped : Popped efd s.world m i its_queue.items its_queue.at.queue
  unfolding Fifo.pop
  popped =
      let hq = its_queue in
      let (x, xs, items_are, some_request) = finds sock ep efd listen s h hq some_left in
      let (q', ran, holds, same_size, same_event) =
        queue_pop_refines efd m hq.at.queue hq.items works hq.at.holds in
      let (w', runs, op) =
        with_queue_lem efd s.world i x hq.items (λ z. queue_pop efd m z) q' hq.at
          (ran ∙ ap (λ l. done (pointer_of (Fifo.pop l).0, q')) items_are) in
      record {
        x = x;
        xs = xs;
        items_are = items_are;
        some_request = some_request;
        queue = q';
        world = w';
        runs = runs;
        op = op;
        holds = subst (λ l. Represents q' (Fifo.pop l).1) items_are holds;
        same_size = same_size;
        same_event = same_event;
      }

  -- The request that is taken is that of a connection.
  pub popped_waits :
      (before : List (Entry sock.State)) × (e : Entry sock.State) × (after : List
        (Entry sock.State))
      × (s.entries ≡ before ++ (e ∷ after))
      × (0 < wait_weight i (at_address popped.x) e)
  popped_waits =
      let x = popped.x in
      sum_of-find (wait_weight i (at_address x)) s.entries (
        omega (
          arith,
          its_queue.waits (at_address x),
          ap (occurrences (at_address x)) popped.items_are,
          occurs_first x popped.xs,
        ))

  -- Its queue is not empty.
  pub gives_up-never :
      (w : World ep.State efd.State)
      → with_queue efd s.world i (λ q. queue_pop efd m q) ≡ done (null, w)
      → ⊥
  gives_up-never w ran =
      popped.some_request
        (ap (λ z. z.0) (done-injective (popped.x, popped.world) (null, w) (sym popped.runs ∙ ran)))

  -- The connection whose request was taken.
  module _ (before after : List (Entry sock.State)) (e : Entry sock.State)
      (split : s.entries ≡ before ++ (e ∷ after))
      (address_is : e.connection.address ≡ popped.x) where
    -- It is the only one at its address, so that it is the one that waits for the actor.
    waits_here : 0 < wait_weight i (at_address popped.x) e
    waits_here =
        let x = popped.x in
        let occurs : 0 < occurrences (at_address x) its_queue.items =
          subst (λ l. 0 < occurrences (at_address x) l) (sym popped.items_are) (ground arith) in
        let here : address_weight x e ≡ 1 = ground (arith, address_is) in
        omega (
          arith,
          occurs,
          here,
          its_queue.waits (at_address x),
          h.orderly.own_address x,
          ap (sum_of (wait_weight i (at_address x))) split,
          ap (sum_of (address_weight x)) split,
          sum_of-middle (wait_weight i (at_address x)) before e after,
          sum_of-middle (address_weight x) before e after,
          sum_of_mono (wait_weight i (at_address x)) (address_weight x) before
              (wait-address sock ep efd listen s h i x),
          sum_of_mono (wait_weight i (at_address x)) (address_weight x) after
              (wait-address sock ep efd listen s h i x),
        )

    pub is_queued : InPhase sock ep queued s.world e.connection e.fd × (e.actor ≡ i)
    is_queued = of_phase (opened sock ep efd listen s h before after e split)
      where
        of_phase :
            IsOpen sock ep efd s.world e
            → InPhase sock ep queued s.world e.connection e.fd × (e.actor ≡ i)
        of_phase (queued, ne, at) = (
          at,
          ground (arith, waits_here, wait-queued sock ep efd s.world e i (at_address popped.x) at),
        )
        of_phase (closed, ne, at) = absurd (ne refl)
        of_phase (reading, ne, at) = absurd (
            omega (
              arith,
              waits_here,
              wait-not_queued sock ep efd reading s.world e i (at_address popped.x) ne (λ z. cc) at,
            ))
        of_phase (writing, ne, at) = absurd (
            omega (
              arith,
              waits_here,
              wait-not_queued sock ep efd writing s.world e i (at_address popped.x) ne (λ z. cc) at,
            ))
