-- ===== src/System/Liveness.antt =====
-- Every request that waits for an actor can be answered, by steps of that actor alone.
use mathlib.Core.Path.{subst}
use jullop.Base.{
  ℕ, zero, suc, ◌+◌, ◌-◌, ◌*◌, ◌<◌, ◌≡◌, refl, ◌∙◌, ap, arith, List, ◌∷◌, ◌++◌, done, dec_lt,
  ℕ_discrete,
}
use jullop.Kernel.{Socket, Memory, Epoll, EventFd}
use jullop.OutputBuffer.Appending as Output
use jullop.RequestStats.{Timespec}
use jullop.MrmwQueue.{Mutex}
use jullop.MrmwQueue.Refine.{Works}
use jullop.HttpRequest.{Parser}
use jullop.Server.{World}
use jullop.Lifecycle.{stream_bound, IsQueued, IsWriting}
use jullop.System.{
  Entry, State, with_queue, take_count, update, Step, wakes, answers, ActorRun, OfActor, rests,
  steps, wait_weight, anywhere, at_address,
}
use jullop.System.Sums.{All-split, sum_of, sum_of-middle}
use jullop.System.Queues.{with_queue_lem}
use jullop.System.Invariant.{IsAssigned, queued_waits, IsSystem}
use jullop.System.Actors.{wait-address, wakes-IsSystem, update_at}
use jullop.System.Answers.{occurs_inside, popped_waits, popped}
use jullop.System.Answered.{answered}

module _ (mem : Memory) (sock : Socket) (parser : Parser) (ep : Epoll) (efd : EventFd) (m : Mutex)
    (listen : ℕ) (works : Works m) (serves : Output.Serves mem (8 * stream_bound + 1)) (i : ℕ)
    (now : ℕ → Timespec) (address : ℕ) where
  -- The actor answers the request with an address in some steps.
  pub record Response (s : State ep.State efd.State sock.State) (x : ℕ) : Type 0 where
    pub last : State ep.State efd.State sock.State
    pub run : ActorRun mem sock parser ep efd m listen i s last
    pub before : List (Entry sock.State)
    pub entry : Entry sock.State
    pub after : List (Entry sock.State)
    pub entries_are : last.entries ≡ before ++ (entry ∷ after)
    pub address_is : entry.connection.address ≡ x
    pub at : IsWriting sock ep last.world entry.connection entry.fd
    pub some_response : 0 < at.request.output_buffer.write_into_offset

  before_step :
      (s t : State ep.State efd.State sock.State) (x : ℕ)
      (p : Step mem sock parser ep efd m listen s t)
      → OfActor mem sock parser ep efd m listen i p
      → Response t x
      → Response s x
  before_step s t x p own h = record {
    last = h.last;
    run = steps p own h.run;
    before = h.before;
    entry = h.entry;
    after = h.after;
    entries_are = h.entries_are;
    address_is = h.address_is;
    at = h.at;
    some_response = h.some_response;
  }

  -- An actor without rounds left reads its descriptor.
  woken :
      (s : State ep.State efd.State sock.State) (x : ℕ) (h : IsSystem sock ep efd listen s)
      → i < s.world.server.actor_count
      → s.left i ≡ 0
      → 0 < sum_of (wait_weight i (at_address x)) s.entries
      → (k : ℕ) × (w : World ep.State efd.State) × (with_queue efd s.world i
            (λ q. take_count efd (efd.read q.add_event) q)
          ≡ done (k, w))
        × (0 < k)
        × (w.server.actor_count ≡ s.world.server.actor_count)
  woken s x h small idle waits =
      let hq = h.queues i small in
      let some_events : 0 < efd.value hq.at.queue.add_event = omega (
        arith,
        hq.counted,
        idle,
        occurs_inside (at_address x) hq.items,
        hq.waits (at_address x),
        waits,
      ) in
      let ((k, t), taken) = efd.read_ready hq.at.queue.add_event some_events in
      let (is_count, some_left, drained) = efd.read_takes hq.at.queue.add_event t k taken in
      let (w, runs, op) =
        with_queue_lem efd s.world i k hq.items (λ q. take_count efd (efd.read q.add_event) q)
          (record (hq.at.queue) { add_event = t }) hq.at
          (ap (λ z. take_count efd z hq.at.queue) taken) in
      (k, w, runs, some_left, op.same_count)

  -- An actor without rounds left reads its descriptor first.
  with_rounds :
      (s : State ep.State efd.State sock.State) (x : ℕ)
      → IsSystem sock ep efd listen s
      → i < s.world.server.actor_count
      → 0 < sum_of (wait_weight i (at_address x)) s.entries
      → ((t : State ep.State efd.State sock.State)
          → IsSystem sock ep efd listen t
          → i < t.world.server.actor_count
          → t.entries ≡ s.entries
          → 0 < t.left i
          → Response t x)
      → Response s x
  with_rounds s x h small waits continue = elim (dec_lt 0 (s.left i)) [
    | yes some_left ↦ continue s h small refl some_left
    | no idle ↦
        let none_left : s.left i ≡ 0 = omega arith in
        let (k, w, runs, some_left, count) = woken s x h small none_left waits in
        let t : State ep.State efd.State sock.State = record s {
          world = w;
          left = update s.left i k;
        } in
        before_step s t x (wakes i k w small none_left runs) refl (
          continue t (wakes-IsSystem sock ep efd listen s h i k w small none_left runs)
            (omega (arith, count, small)) refl (omega (arith, update_at s.left i k, some_left)))
  ]

  -- An actor with rounds left answers a request, which is that of the connection or another.
  one_answer :
      (s : State ep.State efd.State sock.State) (x : ℕ)
      → IsSystem sock ep efd listen s
      → i < s.world.server.actor_count
      → 0 < s.left i
      → 0 < sum_of (wait_weight i (at_address x)) s.entries
      → ((t : State ep.State efd.State sock.State)
          → IsSystem sock ep efd listen t
          → i < t.world.server.actor_count
          → sum_of (wait_weight i anywhere) s.entries
            ≡ 1 + sum_of (wait_weight i anywhere) t.entries
          → 0 < sum_of (wait_weight i (at_address x)) t.entries
          → Response t x)
      → Response s x
  one_answer s x h small some_left waits continue =
      let p = popped sock ep efd listen s h m works i small some_left in
      let (before, e, after, split, here) =
        popped_waits sock ep efd listen s h m works i small some_left in
      let is_x : e.connection.address ≡ p.x =
        ground (arith, here, wait-address sock ep efd listen s h i p.x e) in
      let d =
        answered sock ep efd listen s h m works i small some_left before after e split is_x mem now
          address serves in
      let t : State ep.State efd.State sock.State = record s {
        world = d.world;
        entries = before ++ (record e { connection = d.connection } ∷ after);
        left = update s.left i (s.left i - 1);
      } in
      before_step s t x
        (answers i p.x address before after e now p.world d.world d.connection small some_left
          p.runs p.some_request split is_x d.runs)
        refl
        (elim (ℕ_discrete p.x x) [
          | yes same ↦ record {
            last = t;
            run = rests;
            before = before;
            entry = record e { connection = d.connection };
            after = after;
            entries_are = refl;
            address_is = d.same_address ∙ same;
            at = d.at;
            some_response = d.some_response;
          }
          | no other ↦
              continue t d.in_order (omega (arith, d.same_count, small)) (d.others_wait anywhere)
                (ground (arith, d.others_wait (at_address x), waits, other))
        ])

  rounds :
      (n : ℕ) (s : State ep.State efd.State sock.State) (x : ℕ)
      → IsSystem sock ep efd listen s
      → i < s.world.server.actor_count
      → sum_of (wait_weight i anywhere) s.entries < n
      → 0 < sum_of (wait_weight i (at_address x)) s.entries
      → Response s x
  rounds zero s x h small bound waits = absurd (omega arith)
  rounds (suc n) s x h small bound waits =
      with_rounds s x h small waits (λ t order below same some_left.
        let same_wait = ap (sum_of (wait_weight i (at_address x))) same in
        let same_waiting = ap (sum_of (wait_weight i anywhere)) same in
        one_answer t x order below some_left (omega (arith, same_wait, waits))
          (λ u later inside less left.
            rounds n u x later inside (omega (arith, less, same_waiting, bound)) left))

module _ (mem : Memory) (sock : Socket) (parser : Parser) (ep : Epoll) (efd : EventFd) (m : Mutex)
    (listen : ℕ) (works : Works m) (serves : Output.Serves mem (8 * stream_bound + 1)) where
  -- From a server that is in order, with memory and pthread calls that succeed, the steps of one actor
  -- alone answer a request that waits for it: after them the connection at the address waits to write
  -- a response that is not empty.
  pub request_answered :
      (s : State ep.State efd.State sock.State) (now : ℕ → Timespec) (address : ℕ)
      (before after : List (Entry sock.State)) (e : Entry sock.State)
      → IsSystem sock ep efd listen s
      → s.entries ≡ before ++ (e ∷ after)
      → IsQueued sock ep s.world e.connection e.fd
      → Response mem sock parser ep efd m listen works serves e.actor now address s
          e.connection.address
  request_answered s now address before after e h split at =
      let (b, a) =
        All-split (λ z. z.actor < s.world.server.actor_count) before (e ∷ after)
          (subst (IsAssigned s.world.server.actor_count) split h.assigned) in
      let x = e.connection.address in
      rounds mem sock parser ep efd m listen works serves e.actor now address
        (suc (sum_of (wait_weight e.actor anywhere) s.entries)) s x h a.0 (omega arith)
        (omega (
          arith,
          queued_waits sock ep efd s.world e at,
          ap (sum_of (wait_weight e.actor (at_address x))) split,
          sum_of-middle (wait_weight e.actor (at_address x)) before e after,
        ))
