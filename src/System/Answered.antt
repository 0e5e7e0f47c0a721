-- ===== src/System/Answered.antt =====
-- The server after an actor has answered a request.
use mathlib.Core.Path.{subst}
use jullop.Base.{
  ℕ, ◌+◌, ◌-◌, ◌*◌, ◌<◌, ◌≡◌, ◌≢◌, refl, sym, ◌∙◌, ap, arith, Bool, true, List, ◌∷◌, ◌++◌, length,
  done, ℕ_discrete, length-append,
}
use jullop.Kernel.{Socket, Memory, Epoll, EventFd}
use jullop.OutputBuffer.Appending as Output
use jullop.RequestStats.{Timespec}
use jullop.MrmwQueue.{Mutex}
use jullop.MrmwQueue.Refine.{Works}
use jullop.Server.{World, Connection}
use jullop.Actor.{answer_request}
use jullop.Lifecycle.{writing, queued, InPhase, IsWriting, stream_bound}
use jullop.Lifecycle.Answer.{answer_request_lem}
use jullop.System.{Entry, State, wait_weight, update, is_one, env_at}
use jullop.System.Sums.{sum_of, sum_of-middle}
use jullop.System.Queues.{HasQueue, HasQueue-same, occurrences}
use jullop.System.Invariant.{
  IsAssigned, replaced-IsAssigned, IsOrderly, IsSystem, InPhase-same, wait-queued, wait-not_queued,
}
use jullop.System.Orderly.{same-IsOrderly, replaced-IsOrderly}
use jullop.System.Phases.{writing-closed, writing-queued}
use jullop.System.Actors.{operated_queue, update_at, update_other}
use jullop.System.Answers.{Popped, its_queue, popped, is_queued}

module _ (sock : Socket) (ep : Epoll) (efd : EventFd) (listen : ℕ)
    (s : State ep.State efd.State sock.State) (h : IsSystem sock ep efd listen s) (m : Mutex)
    (works : Works m) (i : ℕ) (small : i < s.world.server.actor_count) (some_left : 0 < s.left i)
    (before after : List (Entry sock.State)) (e : Entry sock.State)
    (split : s.entries ≡ before ++ (e ∷ after))
    (address_is : e.connection.address
      ≡ (popped sock ep efd listen s h m works i small some_left).x) where
  abbrev pop :
      Popped efd s.world m i
        (its_queue sock ep efd listen s h m works i small some_left).items
        (its_queue sock ep efd listen s h m works i small some_left).at.queue
  pop = popped sock ep efd listen s h m works i small some_left

  abbrev before_pop : HasQueue efd s.world.server.app_actors s.world.epoll.id (s.left i) s.entries i
  before_pop = its_queue sock ep efd listen s h m works i small some_left

  its_phase : InPhase sock ep queued s.world e.connection e.fd × (e.actor ≡ i)
  its_phase =
      is_queued sock ep efd listen s h m works i small some_left before after e split address_is

  -- Whose requests wait, besides the one that was taken.
  its_weight : (test : ℕ → Bool) → wait_weight i test e ≡ is_one (test pop.x)
  its_weight test =
      ground (arith, wait-queued sock ep efd s.world e i test its_phase.0, its_phase.1, address_is)

  other_weights : (j : ℕ) (test : ℕ → Bool) → j ≢ i → wait_weight j test e ≡ 0
  other_weights j test apart =
      ground (arith, wait-queued sock ep efd s.world e j test its_phase.0, its_phase.1)

  module _ (e' : Entry sock.State)
      (light : (j : ℕ) (test : ℕ → Bool) → wait_weight j test e' ≡ 0) where
    abbrev entries_after : List (Entry sock.State)
    entries_after = before ++ (e' ∷ after)

    waits_after :
        (j : ℕ) (test : ℕ → Bool) (n : ℕ)
        → wait_weight j test e ≡ n
        → n + sum_of (wait_weight j test) entries_after ≡ sum_of (wait_weight j test) s.entries
    waits_after j test n weighs = omega (
      arith,
      weighs,
      light j test,
      sum_of-middle (wait_weight j test) before e' after,
      sum_of-middle (wait_weight j test) before e after,
      ap (sum_of (wait_weight j test)) split,
    )

    own_queue :
        HasQueue efd pop.world.server.app_actors pop.world.epoll.id (s.left i - 1) entries_after i
    own_queue =
        operated_queue sock ep efd listen s h i (s.left i - 1) pop.queue pop.world pop.xs pop.op
          pop.holds
          (omega (
            arith,
            ap efd.value pop.same_event,
            before_pop.counted,
            ap length pop.items_are,
            some_left,
          ))
          (omega (arith, pop.same_size, before_pop.sized)) entries_after
          (λ test. omega (
            arith,
            before_pop.waits test,
            ap (occurrences test) pop.items_are,
            waits_after i test (is_one (test pop.x)) (its_weight test),
          ))

    queues_after :
        (j : ℕ)
        → j < s.world.server.actor_count
        → HasQueue efd pop.world.server.app_actors pop.world.epoll.id
            (update s.left i (s.left i - 1) j)
            entries_after
            j
    queues_after j below = elim (ℕ_discrete j i) [
      | yes same ↦
          subst
            (λ k.
              HasQueue efd pop.world.server.app_actors pop.world.epoll.id
                (update s.left i (s.left i - 1) k) entries_after k)
            (sym same)
            (subst
              (λ n. HasQueue efd pop.world.server.app_actors pop.world.epoll.id n entries_after i)
              (sym (update_at s.left i (s.left i - 1))) own_queue)
      | no apart ↦
          subst (λ n. HasQueue efd pop.world.server.app_actors pop.world.epoll.id n entries_after j)
            (sym (update_other s.left i (s.left i - 1) j apart))
            (subst (λ k. HasQueue efd pop.world.server.app_actors k (s.left j) entries_after j)
              (sym (ap (λ z. z.id) pop.op.same_epoll))
              (HasQueue-same efd s.world.server.app_actors pop.world.server.app_actors
                s.world.epoll.id (s.left j) s.entries entries_after j (pop.op.others j apart)
                (λ test. omega (arith, waits_after j test 0 (other_weights j test apart)))
                (h.queues j below)))
    ]

  -- What the actor's answer leaves.
  pub record AfterAnswer (mem : Memory) (now : ℕ → Timespec) (address : ℕ) : Type 0 where
    pub world : World ep.State efd.State
    pub connection : Connection sock.State
    pub runs :
        answer_request mem ep (env_at m now) 2 true address i pop.world e.connection
        ≡ done (world, connection)
    pub same_count : world.server.actor_count ≡ s.world.server.actor_count
    pub same_address : connection.address ≡ pop.x
    pub others_wait :
        (test : ℕ → Bool)
        → sum_of (wait_weight i test) s.entries
          ≡ is_one (test pop.x)
            + sum_of (wait_weight i test) (before ++ (record e { connection = connection } ∷ after))
    pub at : IsWriting sock ep world connection e.fd
    pub some_response : 0 < at.request.output_buffer.write_into_offset
    pub in_order : IsSystem sock ep efd listen (record s {
      world = world;
      entries = before ++ (record e { connection = connection } ∷ after);
      left = update s.left i (s.left i - 1);
    })

  pub answered :
      (mem : Memory) (now : ℕ → Timespec) (address : ℕ)
      → Output.Serves mem (8 * stream_bound + 1)
      → AfterAnswer mem now address
  answered mem now address serves =
      let same_epoll = pop.op.same_epoll in
      let at =
        InPhase-same sock ep efd queued s.world pop.world e.connection e.fd
          (ap (λ z. ep.registered z.epoll e.fd) same_epoll) its_phase.0 in
      let five : length pop.world.server.server_stats.avg_micros ≡ 5 =
        ap (λ z. length z.avg_micros) pop.op.same_stats ∙ h.five in
      let (w', c', runs, writes, more, leaves, same_server, same_address) =
        answer_request_lem mem sock ep efd (env_at m now) address i pop.world e.connection e.fd
          serves at five in
      let e' : Entry sock.State = record e { connection = c' } in
      let light = λ (j : ℕ) (test : ℕ → Bool).
        wait-not_queued sock ep efd writing w' e' j test writing-closed writing-queued writes in
      let orderly =
        replaced-IsOrderly sock ep efd listen pop.world w' before after e
          (same-IsOrderly sock ep efd listen s.world pop.world (before ++ (e ∷ after)) same_epoll
            (subst (IsOrderly sock ep efd listen s.world) split h.orderly))
          leaves.others e' refl same_address (writing, writing-closed, writes) in
      record {
        world = w';
        connection = c';
        runs = runs;
        same_count = ap (λ z. z.actor_count) same_server ∙ pop.op.same_count;
        same_address = same_address ∙ address_is;
        others_wait =
            λ test. sym (waits_after e' light i test (is_one (test pop.x)) (its_weight test));
        at = writes;
        some_response = more;
        in_order = record {
          five = leaves.five;
          some_actor =
              omega (arith, ap (λ z. z.actor_count) same_server, pop.op.same_count, h.some_actor);
          active = omega (
            arith,
            leaves.active_is,
            ap (λ z. z.active_connections) pop.op.same_stats,
            h.active,
            ap length split,
            length-append before (e ∷ after),
            length-append before (e' ∷ after),
          );
          orderly = orderly;
          assigned =
              replaced-IsAssigned (ap (λ z. z.actor_count) same_server ∙ pop.op.same_count) before
                after e e' (subst (IsAssigned s.world.server.actor_count) split h.assigned)
                (omega (arith, its_phase.1, small));
          queues = λ j below.
              subst
                (λ z.
                  HasQueue efd z w'.epoll.id (update s.left i (s.left i - 1) j)
                    (before ++ (e' ∷ after)) j)
                (sym (ap (λ z. z.app_actors) same_server))
                (subst
                  (λ z.
                    HasQueue efd pop.world.server.app_actors z (update s.left i (s.left i - 1) j)
                      (before ++ (e' ∷ after)) j)
                  (sym leaves.same_worker)
                  (queues_after e' light j (
                    omega (arith, below, ap (λ z. z.actor_count) same_server, pop.op.same_count))));
        };
      }
