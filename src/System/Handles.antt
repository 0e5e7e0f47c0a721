-- ===== src/System/Handles.antt =====
-- A turn of the worker's event loop keeps the server in order.
use mathlib.Core.Path.{subst}
use jullop.Base.{
  ℕ, ◌-◌, ◌+◌, ◌%◌, ◌^◌, ◌<◌, ◌≡◌, ◌≢◌, refl, sym, ◌∙◌, ap, arith, Bool, List, [], ◌∷◌, ◌++◌,
  length, ◌==◌, if◌then◌else◌, length-append, sub_size,
}
use jullop.Kernel.{Socket, Memory, Epoll, EventFd}
use jullop.RequestStats.{Timespec}
use jullop.MrmwQueue.{Mutex}
use jullop.MrmwQueue.Refine.{Works}
use jullop.HttpRequest.{Parser}
use jullop.Server.{World, Connection}
use jullop.IoWorker.{Events}
use jullop.Lifecycle.{Phase, reading, queued, writing, closed, InPhase, active_after}
use jullop.Lifecycle.Send.{ActorsAfter}
use jullop.Lifecycle.Turn.{TurnDone}
use jullop.System.{Entry, State, env_at, wait_weight, kept, is_one}
use jullop.System.Phases.{
  queued-closed, reading-closed, reading-queued, writing-closed, writing-queued,
}
use jullop.System.Sums.{sum_of, sum_of-middle, sum_of-removed}
use jullop.System.Queues.{HasQueue}
use jullop.System.Invariant.{
  IsAssigned, replaced-IsAssigned, removed-IsAssigned, IsOrderly, IsSystem, wait-queued,
  wait-not_queued, kept-open, kept-closed,
}
use jullop.System.Handed.{queues_same, ready, queues_handed}
use jullop.System.Orderly.{replaced-IsOrderly, removed-IsOrderly}

own_weight : (i n : ℕ) → (if i == i then n else 0) ≡ n
own_weight i n = ground arith

other_weight : (i j n : ℕ) → j ≢ i → (if i == j then n else 0) ≡ 0
other_weight i j n ne = ground arith

module _ (mem : Memory) (sock : Socket) (parser : Parser) (ep : Epoll) (efd : EventFd) (m : Mutex)
    (listen : ℕ) (works : Works m) (s : State ep.State efd.State sock.State)
    (h : IsSystem sock ep efd listen s)
    (hq : HasQueue efd s.world.server.app_actors s.world.epoll.id
      (s.left (s.world.count % s.world.server.actor_count))
      s.entries
      (s.world.count % s.world.server.actor_count))
    (quiet : efd.value hq.at.queue.add_event + 1 < 2 ^ 64 - 1)
    (before after : List (Entry sock.State)) (e : Entry sock.State)
    (split : s.entries ≡ before ++ (e ∷ after)) where
  abbrev actor_now : ℕ
  actor_now = s.world.count % s.world.server.actor_count

  -- The connection after the turn.
  abbrev next : Connection sock.State → Entry sock.State
  next c = record e { actor = actor_now; connection = c }

  abbrev after_turn :
      World ep.State efd.State → Connection sock.State → State ep.State efd.State sock.State
  after_turn w c = record s { world = w; entries = before ++ (kept (next c) ++ after) }

  abbrev Done : Events → (ℕ → Timespec) → Type 0
  Done events now =
      TurnDone mem sock parser ep efd (env_at m now) s.world e.connection e.fd events
        (ready sock ep efd listen s m works h hq quiet)

  split_world : IsOrderly sock ep efd listen s.world (before ++ (e ∷ after))
  split_world = subst (IsOrderly sock ep efd listen s.world) split h.orderly

  split_actors : IsAssigned s.world.server.actor_count (before ++ (e ∷ after))
  split_actors = subst (IsAssigned s.world.server.actor_count) split h.assigned

  -- The entries where the connection stays open.
  waits_replaced :
      (e' : Entry sock.State) (i : ℕ) (test : ℕ → Bool) (n : ℕ)
      → wait_weight i test e ≡ 0
      → wait_weight i test e' ≡ n
      → sum_of (wait_weight i test) (before ++ (e' ∷ after))
        ≡ n + sum_of (wait_weight i test) s.entries
  waits_replaced e' i test n idle now = omega (
    arith,
    idle,
    now,
    sum_of-middle (wait_weight i test) before e' after,
    sum_of-middle (wait_weight i test) before e after,
    ap (sum_of (wait_weight i test)) split,
  )

  waits_same :
      (e' : Entry sock.State) (i : ℕ) (test : ℕ → Bool)
      → wait_weight i test e ≡ 0
      → wait_weight i test e' ≡ 0
      → sum_of (wait_weight i test) (before ++ (e' ∷ after)) ≡ sum_of (wait_weight i test) s.entries
  waits_same e' i test idle now = omega (arith, waits_replaced e' i test 0 idle now)

  open_turn :
      (events : Events) (now : ℕ → Timespec) (d : Done events now)
      → ((i : ℕ) (test : ℕ → Bool) → wait_weight i test e ≡ 0)
      → d.phase ≢ closed
      → ((i : ℕ)
          → i < d.world.server.actor_count
          → HasQueue efd d.world.server.app_actors d.world.epoll.id
              (s.left i)
              (before ++ (next d.connection ∷ after))
              i)
      → d.world.server.server_stats.active_connections
        ≡ s.world.server.server_stats.active_connections
      → IsSystem sock ep efd listen (after_turn d.world d.connection)
  open_turn events now d idle ne queues active =
      let at = d.phase_is in
      let stays : kept (next d.connection) ≡ next d.connection ∷ [] =
        kept-open sock ep efd d.phase d.world (next d.connection) ne at in
      let entries = before ++ (next d.connection ∷ after) in
      let orderly =
        replaced-IsOrderly sock ep efd listen s.world d.world before after e split_world d.others
          (next d.connection) refl d.same_address (d.phase, ne, at) in
      subst
        (λ l.
          IsSystem sock ep efd listen
            (record s { world = d.world; entries = before ++ (l ++ after) }))
        (sym stays)
        (record {
          five = d.five;
          some_actor = omega (arith, d.same_count, h.some_actor);
          active = omega (
            arith,
            active,
            h.active,
            ap length split,
            length-append before (e ∷ after),
            length-append before (next d.connection ∷ after),
          );
          orderly = orderly;
          assigned =
              replaced-IsAssigned d.same_count before after e (next d.connection) split_actors
                (grind (arith, h.some_actor));
          queues = queues;
        })

  closed_turn :
      (events : Events) (now : ℕ → Timespec) (d : Done events now)
      → ((i : ℕ) (test : ℕ → Bool) → wait_weight i test e ≡ 0)
      → InPhase sock ep closed d.world d.connection e.fd
      → d.world.server.server_stats.active_connections
        ≡ sub_size s.world.server.server_stats.active_connections 1
      → d.world.server.app_actors ≡ s.world.server.app_actors
      → IsSystem sock ep efd listen (after_turn d.world d.connection)
  closed_turn events now d idle at active actors =
      let goes : kept (next d.connection) ≡ [] =
        kept-closed sock ep efd d.world (next d.connection) at in
      subst
        (λ l.
          IsSystem sock ep efd listen
            (record s { world = d.world; entries = before ++ (l ++ after) }))
        (sym goes)
        (record {
          five = d.five;
          some_actor = omega (arith, d.same_count, h.some_actor);
          active = omega (
            arith,
            active,
            h.active,
            ap length split,
            length-append before (e ∷ after),
            length-append before after,
          );
          assigned = removed-IsAssigned d.same_count before after e split_actors;
          orderly =
              removed-IsOrderly sock ep efd listen s.world d.world before after e split_world
                d.others at.unlisted;
          queues =
              queues_same sock ep efd listen s d.world (before ++ after) h actors d.same_worker
                d.same_count
                (λ i test. omega (
                  arith,
                  idle i test,
                  sum_of-removed (wait_weight i test) before e after,
                  ap (sum_of (wait_weight i test)) split,
                ));
        })

  -- The connection waits for events of its descriptor.
  waiting_turn :
      (events : Events) (now : ℕ → Timespec) (d : Done events now)
      → ((i : ℕ) (test : ℕ → Bool) → wait_weight i test e ≡ 0)
      → (p : Phase) → d.phase ≡ p
      → p ≢ closed
      → p ≢ queued
      → InPhase sock ep p d.world d.connection e.fd
      → d.world.server.server_stats.active_connections
        ≡ s.world.server.server_stats.active_connections
      → d.world.server.app_actors ≡ s.world.server.app_actors
      → IsSystem sock ep efd listen (after_turn d.world d.connection)
  waiting_turn events now d idle p is_p ne nq at active actors =
      let e' = next d.connection in
      open_turn events now d idle (λ z. ne (sym is_p ∙ z))
        (queues_same sock ep efd listen s d.world (before ++ (e' ∷ after)) h actors d.same_worker
          d.same_count
          (λ i test.
            waits_same e' i test (idle i test)
              (wait-not_queued sock ep efd p d.world e' i test ne nq at)))
        active

  queued_weight :
      (w : World ep.State efd.State) (c : Connection sock.State) (i : ℕ) (test : ℕ → Bool)
      → InPhase sock ep queued w c e.fd
      → c.address ≡ e.connection.address
      → wait_weight i test (next c)
        ≡ (if actor_now == i then is_one (test e.connection.address) else 0)
  queued_weight w c i test at same =
      wait-queued sock ep efd w (next c) i test at
      ∙ ap (λ z. if actor_now == i then is_one (test z) else 0) same

  -- The request is the actor's whose turn it was.
  queued_turn :
      (events : Events) (now : ℕ → Timespec) (d : Done events now)
      → ((i : ℕ) (test : ℕ → Bool) → wait_weight i test e ≡ 0)
      → d.phase ≡ queued
      → InPhase sock ep queued d.world d.connection e.fd
      → d.world.server.server_stats.active_connections
        ≡ s.world.server.server_stats.active_connections
      → ActorsAfter ep efd queued s.world d.world m
          (ready sock ep efd listen s m works h hq quiet)
          e.connection.address
      → IsSystem sock ep efd listen (after_turn d.world d.connection)
  queued_turn events now d idle is_queued at active handed =
      let e' = next d.connection in
      let weight =
        λ (i : ℕ) (test : ℕ → Bool). queued_weight d.world d.connection i test at d.same_address in
      open_turn events now d idle (λ z. queued-closed (sym is_queued ∙ z))
        (queues_handed sock ep efd listen s m works h hq quiet d.world (before ++ (e' ∷ after))
          e.connection.address handed d.same_worker d.same_count
          (λ test.
            waits_replaced e' actor_now test (is_one (test e.connection.address))
              (idle actor_now test) (weight actor_now test ∙ own_weight actor_now _))
          (λ i test apart.
            waits_same e' i test (idle i test) (weight i test ∙ other_weight actor_now i _ apart)))
        active

  -- A connection that waited for no actor, after the turn.
  pub turned :
      (events : Events) (now : ℕ → Timespec) (d : Done events now)
      → ((i : ℕ) (test : ℕ → Bool) → wait_weight i test e ≡ 0)
      → IsSystem sock ep efd listen (after_turn d.world d.connection)
  turned events now d idle = by_phase d.phase refl d.phase_is d.active d.actors
    where
      by_phase :
          (p : Phase)
          → d.phase ≡ p
          → InPhase sock ep p d.world d.connection e.fd
          → d.world.server.server_stats.active_connections
            ≡ active_after p s.world.server.server_stats.active_connections
          → ActorsAfter ep efd p s.world d.world m
              (ready sock ep efd listen s m works h hq quiet)
              e.connection.address
          → IsSystem sock ep efd listen (after_turn d.world d.connection)
      by_phase closed is_p at active actors = closed_turn events now d idle at active actors
      by_phase reading is_p at active actors =
          waiting_turn events now d idle reading is_p reading-closed reading-queued at active actors
      by_phase writing is_p at active actors =
          waiting_turn events now d idle writing is_p writing-closed writing-queued at active actors
      by_phase queued is_p at active actors = queued_turn events now d idle is_p at active actors
