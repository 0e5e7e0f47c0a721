-- ===== src/Lifecycle/Send.antt =====
-- The hand-over of a request to an actor, at the end of `client_handle_read`.
use mathlib.Core.Path.{subst}
use jullop.Base.{
  ℕ, ◌+◌, ◌-◌, ◌%◌, ◌^◌, ◌<◌, ◌≡◌, refl, ◌∙◌, arith, ap, false, true, List, [], ◌∷◌, ◌++◌, length,
  none, some, ◌==◌, set, load, add_size, done, load_in_range, store_inside, load-set,
  load-set_other, length-append, ◌≢◌,
}
use jullop.Kernel.{Epoll, EventFd, Interest}
use jullop.Ring.Api.{success, result_of}
use jullop.Ring.Fifo
use jullop.RequestStats.{PerRequestStats, queue_time}
use jullop.RequestStats.Running.{Running, record_start_runs}
use jullop.MrmwQueue.{Queue, queue_push, Mutex}
use jullop.MrmwQueue.Invariant.{Represents}
use jullop.MrmwQueue.Refine.{Works, queue_push_refines}
use jullop.RequestContext.{RequestContext}
use jullop.Server.{World, Connection, SocketContext, Env, ActorInfo}
use jullop.Client.{send_to_actor}
use jullop.Lifecycle.{Phase, queued, total_runs, queue_runs, holding, Leaves}
use jullop.Lifecycle.Close.{delete_known}

-- The queue of an actor for a worker, and what is in it.
pub record QueueAt (Q : Type 0) (actors : List (ActorInfo Q)) (actor worker : ℕ) (items : List ℕ)
    : Type 0 where
  pub info : ActorInfo Q
  pub queue : Queue Q
  pub actor_at : load actors actor ≡ done info
  pub queue_at : load info.input_queue worker ≡ done queue
  pub holds : Represents queue items

push_room :
    (size x : ℕ) (items : List ℕ)
    → length items < size
    → Fifo.push size items x ≡ (true, items ++ x ∷ [])
unfolding Fifo.push
push_room size x items h = ground arith

module _ (ep : Epoll) (efd : EventFd) where
  -- The pthread calls succeed, there is an actor, and the actor whose turn it is has a queue for this
  -- worker, whose event descriptor can count one more.
  pub record CanPush (w : World ep.State efd.State) (m : Mutex) : Type 0 where
    pub works : Works m
    pub some_actor : 0 < w.server.actor_count
    pub items : List ℕ
    pub at : QueueAt efd.State w.server.app_actors (w.count % w.server.actor_count) w.epoll.id items
    pub quiet : efd.value at.queue.add_event + 1 < 2 ^ 64 - 1

  abbrev pub IsFull : {w : World ep.State efd.State} {m : Mutex} → CanPush w m → Type 0
  IsFull ready = length ready.items ≡ ready.at.queue.max_size

  -- The request with this address is behind the others in the queue of the actor whose turn it was,
  -- which has counted it; the other actors are as they were.
  pub record Handed (w w' : World ep.State efd.State) (m : Mutex) (ready : CanPush w m)
      (address : ℕ) : Type 0 where
    pub at :
        QueueAt efd.State w'.server.app_actors
          (w.count % w.server.actor_count)
          w.epoll.id
          (ready.items ++ address ∷ [])
    pub same_size : at.queue.max_size ≡ ready.at.queue.max_size
    pub counts : efd.value at.queue.add_event ≡ efd.value ready.at.queue.add_event + 1
    pub others :
        (i : ℕ)
        → i ≢ w.count % w.server.actor_count
        → load w'.server.app_actors i ≡ load w.server.app_actors i

  -- What a handler that brings a connection into a phase does to the actors.
  abbrev pub ActorsAfter :
      Phase → (w w' : World ep.State efd.State) (m : Mutex) → CanPush w m → ℕ → Type 0
  ActorsAfter queued w w' m ready address = Handed w w' m ready address
  ActorsAfter _ w w' m ready address = w'.server.app_actors ≡ w.server.app_actors

  -- With room in the queue, the hand-over deletes the descriptor from the interest list before the
  -- request is pushed, frees the socket context, and leaves the request behind the others in the queue
  -- of the actor whose turn it is.
  pub send_lem :
      {S : Type 0} (env : Env) (w : World ep.State efd.State) (c : Connection S)
      (r : RequestContext) (k : SocketContext) (x : Interest × ℕ)
      → Running r.time_stats total_runs
      → ep.registered w.epoll.epoll r.fd ≡ some x
      → length w.server.server_stats.avg_micros ≡ 5
      → (ready : CanPush w env.mutex) → length ready.items < ready.at.queue.max_size
      → (w' : World ep.State efd.State) × (timed : PerRequestStats) × (send_to_actor ep efd env w
            (holding c (some r) (some k))
          ≡ done (w', holding c (some (record r { time_stats = timed })) none))
        × (ep.registered w'.epoll.epoll r.fd ≡ none)
        × Running timed queue_runs
        × Handed w w' env.mutex ready c.address
        × Leaves ep r.fd w w' w.server.server_stats.active_connections
            w.server.server_stats.total_requests_processed
  unfolding send_to_actor
  send_lem env w c r k x timers known five ready room =
      let id = w.count % w.server.actor_count in
      let turn : id < w.server.actor_count = grind (arith, ready.some_actor) in
      let items = ready.items in
      let at = ready.at in
      let (t, g, d) = delete_known ep w.epoll r.fd x known in
      let (_, gone, others) = ep.del_clears w.epoll.epoll t r.fd d in
      let (timed, e, run) =
        record_start_runs r.time_stats total_runs queue_time (env.now 2) timers refl in
      let (q', p, rep, same_size, counts) =
        queue_push_refines efd env.mutex at.queue items c.address ready.works at.holds
          ready.quiet in
      let fits = push_room at.queue.max_size c.address items room in
      let pushed : queue_push efd env.mutex at.queue c.address ≡ done (success, q') =
        p ∙ ap (λ z. done (result_of z.0, q')) fits in
      let stands : Represents q' (items ++ c.address ∷ []) =
        subst (λ z. Represents q' z.1) fits rep in
      let in_actors = load_in_range w.server.app_actors id at.info at.actor_at in
      let in_queues = load_in_range at.info.input_queue w.epoll.id at.queue at.queue_at in
      let info' = record (at.info) { input_queue = set at.info.input_queue w.epoll.id q' } in
      let some_actors : (w.server.actor_count == 0) ≡ false = ground (arith, ready.some_actor) in
      (
        record w {
          server = record (w.server) { app_actors = set w.server.app_actors id info' };
          epoll = record (w.epoll) { epoll = t };
          count = add_size w.count 1;
        },
        timed,
        rw
            (
              g,
              some_actors,
              at.actor_at,
              at.queue_at,
              e,
              pushed,
              store_inside at.info.input_queue w.epoll.id q' in_queues,
              store_inside w.server.app_actors id info' in_actors,
            )
            refl,
        gone,
        run,
        record {
          at = record {
            info = info';
            queue = q';
            actor_at = load-set w.server.app_actors id info' in_actors;
            queue_at = load-set at.info.input_queue w.epoll.id q' in_queues;
            holds = stands;
          };
          same_size = same_size;
          counts =
              omega
                (arith, counts, ap (λ z. length z.1) fits, length-append items (c.address ∷ []));
          others = λ i ne. load-set_other w.server.app_actors id i info' ne;
        },
        record {
          five = five;
          active_is = refl;
          total_is = refl;
          others = others;
          same_worker = refl;
          same_count = refl;
        },
      )
