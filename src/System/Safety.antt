-- ===== src/System/Safety.antt =====
-- What holds of the server in every reachable state.
use mathlib.Core.Path.{subst}
use jullop.Base.{
  ℕ, ◌+◌, ◌-◌, ◌*◌, ◌^◌, ◌<◌, ◌≡◌, ◌≢◌, refl, sym, ◌∙◌, ap, arith, [], ◌∷◌, ◌++◌, length, none,
  done, true,
}
use jullop.Kernel.{Socket, Memory, Epoll, EventFd}
use jullop.OutputBuffer.Appending as Output
use jullop.MrmwQueue.{Mutex}
use jullop.MrmwQueue.Refine.{Works}
use jullop.HttpRequest.{Parser}
use jullop.Actor.{answer_request}
use jullop.Lifecycle.{stream_bound}
use jullop.Lifecycle.Send.{QueueAt}
use jullop.System.{
  State, update, env_at, Step, accepts, handles, wakes, answers, gives_up, Reach, here, then_step,
}
use jullop.System.Invariant.{IsSystem}
use jullop.System.Turns.{handles-IsSystem}
use jullop.System.Phases.{done-injective}
use jullop.System.Accepts.{accepts-IsSystem}
use jullop.System.Actors.{wakes-IsSystem}
use jullop.System.Answers.{popped, gives_up-never}
use jullop.System.Answered.{answered}

-- The server before its first connection: the actors' queues are empty, nothing is counted, and the
-- worker has registered no more than the listening socket.
pub record Starts (sock : Socket) (ep : Epoll) (efd : EventFd) (listen : ℕ)
    (s : State ep.State efd.State sock.State) : Type 0 where
  pub no_entries : s.entries ≡ []
  pub five : length s.world.server.server_stats.avg_micros ≡ 5
  pub some_actor : 0 < s.world.server.actor_count
  pub no_connections : s.world.server.server_stats.active_connections ≡ 0
  pub only_listen : (fd : ℕ) → fd ≢ listen → ep.registered s.world.epoll.epoll fd ≡ none
  pub idle : (i : ℕ) → s.left i ≡ 0
  pub empty :
      (i : ℕ)
      → i < s.world.server.actor_count
      → (at : QueueAt efd.State s.world.server.app_actors i s.world.epoll.id []) × (efd.value
            at.queue.add_event
          ≡ 0)
        × (at.queue.max_size < 2 ^ 32)

Starts-IsSystem :
    (sock : Socket) (ep : Epoll) (efd : EventFd) (listen : ℕ)
    (s : State ep.State efd.State sock.State)
    → Starts sock ep efd listen s
    → IsSystem sock ep efd listen s
Starts-IsSystem sock ep efd listen s h =
    subst (λ l. IsSystem sock ep efd listen (record s { entries = l })) (sym h.no_entries)
      (record {
        five = h.five;
        some_actor = h.some_actor;
        active = h.no_connections;
        orderly = record {
          each = tt;
          own_fd = λ fd. omega arith;
          own_address = λ x. omega arith;
          not_null = refl;
          not_listen = refl;
          unlisted = λ fd ne light. h.only_listen fd ne;
        };
        assigned = tt;
        queues = λ i small. record {
          items = [];
          at = (h.empty i small).0;
          counted = omega (arith, (h.empty i small).1, h.idle i);
          sized = (h.empty i small).2;
          waits = λ test. refl;
        };
      })

module _ (mem : Memory) (sock : Socket) (parser : Parser) (ep : Epoll) (efd : EventFd) (m : Mutex)
    (listen : ℕ) (works : Works m) (serves : Output.Serves mem (8 * stream_bound + 1)) where
  pub Step-IsSystem :
      (s t : State ep.State efd.State sock.State)
      → IsSystem sock ep efd listen s
      → Step mem sock parser ep efd m listen s t
      → IsSystem sock ep efd listen t
  Step-IsSystem s _ h (accepts a w c well other_fd new_fd some_address new_address ran) =
      accepts-IsSystem mem sock ep efd listen s h a w c (serves 1024 (omega arith)) well other_fd
        new_fd some_address new_address ran
  Step-IsSystem s _ h (handles before after e events interest now w c split known inside ran) =
      handles-IsSystem sock ep efd listen s h mem parser m works
        (λ n small. serves n (omega (arith, small))) before after e events interest now w c split
        known inside ran
  Step-IsSystem s _ h (wakes i n w small idle ran) =
      wakes-IsSystem sock ep efd listen s h i n w small idle ran
  Step-IsSystem s _ h (gives_up i w small some_left ran) =
      absurd (gives_up-never sock ep efd listen s h m works i small some_left w ran)
  Step-IsSystem s _ h
        (answers i x address before after e now w w' c small some_left popping ne split is_x ran) =
      let p = popped sock ep efd listen s h m works i small some_left in
      let same = done-injective (p.x, p.world) (x, w) (sym p.runs ∙ popping) in
      let d =
        answered sock ep efd listen s h m works i small some_left before after e split
          (is_x ∙ sym (ap (λ z. z.0) same)) mem now address serves in
      let again : answer_request mem ep (env_at m now) 2 true address i w e.connection
          ≡ done (d.world, d.connection) =
        subst
          (λ z.
            answer_request mem ep (env_at m now) 2 true address i z e.connection
            ≡ done (d.world, d.connection))
          (ap (λ z. z.1) same) d.runs in
      subst
        (λ z. IsSystem sock ep efd listen (record s {
          world = z.0;
          entries = before ++ (record e { connection = z.1 } ∷ after);
          left = update s.left i (s.left i - 1);
        }))
        (done-injective (d.world, d.connection) (w', c) (sym again ∙ ran)) d.in_order

  -- Every state that the server reaches from its start is in order, with memory and pthread calls that
  -- succeed, whatever the clients send and however the steps of the IO worker and of the actors are
  -- interleaved: the counter of active connections is, modulo 2 ^ 64, the number of those that are
  -- open; each is in a phase, on a descriptor and at an address of its own; no other descriptor is
  -- registered but the listening socket's; and each actor's queue holds the requests that wait for it,
  -- and its event descriptor's counter with the rounds that the actor has left is their number.
  pub Reach-IsSystem :
      (s t : State ep.State efd.State sock.State)
      → Starts sock ep efd listen s
      → Reach mem sock parser ep efd m listen s t
      → IsSystem sock ep efd listen t
  Reach-IsSystem s _ h here = Starts-IsSystem sock ep efd listen s h
  Reach-IsSystem s u h (then_step {t} before last) =
      Step-IsSystem t u (Reach-IsSystem s t h before) last
