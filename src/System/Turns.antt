-- ===== src/System/Turns.antt =====
-- The turns of the worker's event loop, from a server in order.
use mathlib.Core.Path.{subst}
use jullop.Base.{
  ℕ, ◌-◌, ◌+◌, ◌*◌, ◌%◌, ◌^◌, ◌<◌, ◌≡◌, refl, sym, ◌∙◌, arith, Bool, List, ◌∷◌, ◌++◌, some, inl,
  inr, ◌⊎◌, done,
}
use jullop.Kernel.{Socket, Memory, Epoll, EventFd, Interest}
use jullop.InputBuffer.Growth as Input
use jullop.RequestStats.{Timespec}
use jullop.MrmwQueue.{Mutex}
use jullop.MrmwQueue.Refine.{Works}
use jullop.HttpRequest.{Parser}
use jullop.Server.{World, Connection}
use jullop.IoWorker.{Events}
use jullop.Lifecycle.{reading, queued, writing, closed, stream_bound}
use jullop.Lifecycle.Dispatch.{Within}
use jullop.Lifecycle.Send.{CanPush}
use jullop.Lifecycle.Turn.{turn, TurnDone, TurnFull, turn_lem}
use jullop.System.{Entry, State, env_at, wait_weight, kept}
use jullop.System.Phases.{done-injective, not_exit, none-apart-some}
use jullop.System.Sums.{All-split}
use jullop.System.Queues.{HasQueue}
use jullop.System.Invariant.{IsOpen, IsOrderly, IsSystem, wait-not_queued}
use jullop.System.Handed.{ready}
use jullop.System.Handles.{turned}

module _ (sock : Socket) (ep : Epoll) (efd : EventFd) (listen : ℕ)
    (s : State ep.State efd.State sock.State) (h : IsSystem sock ep efd listen s) where
  abbrev actor_now : ℕ
  actor_now = s.world.count % s.world.server.actor_count

  pub current :
      HasQueue efd s.world.server.app_actors s.world.epoll.id (s.left actor_now) s.entries actor_now
  current = h.queues actor_now (grind (arith, h.some_actor))

  -- A queue's descriptor counts no more than the queue holds.
  pub quiet :
      {i : ℕ} (hq : HasQueue efd s.world.server.app_actors s.world.epoll.id (s.left i) s.entries i)
      → efd.value hq.at.queue.add_event + 1 < 2 ^ 64 - 1
  quiet hq = omega (arith, hq.counted, hq.sized, hq.at.holds.counted, hq.at.holds.bounded)

  -- The connection in the midst of the list.
  pub opened :
      (before after : List (Entry sock.State)) (e : Entry sock.State)
      → s.entries ≡ before ++ (e ∷ after)
      → IsOpen sock ep efd s.world e
  opened before after e split =
      let orderly = subst (IsOrderly sock ep efd listen s.world) split h.orderly in
      (All-split (IsOpen sock ep efd s.world) before (e ∷ after) orderly.each).1.0

  -- A connection that is registered waits for no actor.
  pub registered_idle :
      (e : Entry sock.State) (x : Interest × ℕ)
      → IsOpen sock ep efd s.world e
      → ep.registered s.world.epoll.epoll e.fd ≡ some x
      → (i : ℕ) (test : ℕ → Bool) → wait_weight i test e ≡ 0
  registered_idle e x (reading, ne, at) known i test =
      wait-not_queued sock ep efd reading s.world e i test ne (λ z. cc) at
  registered_idle e x (writing, ne, at) known i test =
      wait-not_queued sock ep efd writing s.world e i test ne (λ z. cc) at
  registered_idle e x (closed, ne, at) known i test = absurd (ne refl)
  registered_idle e x (queued, ne, at) known i test =
      absurd (none-apart-some x (sym at.unlisted ∙ known))

  module _ (mem : Memory) (parser : Parser) (m : Mutex) (works : Works m)
      (serves : Input.Serves mem (2 * stream_bound)) where
    abbrev pub can_push : CanPush ep efd s.world m
    can_push = ready sock ep efd listen s m works h current (quiet current)

    pub turn_taken :
        (before after : List (Entry sock.State)) (e : Entry sock.State) (events : Events)
        (interest : Interest) (now : ℕ → Timespec)
        → s.entries ≡ before ++ (e ∷ after)
        → ep.registered s.world.epoll.epoll e.fd ≡ some (interest, e.connection.context_address)
        → Within events interest
        → TurnDone mem sock parser ep efd (env_at m now) s.world e.connection e.fd events can_push
          ⊎ TurnFull mem sock parser ep efd (env_at m now) s.world e.connection events can_push
    turn_taken before after e events interest now split known inside =
        let (p, ne, at) = opened before after e split in
        turn_lem mem sock parser ep efd (env_at m now) s.world e.connection e.fd events interest p
          serves at known inside h.five can_push refl

    pub handles-IsSystem :
        (before after : List (Entry sock.State)) (e : Entry sock.State) (events : Events)
        (interest : Interest) (now : ℕ → Timespec) (w : World ep.State efd.State)
        (c : Connection sock.State)
        → s.entries ≡ before ++ (e ∷ after)
        → ep.registered s.world.epoll.epoll e.fd ≡ some (interest, e.connection.context_address)
        → Within events interest
        → turn mem sock parser ep efd (env_at m now) events (s.world, e.connection) ≡ done (w, c)
        → IsSystem sock ep efd listen (record s {
          world = w;
          entries = before ++ (kept (record e { actor = actor_now; connection = c }) ++ after);
        })
    handles-IsSystem before after e events interest now w c split known inside ran =
        let idle =
          registered_idle e (interest, e.connection.context_address) (opened before after e split)
            known in
        elim (turn_taken before after e events interest now split known inside) [
          | inr (full, exits) ↦ absurd (not_exit (w, c) (sym ran ∙ exits))
          | inl d ↦
              subst
                (λ z. IsSystem sock ep efd listen (record s {
                  world = z.0;
                  entries =
                      before ++ (kept (record e { actor = actor_now; connection = z.1 }) ++ after);
                }))
                (done-injective (d.world, d.connection) (w, c) (sym d.runs ∙ ran))
                (turned mem sock parser ep efd m listen works s h current (quiet current) before
                  after e split events now d idle)
        ]
