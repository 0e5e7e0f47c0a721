-- ===== src/Lifecycle/Full.antt =====
-- The hand-over of a request to an actor whose queue is full.
use jullop.Base.{ℕ, ◌≡◌, refl, arith, false, some, ◌==◌, exit_failure}
use jullop.Kernel.{Epoll, EventFd, Interest}
use jullop.RequestStats.{queue_time}
use jullop.RequestStats.Running.{Running, record_start_runs}
use jullop.MrmwQueue.Refine.{queue_push-full}
use jullop.RequestContext.{RequestContext}
use jullop.Server.{World, Connection, SocketContext, Env}
use jullop.Client.{send_to_actor, after_read}
use jullop.InputBuffer.{read_finish}
use jullop.Lifecycle.{total_runs, holding}
use jullop.Lifecycle.Close.{delete_known}
use jullop.Lifecycle.Send.{CanPush, IsFull}

module _ (ep : Epoll) (efd : EventFd) where
  -- Where the pthread calls succeed and the queue of the actor whose turn it is holds as many requests
  -- as it can, a connection whose request is complete ends the process.
  pub send_full :
      {S : Type 0} (env : Env) (w : World ep.State efd.State) (c : Connection S)
      (r : RequestContext) (k : SocketContext) (x : Interest × ℕ)
      → Running r.time_stats total_runs
      → ep.registered w.epoll.epoll r.fd ≡ some x
      → (ready : CanPush ep efd w env.mutex) → IsFull ep efd ready
      → after_read ep efd env read_finish w (holding c (some r) (some k)) ≡ exit_failure
  unfolding after_read send_to_actor
  send_full env w c r k x timers known ready full =
      let (t, g, _) = delete_known ep w.epoll r.fd x known in
      let (timed, e, _) =
        record_start_runs r.time_stats total_runs queue_time (env.now 2) timers refl in
      let some_actors : (w.server.actor_count == 0) ≡ false = ground (arith, ready.some_actor) in
      rw
        (
          g,
          some_actors,
          ready.at.actor_at,
          ready.at.queue_at,
          e,
          queue_push-full efd env.mutex ready.at.queue c.address ready.works
              (omega (arith, ready.at.holds.counted, full)),
        )
        refl
