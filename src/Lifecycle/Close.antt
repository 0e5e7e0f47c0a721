-- ===== src/Lifecycle/Close.antt =====
-- `client_close_connection`, which ends every connection.
use jullop.Base.{ℕ, ◌≡◌, refl, arith, false, length, none, some, add_size, sub_size, ◌!=◌, done}
use jullop.Kernel.{Epoll, EventFd, Interest}
use jullop.RequestStats.{total_time}
use jullop.RequestStats.Running.{Running, record_end_runs}
use jullop.ServerStats.{server_stats_incr_total_requests, server_stats_decr_active_requests}
use jullop.ServerStats.Totals.{recorded, record_request_lem}
use jullop.EpollInfo.{EpollInfo, delete_epoll_event}
use jullop.RequestContext.{RequestContext, RequestResult, context_finalize_destroy}
use jullop.Server.{World, Connection, SocketContext, Env}
use jullop.Client.{client_close_connection}
use jullop.Lifecycle.{total_runs, holding, Leaves}

module _ (ep : Epoll) where
  -- The registration of a descriptor is deleted.
  pub delete_known :
      (e : EpollInfo ep.State) (fd : ℕ) (x : Interest × ℕ)
      → ep.registered e.epoll fd ≡ some x
      → (t : ep.State) × (delete_epoll_event ep e fd ≡ done (record e { epoll = t }))
        × (ep.ctl_del e.epoll fd ≡ some t)
  unfolding delete_epoll_event
  delete_known e fd x known = let (t, d) = ep.del_known e.epoll fd x known in (t, rw d refl, d)

module _ (ep : Epoll) (efd : EventFd) {S : Type 0} (env : Env) where
  -- A connection whose two contexts are allocated, whose timer runs and whose descriptor is
  -- registered is closed: nothing exits or is freed twice, both contexts are freed, the descriptor is
  -- out of the interest list, and the counters say one connection less and one request more.
  pub close_lem :
      (result : RequestResult) (w : World ep.State efd.State) (c : Connection S)
      (r : RequestContext) (k : SocketContext) (x : Interest × ℕ)
      → Running r.time_stats total_runs
      → ep.registered w.epoll.epoll r.fd ≡ some x
      → length w.server.server_stats.avg_micros ≡ 5
      → env.closed ≡ 0
      → (w' : World ep.State efd.State) × (client_close_connection ep efd env result w
            (holding c (some r) (some k))
          ≡ done (w', holding c none none))
        × (ep.registered w'.epoll.epoll r.fd ≡ none)
        × Leaves ep r.fd w w'
            (sub_size w.server.server_stats.active_connections 1)
            (add_size w.server.server_stats.total_requests_processed 1)
        × (w'.server.app_actors ≡ w.server.app_actors)
  unfolding client_close_connection context_finalize_destroy server_stats_incr_total_requests
      server_stats_decr_active_requests
  close_lem result w c r k x timers known five zero =
      let (timed, e, run) =
        record_end_runs r.time_stats total_runs total_time (env.now 2) timers refl in
      let counted =
        server_stats_incr_total_requests
          (server_stats_decr_active_requests w.server.server_stats) in
      let (f, five') = record_request_lem counted timed five run.totals in
      let (t, g, d) = delete_known ep w.epoll r.fd x known in
      let (_, gone, others) = ep.del_clears w.epoll.epoll t r.fd d in
      let ok : (env.closed != 0) ≡ false = ground arith in
      (
        record w {
          server = record (w.server) { server_stats = recorded counted timed };
          epoll = record (w.epoll) { epoll = t };
        },
        rw (e, f, g, ok) refl,
        gone,
        record {
          five = five';
          active_is = refl;
          total_is = refl;
          others = others;
          same_worker = refl;
          same_count = refl;
        },
        refl,
      )
