-- ===== src/Lifecycle/Reset.antt =====
-- `client_reset_connection`, between two requests of a connection.
use jullop.Base.{ℕ, ◌≡◌, refl, arith, false, true, length, none, some, add_size, done}
use jullop.Kernel.{Socket, Epoll, EventFd, input_events, output_events}
use jullop.InputBuffer.{input_buffer_reset}
use jullop.OutputBuffer.{output_buffer_reset}
use jullop.RequestStats.{total_time}
use jullop.RequestStats.Refine.{update}
use jullop.RequestStats.Running.{Running-same, record_start_runs, record_end_runs, clear_time_runs}
use jullop.ServerStats.{server_stats_incr_total_requests}
use jullop.ServerStats.Totals.{recorded, record_request_lem}
use jullop.EpollInfo.{mod_input_epoll_event}
use jullop.RequestContext.{RequestContext, RequestResult, context_finalize_reset}
use jullop.Server.{World, Connection, Env, client_read, client_write}
use jullop.Client.{client_reset_connection}
use jullop.Lifecycle.{total_runs, IsSound, handlers, holding, IsReading, Leaves}

only_total : (i : ℕ) → update (λ j. false) 0 true i ≡ total_runs i
only_total i = ground arith

module _ (sock : Socket) (ep : Epoll) (efd : EventFd) (env : Env) where
  -- A connection whose response is written waits for the next request: its buffers are empty, only
  -- TOTAL_TIME runs, and its descriptor is registered for input.
  pub reset_lem :
      (result : RequestResult) (w : World ep.State efd.State) (c : Connection sock.State)
      (r : RequestContext)
      → IsSound sock r c.peer total_runs
      → ep.registered w.epoll.epoll r.fd ≡ some (output_events, c.context_address)
      → length w.server.server_stats.avg_micros ≡ 5
      → (w' : World ep.State efd.State) × (c' : Connection sock.State) × (client_reset_connection ep
            efd env result w
            (holding c (some r) (some (handlers none (some client_write))))
          ≡ done (w', c'))
        × (c'.peer ≡ c.peer)
        × IsReading sock ep w' c' r.fd
        × Leaves ep r.fd w w' w.server.server_stats.active_connections
            (add_size w.server.server_stats.total_requests_processed 1)
        × (c'.address ≡ c.address)
        × (w'.server.app_actors ≡ w.server.app_actors)
  unfolding client_reset_connection context_finalize_reset server_stats_incr_total_requests
      mod_input_epoll_event input_buffer_reset output_buffer_reset
  reset_lem result w c r h known five =
      let (timed, e, run) =
        record_end_runs r.time_stats total_runs total_time (env.now 2) h.timers refl in
      let counted = server_stats_incr_total_requests w.server.server_stats in
      let (f, five') = record_request_lem counted timed five run.totals in
      let fresh = context_finalize_reset (record r { time_stats = timed }) result in
      let (started, g, run') =
        record_start_runs fresh.time_stats (λ j. false) total_time (env.now 3)
          (clear_time_runs timed) refl in
      let r' : RequestContext = record fresh { time_stats = started } in
      let (t, d) = ep.mod_known w.epoll.epoll r.fd (input_events, c.context_address) _ known in
      let (_, listed, others) =
        ep.mod_sets w.epoll.epoll t r.fd (input_events, c.context_address) d in
      (
        record w {
          server = record (w.server) { server_stats = recorded counted timed };
          epoll = record (w.epoll) { epoll = t };
        },
        holding c (some r') (some (handlers (some client_read) none)),
        rw (e, f, g, d) refl,
        refl,
        record {
          request = r';
          shape = refl;
          on_fd = refl;
          listed = listed;
          sound = record {
            input_valid = record {
              sized = h.input_valid.sized;
              filled = omega arith;
              not_empty = h.input_valid.not_empty;
            };
            input_small = h.input_small;
            stream = omega (arith, h.stream);
            output_valid = record {
              sized = h.output_valid.sized;
              within = omega arith;
              in_order = omega arith;
              small = h.output_valid.small;
            };
            output_small = h.output_small;
            path_small = h.path_small;
            timers = Running-same started _ total_runs run' only_total;
          };
          no_output = refl;
        },
        record {
          five = five';
          active_is = refl;
          total_is = refl;
          others = others;
          same_worker = refl;
          same_count = refl;
        },
        refl,
        refl,
      )
