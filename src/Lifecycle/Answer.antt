-- ===== src/Lifecycle/Answer.antt =====
-- The actor's work on a request: from the queue to the response that waits to be written.
use mathlib.Core.Path.{subst}
use jullop.Base.{
  ℕ, ◌+◌, ◌*◌, ◌<◌, ◌≡◌, ◌≢◌, refl, sym, ◌∙◌, arith, ap, false, true, length, none, some, done,
}
use jullop.Kernel.{Socket, Memory, Epoll, EventFd, output_events}
use jullop.OutputBuffer.Appending as Output
use jullop.RequestStats.{actor_time, queue_time}
use jullop.RequestStats.Refine.{update}
use jullop.RequestStats.Running.{Running-same, record_start_runs, record_end_runs}
use jullop.EpollInfo.{add_output_epoll_event}
use jullop.RequestContext.{RequestContext}
use jullop.Server.{World, Connection, Env, client_write}
use jullop.Actor.{answer_request}
use jullop.Actor.Answer.{handle_request_total}
use jullop.Lifecycle.{
  total_runs, queue_runs, stream_bound, handlers, holding, IsQueued, IsWriting, Leaves,
}

-- QUEUE_TIME is ended, ACTOR_TIME started and ended.
answer_timed : (i : ℕ) → update (update (update queue_runs 4 false) 3 true) 3 false i ≡ total_runs i
answer_timed i = ground arith

module _ (mem : Memory) (sock : Socket) (ep : Epoll) (efd : EventFd) (env : Env) where
  -- An actor answers a request that it takes from its queue: with memory for the response, the body of
  -- its loop returns. The connection waits to write a response that is not empty, its descriptor is
  -- registered for output with the new socket context, the counters are as they were, and no other
  -- descriptor is touched.
  pub answer_request_lem :
      (address actor_id : ℕ) (w : World ep.State efd.State) (c : Connection sock.State) (fd : ℕ)
      → Output.Serves mem (8 * stream_bound + 1)
      → IsQueued sock ep w c fd
      → length w.server.server_stats.avg_micros ≡ 5
      → (w' : World ep.State efd.State) × (c' : Connection sock.State) × (answer_request mem ep env
            2 true address actor_id w c
          ≡ done (w', c'))
        × (at : IsWriting sock ep w' c' fd) × (0 < at.request.output_buffer.write_into_offset)
        × Leaves ep fd w w' w.server.server_stats.active_connections
            w.server.server_stats.total_requests_processed
        × (w'.server ≡ w.server)
        × (c'.address ≡ c.address)
  unfolding answer_request add_output_epoll_event
  answer_request_lem address actor_id w c fd serves h five =
      let r = h.request in
      let (t1, e1, run1) =
        record_end_runs r.time_stats queue_runs queue_time (env.now 0) h.sound.timers refl in
      let (t2, e2, run2) =
        record_start_runs t1 (update queue_runs 4 false) actor_time (env.now 1) run1 refl in
      let r2 : RequestContext = record r { actor_id = some actor_id; time_stats = t2 } in
      let (b, e3, valid, size, more) =
        handle_request_total mem (4 * stream_bound) (omega arith) serves r2 h.sound.output_valid
          (omega (arith, h.sound.output_small)) (omega (arith, h.sound.path_small))
          (omega (arith, h.sound.path_small, h.no_output)) in
      let (t3, e4, run3) =
        record_end_runs t2 (update (update queue_runs 4 false) 3 true) actor_time (env.now 2) run2
          refl in
      let r4 : RequestContext = record r2 { output_buffer = b; time_stats = t3 } in
      let absent : ep.registered w.epoll.epoll r.fd ≡ none =
        ap (ep.registered w.epoll.epoll) h.on_fd ∙ h.unlisted in
      let (t, d) = ep.add_new w.epoll.epoll r.fd (output_events, address) absent in
      let (_, listed, others) = ep.add_sets w.epoll.epoll t r.fd (output_events, address) d in
      let w' : World ep.State efd.State = record w { epoll = record (w.epoll) { epoll = t } } in
      let c' : Connection sock.State = record c {
        request = some r4;
        context_address = address;
        context = some (handlers none (some client_write));
      } in
      let run : answer_request mem ep env 2 true address actor_id w (holding c (some r) none)
          ≡ done (w', c') =
        rw (e1, e2, e3, e4, d) refl in
      (
        w',
        c',
        subst (λ k. answer_request mem ep env 2 true address actor_id w k ≡ done (w', c'))
            (sym h.shape) run,
        record {
          request = r4;
          shape = refl;
          on_fd = h.on_fd;
          listed = subst (λ k. ep.registered t k ≡ some (output_events, address)) h.on_fd listed;
          sound = record {
            input_valid = h.sound.input_valid;
            input_small = h.sound.input_small;
            stream = h.sound.stream;
            output_valid = valid;
            output_small = omega (arith, size);
            path_small = h.sound.path_small;
            timers = Running-same t3 _ total_runs run3 answer_timed;
          };
        },
        omega (arith, more),
        record {
          five = five;
          active_is = refl;
          total_is = refl;
          others =
              subst
                (λ k.
                  (other : ℕ)
                  → other ≢ k
                  → ep.registered t other ≡ ep.registered w.epoll.epoll other)
                h.on_fd others;
          same_worker = refl;
          same_count = refl;
        },
        refl,
        refl,
      )
