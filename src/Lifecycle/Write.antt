-- ===== src/Lifecycle/Write.antt =====
-- `client_handle_write`: from a response that waits to be written to what comes next.
use mathlib.Core.Path.{subst}
use jullop.Base.{
  ℕ, suc, ◌≡◌, ◌≢◌, refl, sym, ◌∙◌, arith, ap, false, true, Bool-cases, ◌++◌, length, none, some,
  ◌==◌, add_size, inl, inr, done,
}
use jullop.Kernel.{Socket, Memory, Epoll, EventFd, output_events}
use jullop.OutputBuffer.{WriteState, write_finish, write_busy, write_error, pending}
use jullop.OutputBuffer.Writing.{write_to_lem, all_written}
use jullop.RequestStats.{client_write_time}
use jullop.RequestStats.Refine.{update}
use jullop.RequestStats.Running.{Running-same, record_start_runs, record_end_runs}
use jullop.RequestContext.{
  RequestContext, RequestResult, request_success, request_write_error, context_keep_alive,
}
use jullop.HttpRequest.{Parser}
use jullop.Server.{World, Connection, Env, client_write}
use jullop.Client.{client_close_connection, after_write, client_handle_write}
use jullop.Lifecycle.{
  Phase, reading, queued, writing, closed, total_runs, IsSound, handlers, holding, InPhase,
  IsWriting, Leaves, active_after,
}
use jullop.Lifecycle.Reset.{reset_lem}
use jullop.Lifecycle.Close.{close_lem}

write_timed : (i : ℕ) → update (update total_runs 2 true) 2 false i ≡ total_runs i
write_timed i = ground arith

-- The number of processed requests after a write: one more once the request is over.
abbrev pub write_total_after : Phase → ℕ → ℕ
write_total_after writing total = total
write_total_after _ total = add_size total 1

module _ (sock : Socket) (ep : Epoll) (efd : EventFd) (env : Env) where
  -- What a part of `client_handle_write` has made of a connection whose request context is `r`.
  abbrev Switched :
      WriteState → World ep.State efd.State → Connection sock.State → RequestContext → Type 0
  Switched st w c r =
      (p : Phase) × (p ≢ queued)
      × (p ≡ reading → (st ≡ write_finish) × (context_keep_alive r ≡ 1))
      × (w' : World ep.State efd.State) × (c' : Connection sock.State) × (after_write ep efd env st
            (context_keep_alive r) w (holding c (some r) (some (handlers none (some client_write))))
          ≡ done (w', c'))
      × (c'.peer ≡ c.peer)
      × InPhase sock ep p w' c' r.fd
      × Leaves ep r.fd w w' (active_after p w.server.server_stats.active_connections)
          (write_total_after p w.server.server_stats.total_requests_processed)
      × (c'.address ≡ c.address)
      × (w'.server.app_actors ≡ w.server.app_actors)

  closes :
      (result : RequestResult) (st : WriteState) (w : World ep.State efd.State)
      (c : Connection sock.State) (r : RequestContext)
      → IsSound sock r c.peer total_runs
      → ep.registered w.epoll.epoll r.fd ≡ some (output_events, c.context_address)
      → length w.server.server_stats.avg_micros ≡ 5
      → env.closed ≡ 0
      → after_write ep efd env st
          (context_keep_alive r)
          w
          (holding c (some r) (some (handlers none (some client_write))))
        ≡ client_close_connection ep efd env result w
            (holding c (some r) (some (handlers none (some client_write))))
      → Switched st w c r
  closes result st w c r h listed five zero is_close =
      let (w', e, gone, leaves, actors) =
        close_lem ep efd env result w c r (handlers none (some client_write)) _ h.timers listed five
          zero in
      (
        closed,
        λ z. cc,
        λ z. absurd cc,
        w',
        holding c none none,
        is_close ∙ e,
        refl,
        record { shape = refl; unlisted = gone },
        leaves,
        refl,
        actors,
      )

  -- The switch of `client_handle_write`, on a request context that has been written from.
  after_write-phase :
      (st : WriteState) (w : World ep.State efd.State) (c : Connection sock.State)
      (r : RequestContext)
      → IsSound sock r c.peer total_runs
      → ep.registered w.epoll.epoll r.fd ≡ some (output_events, c.context_address)
      → length w.server.server_stats.avg_micros ≡ 5
      → env.closed ≡ 0
      → Switched st w c r
  unfolding after_write
  after_write-phase write_busy w c r h listed five zero = (
    writing,
    λ z. cc,
    λ z. absurd cc,
    w,
    holding c (some r) (some (handlers none (some client_write))),
    refl,
    refl,
    record { request = r; shape = refl; on_fd = refl; listed = listed; sound = h },
    record {
      five = five;
      active_is = refl;
      total_is = refl;
      others = λ other ne. refl;
      same_worker = refl;
      same_count = refl;
    },
    refl,
    refl,
  )
  after_write-phase write_error w c r h listed five zero =
      closes request_write_error write_error w c r h listed five zero refl
  after_write-phase write_finish w c r h listed five zero =
      elim (Bool-cases (context_keep_alive r == 1)) [
        | inl keep ↦
            let (w', c', e, same, at, leaves, addr, actors) =
              reset_lem sock ep efd env request_success w c r h listed five in
            (
              reading,
              λ z. cc,
              λ z. (refl, ground arith),
              w',
              c',
              rw keep e,
              same,
              at,
              leaves,
              addr,
              actors,
            )
        | inr other ↦ closes request_success write_finish w c r h listed five zero (rw other refl)
      ]

module _ (mem : Memory) (sock : Socket) (parser : Parser) (ep : Epoll) (efd : EventFd)
    (env : Env) where
  -- What `client_handle_write` makes of a connection: the phase that it is in, with the counters.
  -- `flushed` is about a connection that is kept alive.
  pub record WriteDone (w : World ep.State efd.State) (c : Connection sock.State) (fd : ℕ)
      (r : RequestContext) : Type 0 where
    pub phase : Phase
    pub not_queued : phase ≢ queued
    pub world : World ep.State efd.State
    pub connection : Connection sock.State
    pub runs :
        client_handle_write mem sock parser ep efd env (suc (length (pending r.output_buffer))) w c
        ≡ done (world, connection)
    pub phase_is : InPhase sock ep phase world connection fd
    pub leaves :
        Leaves ep fd w world
          (active_after phase w.server.server_stats.active_connections)
          (write_total_after phase w.server.server_stats.total_requests_processed)
    pub same_address : connection.address ≡ c.address
    pub actors : world.server.app_actors ≡ w.server.app_actors
    pub flushed :
        phase ≡ reading
        → (context_keep_alive r ≡ 1)
          × (sock.outgoing connection.peer ≡ sock.outgoing c.peer ++ pending r.output_buffer)

  -- A connection with a response to write is served: with a close(2) that succeeds,
  -- `client_handle_write` returns, and no CHECK fires and nothing is used after it is freed. The
  -- connection still writes, or it waits for the next request, or it is closed; it waits for the next
  -- one only if the request asked to be kept alive and the socket took the whole response. The
  -- counters say one request more unless it still writes, and one connection less if it is closed; no
  -- other descriptor is touched.
  pub handle_write_lem :
      (w : World ep.State efd.State) (c : Connection sock.State) (fd : ℕ)
      (h : IsWriting sock ep w c fd)
      → length w.server.server_stats.avg_micros ≡ 5
      → env.closed ≡ 0
      → WriteDone w c fd h.request
  unfolding client_handle_write context_keep_alive
  handle_write_lem w c fd h five zero =
      let r = h.request in
      let (t1, e1, run1) =
        record_start_runs r.time_stats total_runs client_write_time (env.now 0) h.sound.timers
          refl in
      let (st, b, peer, e2, wrote) =
        write_to_lem sock r.output_buffer c.peer h.sound.output_valid in
      let (t2, e3, run2) =
        record_end_runs t1 (update total_runs 2 true) client_write_time (env.now 1) run1 refl in
      let r' : RequestContext = record r { time_stats = t2; output_buffer = b } in
      let sound : IsSound sock r' peer total_runs = record {
        input_valid = h.sound.input_valid;
        input_small = h.sound.input_small;
        stream = omega (arith, h.sound.stream, ap length wrote.incoming_kept);
        output_valid = wrote.valid;
        output_small = omega (arith, h.sound.output_small, wrote.length_kept);
        path_small = h.sound.path_small;
        timers = Running-same t2 _ total_runs run2 write_timed;
      } in
      let listed : ep.registered w.epoll.epoll r'.fd ≡ some (output_events, c.context_address) =
        ap (ep.registered w.epoll.epoll) h.on_fd ∙ h.listed in
      let (p, ne, finish, w', c', e4, same, at, leaves, addr, actors) =
        after_write-phase sock ep efd env st w (record c { peer = peer }) r' sound listed five
          zero in
      let run : client_handle_write mem sock parser ep efd env
            (suc (length (pending r.output_buffer))) w
            (holding c (some r) (some (handlers none (some client_write))))
          ≡ done (w', c') =
        rw (e1, e2, e3) e4 in
      record {
        phase = p;
        not_queued = ne;
        world = w';
        connection = c';
        runs =
            subst
              (λ k.
                client_handle_write mem sock parser ep efd env
                  (suc (length (pending r.output_buffer))) w k
                ≡ done (w', c'))
              (sym h.shape) run;
        phase_is = subst (InPhase sock ep p w' c') h.on_fd at;
        leaves =
            subst
              (λ k.
                Leaves ep k w w' (active_after p w.server.server_stats.active_connections)
                  (write_total_after p w.server.server_stats.total_requests_processed))
              h.on_fd leaves;
        same_address = addr;
        actors = actors;
        flushed = λ is_reading. (
          (finish is_reading).1,
          ap sock.outgoing same
              ∙ all_written sock r.output_buffer c.peer st b peer wrote (finish is_reading).0,
        );
      }
