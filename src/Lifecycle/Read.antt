-- ===== src/Lifecycle/Read.antt =====
-- `client_handle_read`: from waiting for a request to what comes next.
use mathlib.Core.Path.{subst}
use jullop.Base.{
  ℕ, suc, dec_lt, ◌⊎◌, inl, inr, exit_failure, ◌*◌, ◌≡◌, ◌≢◌, refl, sym, ◌∙◌, arith, ap, false,
  true, length, none, some, done,
}
use jullop.Kernel.{Socket, Memory, Epoll, EventFd, input_events}
use jullop.InputBuffer.{ReadState, read_finish, read_busy, read_error, client_disconnect}
use jullop.InputBuffer.Growth as Input
use jullop.RequestStats.{client_read_time}
use jullop.RequestStats.Refine.{update}
use jullop.RequestStats.Running.{Running-same, record_start_runs, record_end_runs}
use jullop.HttpRequest.{Parser}
use jullop.RequestContext.{RequestContext, request_read_error, request_client_error}
use jullop.Server.{World, Connection, Env, client_read}
use jullop.Client.{after_read, client_handle_read}
use jullop.Lifecycle.{
  Phase, reading, queued, writing, closed, active_after, read_total_after, total_runs, stream_bound,
  IsSound, handlers, holding, InPhase, IsReading, Leaves,
}
use jullop.Lifecycle.Parse.{try_parse_lem}
use jullop.Lifecycle.Close.{close_lem}
use jullop.Lifecycle.Send.{CanPush, IsFull, ActorsAfter, send_lem}
use jullop.Lifecycle.Full.{send_full}

-- CLIENT_READ_TIME is started and ended.
read_timed : (i : ℕ) → update (update total_runs 1 true) 1 false i ≡ total_runs i
read_timed i = ground arith

module _ (mem : Memory) (sock : Socket) (parser : Parser) (ep : Epoll) (efd : EventFd)
    (env : Env) where
  -- What `client_handle_read` makes of a connection: the phase that it is in, with the counters.
  pub record ReadDone (w : World ep.State efd.State) (c : Connection sock.State) (fd : ℕ)
      (ready : CanPush ep efd w env.mutex) : Type 0 where
    pub phase : Phase
    pub not_writing : phase ≢ writing
    pub world : World ep.State efd.State
    pub connection : Connection sock.State
    pub runs :
        client_handle_read mem sock parser ep efd env (suc (length (sock.incoming c.peer))) w c
        ≡ done (world, connection)
    pub phase_is : InPhase sock ep phase world connection fd
    pub leaves :
        Leaves ep fd w world
          (active_after phase w.server.server_stats.active_connections)
          (read_total_after phase w.server.server_stats.total_requests_processed)
    pub same_address : connection.address ≡ c.address
    pub actors : ActorsAfter ep efd phase w world env.mutex ready c.address

  -- The queue has no room, and the process ends.
  abbrev pub ReadFull :
      (w : World ep.State efd.State) → Connection sock.State → CanPush ep efd w env.mutex → Type 0
  ReadFull w c ready =
      IsFull ep efd ready
      × (client_handle_read mem sock parser ep efd env (suc (length (sock.incoming c.peer))) w c
          ≡ exit_failure)

  abbrev Switched :
      ReadState
      → (w : World ep.State efd.State) → Connection sock.State
      → RequestContext
      → CanPush ep efd w env.mutex
      → Type 0
  Switched st w c r ready =
      (p : Phase) × (p ≢ writing)
      × (w' : World ep.State efd.State) × (c' : Connection sock.State) × (after_read ep efd env st w
            (holding c (some r) (some (handlers (some client_read) none)))
          ≡ done (w', c'))
      × InPhase sock ep p w' c' r.fd
      × Leaves ep r.fd w w' (active_after p w.server.server_stats.active_connections)
          (read_total_after p w.server.server_stats.total_requests_processed)
      × (c'.address ≡ c.address)
      × ActorsAfter ep efd p w w' env.mutex ready c.address

  -- The switch of `client_handle_read`, on a request context that has been read into.
  after_read-phase :
      (st : ReadState) (w : World ep.State efd.State) (c : Connection sock.State)
      (r : RequestContext)
      → IsSound sock r c.peer total_runs
      → r.output_buffer.write_into_offset ≡ 0
      → ep.registered w.epoll.epoll r.fd ≡ some (input_events, c.context_address)
      → length w.server.server_stats.avg_micros ≡ 5
      → (ready : CanPush ep efd w env.mutex) → env.closed ≡ 0
      → Switched st w c r ready
        ⊎ IsFull ep efd ready
          × (after_read ep efd env st w
                (holding c (some r) (some (handlers (some client_read) none)))
              ≡ exit_failure)
  unfolding after_read
  after_read-phase read_finish w c r h empty listed five ready zero =
      elim (dec_lt (length ready.items) ready.at.queue.max_size) [
        | no over ↦
            let full : IsFull ep efd ready =
              omega (arith, ready.at.holds.counted, ready.at.holds.bounded) in
            inr (
              full,
              send_full ep efd env w c r (handlers (some client_read) none) _ h.timers listed ready
                  full,
            )
        | yes room ↦
            let (w', timed, e, gone, run, handed, leaves) =
              send_lem ep efd env w c r (handlers (some client_read) none) _ h.timers listed five
                ready room in
            inl (
              queued,
              λ z. cc,
              w',
              holding c (some (record r { time_stats = timed })) none,
              e,
              record {
                request = record r { time_stats = timed };
                shape = refl;
                on_fd = refl;
                unlisted = gone;
                sound = record {
                  input_valid = h.input_valid;
                  input_small = h.input_small;
                  stream = h.stream;
                  output_valid = h.output_valid;
                  output_small = h.output_small;
                  path_small = h.path_small;
                  timers = run;
                };
                no_output = empty;
              },
              leaves,
              refl,
              handed,
            )
      ]
  after_read-phase read_error w c r h empty listed five ready zero =
      let (w', e, gone, leaves, same) =
        close_lem ep efd env request_read_error w c r (handlers (some client_read) none) _ h.timers
          listed five zero in
      inl (
        closed,
        λ z. cc,
        w',
        holding c none none,
        e,
        record { shape = refl; unlisted = gone },
        leaves,
        refl,
        same,
      )
  after_read-phase client_disconnect w c r h empty listed five ready zero =
      let (w', e, gone, leaves, same) =
        close_lem ep efd env request_client_error w c r (handlers (some client_read) none) _
          h.timers listed five zero in
      inl (
        closed,
        λ z. cc,
        w',
        holding c none none,
        e,
        record { shape = refl; unlisted = gone },
        leaves,
        refl,
        same,
      )
  after_read-phase read_busy w c r h empty listed five ready zero = inl (
    reading,
    λ z. cc,
    w,
    holding c (some r) (some (handlers (some client_read) none)),
    refl,
    record {
      request = r;
      shape = refl;
      on_fd = refl;
      listed = listed;
      sound = h;
      no_output = empty;
    },
    record {
      five = five;
      active_is = refl;
      total_is = refl;
      others = λ other ne. refl;
      same_worker = refl;
      same_count = refl;
    },
    refl,
    refl,
  )

  -- A connection that waits for its request is served: with memory for what the client sends, a queue
  -- for the worker at the actor whose turn it is, and pthread calls and a close(2) that succeed,
  -- `client_handle_read` returns, and nothing is used after it is freed; only where that queue is full
  -- it may end the process instead. The connection still waits, or it is in the actor's queue, behind
  -- the others, or it is closed; the counters are changed only if it is closed; and no other
  -- descriptor and no other actor is touched.
  pub handle_read_lem :
      (w : World ep.State efd.State) (c : Connection sock.State) (fd : ℕ)
      → Input.Serves mem (2 * stream_bound)
      → IsReading sock ep w c fd
      → length w.server.server_stats.avg_micros ≡ 5
      → (ready : CanPush ep efd w env.mutex) → env.closed ≡ 0
      → ReadDone w c fd ready ⊎ ReadFull w c ready
  unfolding client_handle_read
  handle_read_lem w c fd serves h five ready zero =
      let r = h.request in
      let (t1, e1, run1) =
        record_start_runs r.time_stats total_runs client_read_time (env.now 0) h.sound.timers
          refl in
      let sound1 : IsSound sock (record r { time_stats = t1 }) c.peer (update total_runs 1 true) =
        record {
          input_valid = h.sound.input_valid;
          input_small = h.sound.input_small;
          stream = h.sound.stream;
          output_valid = h.sound.output_valid;
          output_small = h.sound.output_small;
          path_small = h.sound.path_small;
          timers = run1;
        } in
      let (st, r2, peer, e2, sound2, keeps) =
        try_parse_lem sock parser mem (record r { time_stats = t1 }) c.peer
          (update total_runs 1 true) serves sound1 in
      let (t2, e3, run2) =
        record_end_runs r2.time_stats (update total_runs 1 true) client_read_time (env.now 1)
          sound2.timers refl in
      let r3 : RequestContext = record r2 { time_stats = t2 } in
      let sound3 : IsSound sock r3 peer total_runs = record {
        input_valid = sound2.input_valid;
        input_small = sound2.input_small;
        stream = sound2.stream;
        output_valid = sound2.output_valid;
        output_small = sound2.output_small;
        path_small = sound2.path_small;
        timers =
            Running-same t2 (update (update total_runs 1 true) 1 false) total_runs run2 read_timed;
      } in
      let fd_is : r3.fd ≡ fd = keeps.same_fd ∙ h.on_fd in
      let listed : ep.registered w.epoll.epoll r3.fd ≡ some (input_events, c.context_address) =
        ap (ep.registered w.epoll.epoll) fd_is ∙ h.listed in
      let empty : r3.output_buffer.write_into_offset ≡ 0 =
        ap (λ o. o.write_into_offset) keeps.same_output ∙ h.no_output in
      let handled = λ (k : Connection sock.State).
        client_handle_read mem sock parser ep efd env (suc (length (sock.incoming c.peer))) w k in
      let start = holding c (some r) (some (handlers (some client_read) none)) in
      elim (after_read-phase st w (record c { peer = peer }) r3 sound3 empty listed five ready
        zero) [
          | inr (full, e4) ↦
              let run : handled start ≡ exit_failure = rw (e1, e2, e3) e4 in
              inr (full, subst (λ k. handled k ≡ exit_failure) (sym h.shape) run)
          | inl (p, ne, w', c', e4, at, leaves, same, actors) ↦
              let run : handled start ≡ done (w', c') = rw (e1, e2, e3) e4 in
              inl (record {
                phase = p;
                not_writing = ne;
                world = w';
                connection = c';
                runs = subst (λ k. handled k ≡ done (w', c')) (sym h.shape) run;
                phase_is = subst (InPhase sock ep p w' c') fd_is at;
                leaves =
                    subst
                      (λ k.
                        Leaves ep k w w' (active_after p w.server.server_stats.active_connections)
                          (read_total_after p w.server.server_stats.total_requests_processed))
                      fd_is leaves;
                same_address = same;
                actors = actors;
              })
        ]
