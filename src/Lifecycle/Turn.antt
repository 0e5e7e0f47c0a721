-- ===== src/Lifecycle/Turn.antt =====
-- One turn of the event loop of src/io_worker.c for the descriptor of a connection.
use mathlib.Core.Path.{subst}
use jullop.Base.{
  ◌⊎◌, ℕ, suc, ◌*◌, ◌≡◌, ◌≢◌, refl, sym, ◌∙◌, ap, false, true, Bool-cases, length, Option, none,
  some, inl, inr, Outcome, done, fault, exit_failure, ◌>>=◌,
}
use jullop.Kernel.{Socket, Memory, Epoll, EventFd, Interest, input_events, output_events}
use jullop.InputBuffer.Growth as Input
use jullop.OutputBuffer.{pending}
use jullop.RequestStats.Running.{Running}
use jullop.HttpRequest.{Parser}
use jullop.RequestContext.{RequestContext, request_epoll_error}
use jullop.Server.{
  World, Connection, Env, Handler, ErrorHandler, accept_read, client_read, client_write,
  accept_error, client_error, deref,
}
use jullop.Client.{client_handle_read, client_handle_write, client_handle_error}
use jullop.IoWorker.{Events, dispatch_event}
use jullop.Lifecycle.{
  Phase, reading, queued, writing, closed, active_after, total_runs, stream_bound, handlers,
  holding, InPhase, IsReading, IsWriting,
}
use jullop.Lifecycle.Dispatch.{has_error, Within, input_exits, input_called, output_called}
use jullop.Lifecycle.Close.{close_lem}
use jullop.Lifecycle.Send.{CanPush, IsFull, ActorsAfter}
use jullop.Lifecycle.Read.{handle_read_lem}
use jullop.Lifecycle.Write.{handle_write_lem}

none-some : {x : Interest × ℕ} → none ≡ some x → ⊥
none-some e = cc

-- The interest in a registration.
abbrev interest_of : Option (Interest × ℕ) → Interest
interest_of none = input_events
interest_of (some x) = x.0

module _ (mem : Memory) (sock : Socket) (parser : Parser) (ep : Epoll) (efd : EventFd)
    (env : Env) where
  abbrev State : Type 0
  State = World ep.State efd.State × Connection sock.State

  abbrev call_write :
      World ep.State efd.State → Connection sock.State → RequestContext → Outcome State
  call_write w c r =
      client_handle_write mem sock parser ep efd env (suc (length (pending r.output_buffer))) w c

  -- The fuel of the loops in the handlers is one more than the bytes that they can move.
  abbrev pub call_handler : Handler → State → Outcome State
  call_handler client_read (w, c) =
      client_handle_read mem sock parser ep efd env (suc (length (sock.incoming c.peer))) w c
  call_handler client_write (w, c) = deref c.request >>= call_write w c
  call_handler accept_read s = fault

  abbrev pub call_error_handler : ErrorHandler → State → Outcome State
  call_error_handler client_error (w, c) = client_handle_error ep efd env w c
  call_error_handler accept_error s = exit_failure

  -- The body of the loop of `io_event_loop`, for an event of a connection.
  abbrev pub turn : Events → State → Outcome State
  turn = dispatch_event (λ s. deref s.1.context) call_handler call_error_handler

  -- What a turn makes of a connection.
  pub record TurnDone (w : World ep.State efd.State) (c : Connection sock.State) (fd : ℕ)
      (events : Events) (ready : CanPush ep efd w env.mutex) : Type 0 where
    pub phase : Phase
    pub world : World ep.State efd.State
    pub connection : Connection sock.State
    pub runs : turn events (w, c) ≡ done (world, connection)
    pub phase_is : InPhase sock ep phase world connection fd
    pub five : length world.server.server_stats.avg_micros ≡ 5
    pub others :
        (other : ℕ)
        → other ≢ fd
        → ep.registered world.epoll.epoll other ≡ ep.registered w.epoll.epoll other
    pub on_error : has_error events ≡ true → phase ≡ closed
    pub active :
        world.server.server_stats.active_connections
        ≡ active_after phase w.server.server_stats.active_connections
    pub same_worker : world.epoll.id ≡ w.epoll.id
    pub same_count : world.server.actor_count ≡ w.server.actor_count
    pub same_address : connection.address ≡ c.address
    pub actors : ActorsAfter ep efd phase w world env.mutex ready c.address

  -- The queue of the actor whose turn it is has no room, and the process ends.
  abbrev pub TurnFull :
      (w : World ep.State efd.State)
      → Connection sock.State
      → Events
      → CanPush ep efd w env.mutex
      → Type 0
  TurnFull w c events ready = IsFull ep efd ready × (turn events (w, c) ≡ exit_failure)

  not_queued_actors :
      (p : Phase) (w w' : World ep.State efd.State) (ready : CanPush ep efd w env.mutex)
      (address : ℕ)
      → p ≢ queued
      → w'.server.app_actors ≡ w.server.app_actors
      → ActorsAfter ep efd p w w' env.mutex ready address
  not_queued_actors queued w w' ready address ne same = absurd (ne refl)
  not_queued_actors reading w w' ready address ne same = same
  not_queued_actors writing w w' ready address ne same = same
  not_queued_actors closed w w' ready address ne same = same

  error_turn :
      (w : World ep.State efd.State) (c : Connection sock.State) (events : Events)
      (r : RequestContext) (input output : Option Handler) (x : Interest × ℕ)
      → has_error events ≡ true
      → Running r.time_stats total_runs
      → ep.registered w.epoll.epoll r.fd ≡ some x
      → length w.server.server_stats.avg_micros ≡ 5
      → (ready : CanPush ep efd w env.mutex) → env.closed ≡ 0
      → TurnDone w (holding c (some r) (some (handlers input output))) r.fd events ready
  unfolding dispatch_event client_handle_error
  error_turn w c events r input output x error timers listed five ready zero =
      let (w', e, gone, leaves, actors) =
        close_lem ep efd env request_epoll_error w c r (handlers input output) x timers listed five
          zero in
      record {
        phase = closed;
        world = w';
        connection = holding c none none;
        runs = rw error e;
        phase_is = record { shape = refl; unlisted = gone };
        five = leaves.five;
        others = leaves.others;
        on_error = λ z. refl;
        active = leaves.active_is;
        same_worker = leaves.same_worker;
        same_count = leaves.same_count;
        same_address = refl;
        actors = actors;
      }

  -- Nothing is called without an event.
  idle_turn :
      (w : World ep.State efd.State) (c : Connection sock.State) (events : Events)
      → has_error events ≡ false
      → events.epollin ≡ false
      → events.epollout ≡ false
      → turn events (w, c) ≡ done (w, c)
  unfolding dispatch_event
  idle_turn w c events error input output = rw (error, input, output) refl

  read_turn :
      (w : World ep.State efd.State) (c : Connection sock.State) (fd : ℕ) (events : Events)
      → Input.Serves mem (2 * stream_bound)
      → IsReading sock ep w c fd
      → length w.server.server_stats.avg_micros ≡ 5
      → (ready : CanPush ep efd w env.mutex) → env.closed ≡ 0
      → has_error events ≡ false
      → events.epollout ≡ false
      → TurnDone w c fd events ready ⊎ TurnFull w c events ready
  unfolding dispatch_event
  read_turn w c fd events serves h five ready zero error output = elim (Bool-cases events.epollin) [
    | inl input ↦
        let context : deref c.context ≡ done (handlers (some client_read) none) =
          ap (λ z. deref z.context) h.shape in
        elim (handle_read_lem mem sock parser ep efd env w c fd serves h five ready zero) [
          | inr (full, ran) ↦ inr (
            full,
            input_exits (λ s. deref s.1.context) call_handler call_error_handler events (w, c)
                (handlers (some client_read) none) client_read error input context refl ran,
          )
          | inl d ↦ inl (record {
            phase = d.phase;
            world = d.world;
            connection = d.connection;
            runs =
                input_called (λ s. deref s.1.context) call_handler call_error_handler events (w, c)
                  (d.world, d.connection) (handlers (some client_read) none) client_read error input
                  output context refl d.runs;
            phase_is = d.phase_is;
            five = d.leaves.five;
            others = d.leaves.others;
            on_error = λ z. absurd cc;
            active = d.leaves.active_is;
            same_worker = d.leaves.same_worker;
            same_count = d.leaves.same_count;
            same_address = d.same_address;
            actors = d.actors;
          })
        ]
    | inr input ↦ inl (record {
      phase = reading;
      world = w;
      connection = c;
      runs = idle_turn w c events error input output;
      phase_is = h;
      five = five;
      others = λ other ne. refl;
      on_error = λ z. absurd cc;
      active = refl;
      same_worker = refl;
      same_count = refl;
      same_address = refl;
      actors = refl;
    })
  ]

  write_turn :
      (w : World ep.State efd.State) (c : Connection sock.State) (fd : ℕ) (events : Events)
      → IsWriting sock ep w c fd
      → length w.server.server_stats.avg_micros ≡ 5
      → (ready : CanPush ep efd w env.mutex) → env.closed ≡ 0
      → has_error events ≡ false
      → events.epollin ≡ false
      → TurnDone w c fd events ready
  unfolding dispatch_event
  write_turn w c fd events h five ready zero error input = elim (Bool-cases events.epollout) [
    | inl output ↦
        let d = handle_write_lem mem sock parser ep efd env w c fd h five zero in
        let context : deref c.context ≡ done (handlers none (some client_write)) =
          ap (λ z. deref z.context) h.shape in
        let request : deref c.request ≡ done h.request = ap (λ z. deref z.request) h.shape in
        record {
          phase = d.phase;
          world = d.world;
          connection = d.connection;
          runs =
              output_called (λ s. deref s.1.context) call_handler call_error_handler events (w, c)
                (d.world, d.connection) (handlers none (some client_write)) client_write error input
                output context refl (ap (λ m. m >>= call_write w c) request ∙ d.runs);
          phase_is = d.phase_is;
          five = d.leaves.five;
          others = d.leaves.others;
          on_error = λ z. absurd cc;
          active = d.leaves.active_is;
          same_worker = d.leaves.same_worker;
          same_count = d.leaves.same_count;
          same_address = d.same_address;
          actors = not_queued_actors d.phase w d.world ready c.address d.not_queued d.actors;
        }
    | inr output ↦ record {
      phase = writing;
      world = w;
      connection = c;
      runs = idle_turn w c events error input output;
      phase_is = h;
      five = five;
      others = λ other ne. refl;
      on_error = λ z. absurd cc;
      active = refl;
      same_worker = refl;
      same_count = refl;
      same_address = refl;
      actors = refl;
    }
  ]

  -- An event for an allocated connection.
  error_event :
      (w : World ep.State efd.State) (c : Connection sock.State) (fd : ℕ) (events : Events)
      (r : RequestContext) (input output : Option Handler) (x : Interest × ℕ)
      → c ≡ holding c (some r) (some (handlers input output))
      → r.fd ≡ fd
      → has_error events ≡ true
      → Running r.time_stats total_runs
      → ep.registered w.epoll.epoll fd ≡ some x
      → length w.server.server_stats.avg_micros ≡ 5
      → (ready : CanPush ep efd w env.mutex) → env.closed ≡ 0
      → TurnDone w c fd events ready
  error_event w c fd events r input output x shape on_fd error timers listed five ready zero =
      subst (λ k. TurnDone w k fd events ready) (sym shape)
        (subst (λ k. TurnDone w (holding c (some r) (some (handlers input output))) k events ready)
          on_fd
          (error_turn w c events r input output x error timers
            (ap (ep.registered w.epoll.epoll) on_fd ∙ listed) five ready zero))

  -- One turn of the event loop, for a connection that is registered: with memory for what the client
  -- sends, a queue for the worker at the actor whose turn it is, and pthread calls and a close(2) that
  -- succeed, whatever events of the registration are reported, the handlers that are called return,
  -- and none uses a context that was freed; only where that queue is full they may end the process
  -- instead. The connection is in one of the phases again, closed if an error was reported; the number
  -- of active connections is one less if it is closed and else the same; no other descriptor is
  -- touched, and no actor unless the request is handed to it.
  pub turn_lem :
      (w : World ep.State efd.State) (c : Connection sock.State) (fd : ℕ) (events : Events)
      (interest : Interest) (p : Phase)
      → Input.Serves mem (2 * stream_bound)
      → InPhase sock ep p w c fd
      → ep.registered w.epoll.epoll fd ≡ some (interest, c.context_address)
      → Within events interest
      → length w.server.server_stats.avg_micros ≡ 5
      → (ready : CanPush ep efd w env.mutex) → env.closed ≡ 0
      → TurnDone w c fd events ready ⊎ TurnFull w c events ready
  turn_lem w c fd events interest queued serves h known inside five ready zero =
      absurd (none-some (sym h.unlisted ∙ known))
  turn_lem w c fd events interest closed serves h known inside five ready zero =
      absurd (none-some (sym h.unlisted ∙ known))
  turn_lem w c fd events interest reading serves h known inside five ready zero =
      let is_input : Within events input_events =
        subst (λ x. Within events (interest_of x)) (sym known ∙ h.listed) inside in
      elim (Bool-cases (has_error events)) [
        | inl error ↦ inl (
            error_event w c fd events h.request (some client_read) none _ h.shape h.on_fd error
              h.sound.timers h.listed five ready zero)
        | inr fine ↦ read_turn w c fd events serves h five ready zero fine is_input
      ]
  turn_lem w c fd events interest writing serves h known inside five ready zero =
      let is_output : Within events output_events =
        subst (λ x. Within events (interest_of x)) (sym known ∙ h.listed) inside in
      elim (Bool-cases (has_error events)) [
        | inl error ↦ inl (
            error_event w c fd events h.request none (some client_write) _ h.shape h.on_fd error
              h.sound.timers h.listed five ready zero)
        | inr fine ↦ inl (write_turn w c fd events h five ready zero fine is_output)
      ]
