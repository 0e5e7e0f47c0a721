-- ===== src/System/Startup.antt =====
-- From the beginning of the program to the first event: src/main.c and the beginning of
-- `io_event_loop`.
use jullop.Base.{ℕ, ◌+◌, ◌<◌, ◌≡◌, ◌≢◌, refl, ◌∙◌, ap, arith, true, [], none, some, done, load}
use jullop.Kernel.{Socket, Epoll, EventFd, Interest, input_events}
use jullop.EpollInfo.{EpollInfo, epoll_info_init, add_input_epoll_event}
use jullop.Server.{SocketContext, accept_read, accept_error}
use jullop.IoWorker.{WorkerCalls, init_context, start_io_worker}
use jullop.Main.{MainCalls, Arguments, settings, main, Started}
use jullop.Main.Starting.{AllWell, main_lem}
use jullop.System.{State}
use jullop.System.Safety.{Starts}

abbrev listener : SocketContext
listener = record {
  input_handler = some accept_read;
  output_handler = none;
  error_handler = some accept_error;
}

module _ (sock : Socket) (ep : Epoll) (efd : EventFd) where
  -- An IO worker whose allocations succeed, with a new epoll instance.
  pub record StartsWell (calls : WorkerCalls ep.State) : Type 0 where
    pub epoll_mem : calls.epoll_mem ≡ true
    pub instance_of : ep.State
    pub created : calls.epoll ≡ some instance_of
    pub nothing : (fd : ℕ) → ep.registered instance_of fd ≡ none
    pub context_mem : calls.context_mem ≡ true

  start_io_worker_lem :
      (calls : WorkerCalls ep.State) (id sock_fd : ℕ)
      → StartsWell calls
      → (epoll : EpollInfo ep.State) × (start_io_worker ep calls id sock_fd
          ≡ done (epoll, listener))
        × (epoll.id ≡ id)
        × (ep.registered epoll.epoll sock_fd ≡ some (input_events, calls.context_address))
        × ((fd : ℕ) → fd ≢ sock_fd → ep.registered epoll.epoll fd ≡ none)
  unfolding start_io_worker init_context epoll_info_init add_input_epoll_event
  start_io_worker_lem calls id sock_fd well =
      let new : Interest × ℕ = (input_events, calls.context_address) in
      let (t, d) = ep.add_new well.instance_of sock_fd new (well.nothing sock_fd) in
      let (_, listed, others) = ep.add_sets well.instance_of t sock_fd new d in
      (
        record { epoll = t; id = id },
        rw (well.epoll_mem, well.created, well.context_mem, d) refl,
        refl,
        listed,
        λ fd ne. others fd ne ∙ well.nothing fd,
      )

  -- The server when the worker `id` begins to wait for events.
  abbrev pub start_state :
      Started efd.State → EpollInfo ep.State → State ep.State efd.State sock.State
  start_state started epoll = record {
    world = record { server = started.server; epoll = epoll; count = 0 };
    entries = [];
    left = λ i. 0;
  }

  -- `main` comes to its join, and the worker to its first epoll_wait.
  pub record Launched (calls : MainCalls) (args : Arguments) (worker : WorkerCalls ep.State)
      (id : ℕ) : Type 0 where
    pub started : Started efd.State
    pub sock_fd : ℕ
    pub epoll : EpollInfo ep.State
    pub main_runs : main efd calls args ≡ done started
    pub socket_at : load started.sockets id ≡ done sock_fd
    pub worker_runs : start_io_worker ep worker id sock_fd ≡ done (epoll, listener)
    pub listens : ep.registered epoll.epoll sock_fd ≡ some (input_events, worker.context_address)
    pub barrier : started.startup ≡ started.server.actor_count + started.server.io_worker_count
    pub starts : Starts sock ep efd sock_fd (start_state started epoll)

  -- Where the calls of `main` and of the beginning of an IO worker succeed, with 1 to 1000 cores and 1
  -- to 10000 IO workers (the thread names of more do not fit their blocks), `main` comes to the join of its threads and each worker to its epoll_wait:
  -- the worker listens at the socket that `main` made for it, the barrier waits for as many threads as
  -- there are actors and IO workers, and the worker begins in a state that `Starts` describes.
  pub main-Launched :
      (calls : MainCalls) (args : Arguments) (worker : WorkerCalls ep.State) (id : ℕ)
      → AllWell calls args
      → 0 < calls.cores
      → StartsWell worker
      → id < (settings args).0
      → Launched calls args worker id
  main-Launched calls args worker id well some_core fine small =
      let d = main_lem efd calls args well in
      let fd = (well.sockets id).sock in
      let (epoll, runs, same_id, listed, only) = start_io_worker_lem worker id fd fine in
      record {
        started = d.started;
        sock_fd = fd;
        epoll = epoll;
        main_runs = d.runs;
        socket_at = d.each_socket id small;
        worker_runs = runs;
        listens = listed;
        barrier = omega (arith, d.startup, d.actor_count, d.worker_count);
        starts = record {
          no_entries = refl;
          five = d.five;
          some_actor = omega (arith, d.actor_count, some_core);
          no_connections = d.no_connections;
          only_listen = only;
          idle = λ i. refl;
          empty = λ i below.
              let a = d.each_actor i (omega (arith, d.actor_count, below)) in
              let q = a.queues id small in
              (
                record {
                  info = a.actor;
                  queue = q.queue;
                  actor_at = a.actor_at;
                  queue_at = ap (load a.actor.input_queue) same_id ∙ q.queue_at;
                  holds = q.empty;
                },
                q.quiet,
                omega (arith, q.room),
              );
        };
      }
