-- ===== src/Main/Starting.antt =====
-- What `main` has set up, where its calls succeed.
use mathlib.Core.Path.{subst}
use jullop.Base.{
  ℕ, zero, suc, ◌+◌, ◌%◌, ◌^◌, ◌≤◌, ◌<◌, ◌≡◌, refl, ◌∙◌, ap, arith, true, false, List, [], ◌∷◌,
  ◌++◌, length, length-append, some, replicate, ◌==◌, ◌!=◌, done, load,
}
use jullop.Kernel.{EventFd}
use jullop.HttpResponse.{text_of, digits_of}
use jullop.Actor.Answer.{digits_short}
use jullop.ServerStats.{server_stats_init}
use jullop.Main.{
  ThreadCalls, SocketCalls, MainCalls, Arguments, Started, settings, create_socket,
  create_io_worker, create_io_workers, create_stats, main,
}
use jullop.Main.Startup.{GoWell, HasActor, thread_name_done, create_actors_lem}

-- The calls for a listening socket succeed, at a port in network order.
pub record Listens (calls : SocketCalls) (port : ℕ) : Type 0 where
  pub sock : ℕ
  pub opened : calls.socket ≡ some sock
  pub options : (calls.reuse ≡ true) × (calls.nodelay ≡ true) × (calls.quickack ≡ true)
  pub bound : calls.bind port ≡ true
  pub listens : calls.listen 10 ≡ 0

create_socket_lem :
    (htons : ℕ → ℕ) (calls : SocketCalls) (port : ℕ) (h : Listens calls (htons port))
    → create_socket htons calls port 10 ≡ done h.sock
unfolding create_socket
create_socket_lem htons calls port h =
    let listens : (calls.listen 10 != 0) ≡ false = ground (arith, h.listens) in
    rw (h.opened, h.options.0, h.options.1, h.options.2, h.bound, listens) refl

worker_name_fits : (id : ℕ) → id < 10000 → length (text_of "io-" ++ digits_of 20 id) ≤ 7
worker_name_fits id small = omega (
  arith,
  length-append (text_of "io-") (digits_of 20 id),
  digits_short 20 4 id (omega arith) (omega arith),
)

create_io_worker_lem :
    (calls : ThreadCalls) (id : ℕ)
    → GoWell calls
    → id < 10000
    → (name : List ℕ) × (create_io_worker calls id ≡ done name)
unfolding create_io_worker
create_io_worker_lem calls id well small =
    let (name, e) =
      thread_name_done (text_of "io-" ++ digits_of 20 id) (worker_name_fits id small) in
    let create : (calls.create != 0) ≡ false = ground (arith, well.threads) in
    let setname : (calls.setname != 0) ≡ false = ground (arith, well.set) in
    (name, rw (well.list, create, well.name, e, setname) refl)

socket_behind :
    (fd : ℕ) (fds : List ℕ) (f : ℕ → ℕ) (left i : ℕ)
    → fd ≡ f i
    → ((j : ℕ) → j < left → load fds j ≡ done (f (suc i + j)))
    → (j : ℕ) → j < suc left
    → load (fd ∷ fds) j ≡ done (f (i + j))
socket_behind fd fds f left i here rest zero small =
    ap done here ∙ ap (λ k. done (f k)) (omega arith)
socket_behind fd fds f left i here rest (suc j) small =
    rest j (omega arith) ∙ ap (λ k. done (f k)) (omega arith)

-- Each worker has a socket that listens.
create_io_workers_lem :
    (htons : ℕ → ℕ) (sockets : ℕ → SocketCalls) (calls : ℕ → ThreadCalls) (port left i : ℕ)
    (listens : (j : ℕ) → Listens (sockets j) (htons port))
    → ((j : ℕ) → GoWell (calls j))
    → i + left ≤ 10000
    → (fds : List ℕ) × (create_io_workers htons sockets calls port left i ≡ done fds)
      × (length fds ≡ left)
      × ((j : ℕ) → j < left → load fds j ≡ done (listens (i + j)).sock)
unfolding create_io_workers
create_io_workers_lem htons sockets calls port zero i listens well few =
    ([], refl, refl, λ j b. absurd (omega arith))
create_io_workers_lem htons sockets calls port (suc left) i listens well few =
    let (name, e) = create_io_worker_lem (calls i) i (well i) (omega arith) in
    let (fds, es, count, each) =
      create_io_workers_lem htons sockets calls port left (suc i) listens well (omega arith) in
    (
      (listens i).sock ∷ fds,
      rw (create_socket_lem htons (sockets i) port (listens i), e, es) refl,
      omega (arith, count),
      socket_behind (listens i).sock fds (λ k. (listens k).sock) left i refl each,
    )

create_stats_lem : (calls : ThreadCalls) → GoWell calls → create_stats calls ≡ done tt
unfolding create_stats
create_stats_lem calls well =
    let create : (calls.create != 0) ≡ false = ground (arith, well.threads) in
    let setname : (calls.setname != 0) ≡ false = ground (arith, well.set) in
    rw (create, setname) refl

-- The calls of `main` succeed, and there are no more than 1000 cores and 10000 IO workers: the thread
-- names of more would not fit their blocks of 8 bytes.
pub record AllWell (calls : MainCalls) (args : Arguments) : Type 0 where
  pub stats_mem : calls.stats_mem ≡ true
  pub actors_mem : calls.actors_mem ≡ true
  pub barrier : (n : ℕ) → calls.barrier_init n ≡ 0
  pub stats : GoWell calls.stats
  pub actors : (i : ℕ) → GoWell (calls.actors i)
  pub sockets : (i : ℕ) → Listens (calls.sockets i) (calls.htons (settings args).1)
  pub workers : (i : ℕ) → GoWell (calls.workers i)
  pub few_actors : calls.cores ≤ 1000
  pub few_workers : (settings args).0 ≤ 10000
  pub some_worker : 0 < (settings args).0
  pub join : calls.join ≡ 0

module _ (efd : EventFd) where
  -- What `main` joins its last worker with.
  pub record MainDone (calls : MainCalls) (args : Arguments) (well : AllWell calls args)
      : Type 0 where
    pub started : Started efd.State
    pub runs : main efd calls args ≡ done started
    pub actor_count : started.server.actor_count ≡ calls.cores
    pub worker_count : started.server.io_worker_count ≡ (settings args).0
    pub startup : started.startup ≡ calls.cores + (settings args).0
    pub five : length started.server.server_stats.avg_micros ≡ 5
    pub no_connections : started.server.server_stats.active_connections ≡ 0
    pub each_actor :
        (i : ℕ) → i < calls.cores → HasActor efd started.server.app_actors (settings args).0 i i
    pub each_socket :
        (j : ℕ) → j < (settings args).0 → load started.sockets j ≡ done (well.sockets j).sock

  -- Where its calls succeed, and there is an IO worker, no more than 10000 of them and no more than
  -- 1000 cores, `main` comes to the join of a worker. There is an actor for each core, with an empty
  -- queue for each IO worker, and a socket for each IO worker that listens at the port of the
  -- arguments; the barrier waits for as many threads as there are actors and IO workers; and no
  -- connection is counted.
  pub main_lem :
      (calls : MainCalls) (args : Arguments) (well : AllWell calls args) → MainDone calls args well
  unfolding main server_stats_init
  main_lem calls args well =
      let workers = (settings args).0 in
      let (actors, e, each) =
        create_actors_lem efd calls.actors workers calls.cores 0 well.actors
          (omega (arith, well.few_actors)) in
      let (fds, es, count, sockets) =
        create_io_workers_lem calls.htons calls.sockets calls.workers (settings args).1 workers 0
          well.sockets well.workers (omega (arith, well.few_workers)) in
      let sum = (calls.cores + workers) % 2 ^ 32 in
      let barrier : (calls.barrier_init sum != 0) ≡ false = ground (arith, well.barrier sum) in
      let some_worker : (workers == 0) ≡ false = ground (arith, well.some_worker) in
      let join : (calls.join != 0) ≡ false = ground (arith, well.join) in
      record {
        started = record {
          server = record {
            server_stats = record {
              avg_micros = replicate 5 0;
              active_connections = 0;
              total_requests_processed = 0;
            };
            io_worker_count = workers;
            actor_count = calls.cores;
            app_actors = actors;
          };
          startup = sum;
          sockets = fds;
        };
        runs =
            rw
              (
                well.stats_mem,
                well.actors_mem,
                barrier,
                create_stats_lem calls.stats well.stats,
                e,
                es,
                some_worker,
                join,
              )
              refl;
        actor_count = refl;
        worker_count = refl;
        startup = omega (arith, well.few_actors, well.few_workers);
        five = refl;
        no_connections = refl;
        each_actor = λ i small. subst (HasActor efd actors workers i) (omega arith) (each i small);
        each_socket =
            λ j small. sockets j small ∙ ap (λ k. done (well.sockets k).sock) (omega arith);
      }
