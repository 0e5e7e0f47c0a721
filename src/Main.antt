-- ===== src/Main.antt =====
-- src/main.c: what `main` creates: the actors, the IO workers with their listening sockets, and the
-- barrier. A thread is what pthread_create starts; atoi is taken to give no negative number.
pub mod Startup
pub mod Starting
use jullop.Base.{
  ℕ, zero, suc, ◌+◌, ◌%◌, ◌^◌, Bool, not, List, [], ◌∷◌, ◌++◌, length, take, min, ltb, ◌==◌, ◌!=◌,
  if◌then◌else◌, Option, none, some, Outcome, done, fault, exit_failure, ◌>>=◌, ◌>>◌, check,
}
use jullop.Kernel.{EventFd}
use jullop.MrmwQueue.{Queue, Resources, queue_init}
use jullop.HttpResponse.{text_of, digits_of}
use jullop.ServerStats.{server_stats_init}
use jullop.Server.{ActorInfo, Server}

-- What the calls for one thread give: whether malloc and calloc succeed, what the pthread calls
-- return, and the resources of each queue.
pub record ThreadCalls : Type 0 where
  pub list_mem : Bool
  pub queues : ℕ → Resources
  pub create : ℕ
  pub detach : ℕ
  pub name_mem : Bool
  pub setname : ℕ
  pub setaffinity : ℕ

-- calloc(1, sizeof(max_name_size)), and snprintf of at most max_name_size bytes into it: undefined
-- where it stores more than there are.
unfoldable pub thread_name : Bool → List ℕ → Outcome (List ℕ)
thread_name name_mem text =
    check (not name_mem)
    >> (if ltb 8 (min 16 (length text + 1)) then fault else done (take 15 text))

module _ (efd : EventFd) where
  -- The loop of `create_actor` over the IO workers, with the rounds left.
  unfoldable pub create_queues : (ℕ → Resources) → ℕ → ℕ → Outcome (List (Queue efd.State))
  create_queues resources zero i = done []
  create_queues resources (suc left) i = do
    queue ← queue_init efd (resources i) 1024
    queues ← create_queues resources left (suc i)
    done (queue ∷ queues)

  unfoldable pub create_actor : ThreadCalls → ℕ → ℕ → Outcome (ActorInfo efd.State)
  create_actor calls io_worker_count id = do
    check (not calls.list_mem)
    queues ← create_queues calls.queues io_worker_count 0
    check (calls.create != 0)
    check (calls.detach != 0)
    name ← thread_name calls.name_mem (text_of "app-" ++ digits_of 20 id)
    check (calls.setname != 0)
    check (calls.setaffinity != 0)
    done (record { id = id; input_queue = queues })

  -- The loop of `main` over the cores.
  unfoldable pub create_actors :
      (ℕ → ThreadCalls) → ℕ → ℕ → ℕ → Outcome (List (ActorInfo efd.State))
  create_actors calls io_worker_count zero i = done []
  create_actors calls io_worker_count (suc left) i = do
    actor ← create_actor (calls i) io_worker_count i
    actors ← create_actors calls io_worker_count left (suc i)
    done (actor ∷ actors)

-- `create_io_worker`, whose arguments are the malloc of `args` and the thread's number.
unfoldable pub create_io_worker : ThreadCalls → ℕ → Outcome (List ℕ)
create_io_worker calls id = do
  check (not calls.list_mem)
  check (calls.create != 0)
  name ← thread_name calls.name_mem (text_of "io-" ++ digits_of 20 id)
  check (calls.setname != 0)
  done name

-- What the calls of `create_socket` give: the descriptor, if socket(2) does not return -1; whether
-- setsockopt, three times, and bind succeed, at a port in network order; and what listen returns.
pub record SocketCalls : Type 0 where
  pub socket : Option ℕ
  pub reuse : Bool
  pub nodelay : Bool
  pub quickack : Bool
  pub bind : ℕ → Bool
  pub listen : ℕ → ℕ

-- The CHECK of the result of socket(2).
abbrev pub descriptor : Option ℕ → Outcome ℕ
descriptor none = exit_failure
descriptor (some sock) = done sock

-- htons puts a port into network order.
unfoldable pub create_socket : (ℕ → ℕ) → SocketCalls → ℕ → ℕ → Outcome ℕ
create_socket htons calls port queue_length = do
  sock ← descriptor calls.socket
  check (not calls.reuse)
  check (not calls.nodelay)
  check (not calls.quickack)
  check (not (calls.bind (htons port)))
  check (calls.listen queue_length != 0)
  done sock

-- `create_stats`.
unfoldable pub create_stats : ThreadCalls → Outcome (Unit {0})
create_stats calls = do check (calls.create != 0); check (calls.setname != 0); done tt

-- The arguments of the program: their number, and what atoi gives for the two, if there are two.
pub record Arguments : Type 0 where
  pub argc : ℕ
  pub first : ℕ
  pub second : ℕ

-- The number of IO workers and the port.
abbrev pub settings : Arguments → ℕ × ℕ
settings args = if args.argc == 3 then (args.first, args.second % 2 ^ 16) else (2, 8080)

-- The loop of `main` over the IO workers, each with its listening socket.
unfoldable pub create_io_workers :
    (ℕ → ℕ) → (ℕ → SocketCalls) → (ℕ → ThreadCalls) → ℕ → ℕ → ℕ → Outcome (List ℕ)
create_io_workers htons sockets calls port zero i = done []
create_io_workers htons sockets calls port (suc left) i = do
  sock_fd ← create_socket htons (sockets i) port 10
  name ← create_io_worker (calls i) i
  others ← create_io_workers htons sockets calls port left (suc i)
  done (sock_fd ∷ others)

-- What the calls of `main` give: get_nprocs, htons, the two allocations, pthread_barrier_init for a
-- number of threads, the calls for each thread, and pthread_join.
pub record MainCalls : Type 0 where
  pub cores : ℕ
  pub htons : ℕ → ℕ
  pub stats_mem : Bool
  pub actors_mem : Bool
  pub barrier_init : ℕ → ℕ
  pub stats : ThreadCalls
  pub actors : ℕ → ThreadCalls
  pub sockets : ℕ → SocketCalls
  pub workers : ℕ → ThreadCalls
  pub join : ℕ

-- What `main` has set up when it joins the last IO worker; `startup` is the number of threads that
-- the barrier waits for.
pub record Started (Q : Type 0) : Type 0 where
  pub server : Server Q
  pub startup : ℕ
  pub sockets : List ℕ

module _ (efd : EventFd) where
  -- Without an IO worker, `io_thread` is not initialised where it is joined.
  unfoldable pub main : MainCalls → Arguments → Outcome (Started efd.State)
  main calls args = do
    let io_worker_count = (settings args).0
    stats ← server_stats_init calls.stats_mem
    check (not calls.actors_mem)
    let startup = (calls.cores + io_worker_count) % 2 ^ 32
    check (calls.barrier_init startup != 0)
    stats_thread ← create_stats calls.stats
    actors ← create_actors efd calls.actors io_worker_count calls.cores 0
    sockets ←
        create_io_workers calls.htons calls.sockets calls.workers (settings args).1 io_worker_count
          0
    if io_worker_count == 0 then fault else (do
      check (calls.join != 0)
      done (record {
        server = record {
          server_stats = stats;
          io_worker_count = io_worker_count;
          actor_count = calls.cores;
          app_actors = actors;
        };
        startup = startup;
        sockets = sockets;
      }))
