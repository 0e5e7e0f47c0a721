-- ===== src/System/Program.antt =====
-- A program with four cores and three IO workers, whose calls all succeed.
use jullop.Base.{◌+◌, ◌*◌, ◌%◌, ◌/◌, refl, arith, true, some}
use jullop.Kernel.Counting.{counting}
use jullop.Kernel.Pipe.{pipe}
use jullop.Kernel.Table.{Registrations, table}
use jullop.Main.{ThreadCalls, SocketCalls, MainCalls, Arguments}
use jullop.Main.Startup.{GoWell}
use jullop.Main.Starting.{AllWell}
use jullop.IoWorker.{WorkerCalls}
use jullop.Lifecycle.Scene.{nothing}
use jullop.System.Startup.{StartsWell}

abbrev thread_calls : ThreadCalls
thread_calls = record {
  list_mem = true;
  queues = λ i. record { queue_mem = true; ring_mem = true; mutex_init = 0 };
  create = 0;
  detach = 0;
  name_mem = true;
  setname = 0;
  setaffinity = 0;
}

abbrev socket_calls : SocketCalls
socket_calls = record {
  socket = some 3;
  reuse = true;
  nodelay = true;
  quickack = true;
  bind = λ port. true;
  listen = λ backlog. 0;
}

-- Four cores, three IO workers and port 80.
abbrev pub program_calls : MainCalls
program_calls = record {
  cores = 4;
  htons = λ port. port % 256 * 256 + port / 256;
  stats_mem = true;
  actors_mem = true;
  barrier_init = λ n. 0;
  stats = thread_calls;
  actors = λ i. thread_calls;
  sockets = λ i. socket_calls;
  workers = λ i. thread_calls;
  join = 0;
}

abbrev pub two_arguments : Arguments
two_arguments = record { argc = 3; first = 3; second = 80 }

thread_calls-GoWell : GoWell thread_calls
thread_calls-GoWell = record {
  list = refl;
  queue = λ j. (refl, refl);
  mutex = λ j. refl;
  name = refl;
  threads = (refl, refl);
  set = (refl, refl);
}

pub program_calls-AllWell : AllWell program_calls two_arguments
program_calls-AllWell = record {
  stats_mem = refl;
  actors_mem = refl;
  barrier = λ n. refl;
  stats = thread_calls-GoWell;
  actors = λ i. thread_calls-GoWell;
  sockets = λ i. record {
    sock = 3;
    opened = refl;
    options = (refl, refl, refl);
    bound = refl;
    listens = refl;
  };
  workers = λ i. thread_calls-GoWell;
  few_actors = omega arith;
  few_workers = omega arith;
  some_worker = omega arith;
  join = refl;
}

abbrev pub worker_calls : WorkerCalls Registrations
worker_calls = record {
  epoll_mem = true;
  epoll = some nothing;
  context_mem = true;
  context_address = 20;
}

pub worker_calls-StartsWell : StartsWell pipe table counting worker_calls
worker_calls-StartsWell = record {
  epoll_mem = refl;
  instance_of = nothing;
  created = refl;
  nothing = λ fd. refl;
  context_mem = refl;
}
