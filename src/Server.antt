-- ===== src/Server.antt =====
-- src/server.h and src/io_worker.h: the state that the threads share, the callbacks that are attached
-- to a descriptor, and the memory of one connection.

use jullop.Base.{ℕ, List, Option, none, some, Outcome, done, fault}
use jullop.RequestStats.{Timespec}
use jullop.MrmwQueue.{Queue, Mutex}
use jullop.ServerStats.{ServerWideStats}
use jullop.EpollInfo.{EpollInfo}
use jullop.RequestContext.{RequestContext}

-- `struct ActorInfo`; `Q` is the state of an event descriptor. The thread's own fields are left out.
pub record ActorInfo (Q : Type 0) : Type 0 where
  pub id : ℕ
  pub input_queue : List (Queue Q)

-- `struct Server`
pub record Server (Q : Type 0) : Type 0 where
  pub server_stats : ServerWideStats
  pub io_worker_count : ℕ
  pub actor_count : ℕ
  pub app_actors : List (ActorInfo Q)

-- The functions that `input_handler` and `output_handler` can point to, and those of
-- `error_handler`.
pub data Handler : Type 0 where
  accept_read client_read client_write : Handler

pub data ErrorHandler : Type 0 where
  accept_error client_error : ErrorHandler

-- `struct SocketContext`; `none` is NULL. `server` and `epoll_info` are the same for all contexts of a
-- worker, and `data` is the connection that has the context.
pub record SocketContext : Type 0 where
  pub input_handler : Option Handler
  pub output_handler : Option Handler
  pub error_handler : Option ErrorHandler

-- What an IO worker acts on: the server, its epoll instance `E`, and `count` of client.c.
pub record World (E Q : Type 0) : Type 0 where
  pub server : Server Q
  pub epoll : EpollInfo E
  pub count : ℕ

-- The memory of one connection: its request context and its socket context, each with its address and
-- `none` once it is freed, and its socket.
pub record Connection (S : Type 0) : Type 0 where
  pub address : ℕ
  pub request : Option RequestContext
  pub context_address : ℕ
  pub context : Option SocketContext
  pub peer : S

-- A read through a pointer, and free(3): undefined when the memory is freed already.
abbrev pub deref {ℓ} : {A : Type ℓ} → Option A → Outcome A
deref none = fault
deref (some a) = done a

-- What the calls outside the program give in one run of a handler: the readings of the clock in their
-- order, the results of the mutex, and that of close(2).
pub record Env : Type 0 where
  pub now : ℕ → Timespec
  pub mutex : Mutex
  pub closed : ℕ
