-- ===== src/IoWorker.antt =====
-- src/io_worker.c: the thread that accepts connections and calls the handlers of those that are ready.
use jullop.Base.{
  ℕ, Bool, not, ◌||◌, List, [], ◌∷◌, Option, none, some, if◌then◌else◌, Outcome, done, exit_failure,
  unfinished, ◌>>=◌, ◌>>◌, check,
}
use jullop.Kernel.{Memory, Epoll}
use jullop.RequestStats.{total_time, Timespec, per_request_record_start}
use jullop.ServerStats.{server_stats_incr_active_requests}
use jullop.EpollInfo.{EpollInfo, epoll_info_init, add_input_epoll_event}
use jullop.RequestContext.{init_request_context}
use jullop.Server.{
  World, Connection, SocketContext, Handler, ErrorHandler, accept_read, accept_error, client_read,
  client_error,
}

-- The flags of `struct epoll_event`.
pub record Events : Type 0 where
  pub epollerr : Bool
  pub epollrdhup : Bool
  pub epollhup : Bool
  pub epollpri : Bool
  pub epollin : Bool
  pub epollout : Bool

-- A call through a handler that is not NULL.
abbrev pub call_unless_null {ℓ κ} :
    {A : Type ℓ} {S : Type κ} → Option A → (A → S → Outcome S) → S → Outcome S
call_unless_null none call s = done s
call_unless_null (some h) call s = call h s

module _ {S : Type 0} (socket_context : S → Outcome SocketContext) (call : Handler → S → Outcome S)
    (call_error : ErrorHandler → S → Outcome S) where
  abbrev on_error : S → Outcome S
  on_error s = socket_context s >>= λ context. call_unless_null context.error_handler call_error s

  abbrev on_input : S → Outcome S
  on_input s = socket_context s >>= λ context. call_unless_null context.input_handler call s

  abbrev on_output : S → Outcome S
  on_output s = socket_context s >>= λ context. call_unless_null context.output_handler call s

  -- The body of the `for` loop of `io_event_loop`. `socket_context` reads the memory that data.ptr
  -- points to.
  unfoldable pub dispatch_event : Events → S → Outcome S
  dispatch_event events s =
      if events.epollerr || (events.epollrdhup || (events.epollhup || events.epollpri))
      then on_error s
      else ((if events.epollin then on_input s else done s) >>= λ s'.
          if events.epollout then on_output s' else done s')

-- A connection that accept(2) returns, with what the calls on it give: whether setsockopt, twice,
-- calloc and the allocations of the context succeed, whether getnameinfo gives anything but -1, the name of the host, the addresses
-- of the two contexts, and the reading of the clock.
pub record Accepted (S : Type 0) : Type 0 where
  pub conn_sock : ℕ
  pub peer : S
  pub nodelay : Bool
  pub quickack : Bool
  pub host_mem : Bool
  pub named : Bool
  pub host_name : List ℕ
  pub context_mem : Bool
  pub input_mem : Bool
  pub output_mem : Bool
  pub socket_context_mem : Bool
  pub address : ℕ
  pub context_address : ℕ
  pub now : Timespec

-- What accept(2) gives: a connection, -1 with errno EAGAIN or EWOULDBLOCK, or -1 with another errno.
pub data AcceptResult (S : Type 0) : Type 0 where
  accepted : Accepted S → AcceptResult S
  would_block accept_failed : AcceptResult S

module _ (mem : Memory) (ep : Epoll) {Q S : Type 0} where
  -- The body of the loop of `handle_accept_read` behind the test of accept(2)'s result.
  unfoldable pub accept_connection :
      Accepted S → World ep.State Q → Outcome (World ep.State Q × Connection S)
  accept_connection a w = do
    check (not a.nodelay)
    check (not a.quickack)
    check (not a.host_mem)
    check (not a.named)
    let stats = server_stats_incr_active_requests w.server.server_stats
    request ←
        init_request_context mem a.context_mem a.input_mem a.output_mem a.conn_sock a.host_name
          w.epoll.id
    started ← per_request_record_start request.time_stats total_time a.now
    check (not a.socket_context_mem)
    epoll ← add_input_epoll_event ep w.epoll request.fd a.context_address
    done (
      record w { server = record (w.server) { server_stats = stats }; epoll = epoll },
      record {
        address = a.address;
        request = some (record request { time_stats = started });
        context_address = a.context_address;
        context = some (record {
          input_handler = some client_read;
          output_handler = none;
          error_handler = some client_error;
        });
        peer = a.peer;
      },
    )

  -- `handle_accept_read`; the list is what its calls of accept(2) give. The new connections are
  -- returned in their order.
  unfoldable pub handle_accept_read :
      List (AcceptResult S) → World ep.State Q → Outcome (World ep.State Q × List (Connection S))
  handle_accept_read [] w = unfinished
  handle_accept_read (would_block ∷ results) w = done (w, [])
  handle_accept_read (accept_failed ∷ results) w = exit_failure
  handle_accept_read (accepted a ∷ results) w =
      accept_connection a w >>= λ p. handle_accept_read results p.0 >>= λ r. done (r.0, p.1 ∷ r.1)

-- `init_context`, and the fields that are set in what it allocates.
unfoldable pub init_context : Bool → SocketContext → Outcome SocketContext
init_context context_mem context = check (not context_mem) >> done context

-- What the calls at the beginning of `io_event_loop` give: the allocations of the epoll information
-- and of the context, epoll_create, and where the context lies.
pub record WorkerCalls (S : Type 0) : Type 0 where
  pub epoll_mem : Bool
  pub epoll : Option S
  pub context_mem : Bool
  pub context_address : ℕ

-- `io_event_loop` up to its loop.
unfoldable pub start_io_worker :
    (ep : Epoll) → WorkerCalls ep.State → ℕ → ℕ → Outcome (EpollInfo ep.State × SocketContext)
start_io_worker ep calls id sock_fd = do
  epoll_info ← epoll_info_init ep calls.epoll_mem calls.epoll id
  context ← init_context calls.context_mem (record {
    input_handler = some accept_read;
    output_handler = none;
    error_handler = some accept_error;
  })
  epoll ← add_input_epoll_event ep epoll_info sock_fd calls.context_address
  done (epoll, context)
