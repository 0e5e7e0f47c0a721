-- ===== src/Client.antt =====
-- src/client.c: what an IO worker does for a connection when its descriptor is ready.
pub mod Headers
mod Examples
use jullop.Base.{
  ℕ, Bool, true, false, not, Option, none, some, add_size, ◌==◌, if◌then◌else◌, Outcome, done,
  ◌>>=◌, ◌>>◌, check, load, store, rem_size,
}
use jullop.Kernel.{Socket, Memory, Epoll, EventFd}
use jullop.Ring.Api.{QueueResult, success, failure}
use jullop.InputBuffer.{
  ReadState, read_finish, read_busy, read_error, client_disconnect, input_buffer_read_into,
}
use jullop.OutputBuffer.{WriteState, write_finish, write_busy, write_error, output_buffer_write_to}
use jullop.RequestStats.{
  total_time, client_read_time, client_write_time, queue_time, per_request_record_start,
  per_request_record_end,
}
use jullop.MrmwQueue.{queue_push}
use jullop.ServerStats.{
  server_stats_record_request, server_stats_incr_total_requests, server_stats_decr_active_requests,
}
use jullop.HttpRequest.{
  Parser, ParseState, parse_finish, parse_error, parse_incomplete, http_request_parse,
}
use jullop.EpollInfo.{mod_input_epoll_event, delete_epoll_event}
use jullop.RequestContext.{
  RequestContext, RequestResult, request_success, request_epoll_error, request_read_error,
  request_client_error, request_write_error, context_keep_alive, context_finalize_reset,
  context_finalize_destroy,
}
use jullop.Server.{World, Connection, SocketContext, client_read, client_error, Env, deref}

-- The inner switch of `try_parse_http_request`.
abbrev pub parsed_state : ParseState → ReadState
parsed_state parse_finish = read_finish
parsed_state parse_error = read_error
parsed_state parse_incomplete = read_busy

-- The outer switch.
unfoldable pub parse_after : Parser → ReadState → ℕ → RequestContext → ReadState × RequestContext
parse_after parser read_error prev_len context = (read_error, context)
parse_after parser client_disconnect prev_len context = (client_disconnect, context)
parse_after parser read_finish prev_len context =
    let (state, request) =
      http_request_parse parser context.input_buffer prev_len context.http_request in
    (parsed_state state, record context { http_request = request })
parse_after parser read_busy prev_len context =
    let (state, request) =
      http_request_parse parser context.input_buffer prev_len context.http_request in
    (parsed_state state, record context { http_request = request })

abbrev pub succeeded : QueueResult → Bool
succeeded success = true
succeeded failure = false

module _ (mem : Memory) (sock : Socket) (parser : Parser) where
  -- `fuel` is that of the loop over read(2).
  unfoldable pub try_parse_http_request :
      ℕ → RequestContext → sock.State → Outcome (ReadState × RequestContext × sock.State)
  try_parse_http_request fuel context peer = do
    let prev_len = context.input_buffer.offset
    (state, buffer, peer') ← input_buffer_read_into mem sock fuel context.input_buffer peer
    let (state', context') =
        parse_after parser state prev_len (record context { input_buffer = buffer })
    done (state', context', peer')

module _ (ep : Epoll) (efd : EventFd) {S : Type 0} (env : Env) where
  unfoldable pub client_close_connection :
      RequestResult
      → World ep.State efd.State
      → Connection S
      → Outcome (World ep.State efd.State × Connection S)
  client_close_connection result w c = do
    context ← deref c.context
    request ← deref c.request
    timed ← per_request_record_end request.time_stats total_time (env.now 2)
    stats ←
        server_stats_record_request
          (server_stats_incr_total_requests
            (server_stats_decr_active_requests w.server.server_stats))
          timed
    epoll ← delete_epoll_event ep w.epoll request.fd
    _ ← context_finalize_destroy env.closed (record request { time_stats = timed }) result
    done (
      record w { server = record (w.server) { server_stats = stats }; epoll = epoll },
      record c { request = none; context = none },
    )

  unfoldable pub client_reset_connection :
      RequestResult
      → World ep.State efd.State
      → Connection S
      → Outcome (World ep.State efd.State × Connection S)
  client_reset_connection result w c = do
    context ← deref c.context
    request ← deref c.request
    timed ← per_request_record_end request.time_stats total_time (env.now 2)
    stats ←
        server_stats_record_request (server_stats_incr_total_requests w.server.server_stats) timed
    let fresh = context_finalize_reset (record request { time_stats = timed }) result
    started ← per_request_record_start fresh.time_stats total_time (env.now 3)
    epoll ← mod_input_epoll_event ep w.epoll request.fd c.context_address
    done (
      record w { server = record (w.server) { server_stats = stats }; epoll = epoll },
      record c {
        request = some (record fresh { time_stats = started });
        context = some (record context {
          input_handler = some client_read;
          output_handler = none;
          error_handler = some client_error;
        });
      },
    )

  -- The case READ_FINISH of `client_handle_read`.
  unfoldable pub send_to_actor :
      World ep.State efd.State → Connection S → Outcome (World ep.State efd.State × Connection S)
  send_to_actor w c = do
    request ← deref c.request
    epoll ← delete_epoll_event ep w.epoll request.fd
    actor_id ← rem_size w.count w.server.actor_count
    actor_info ← load w.server.app_actors actor_id
    input_queue ← load actor_info.input_queue w.epoll.id
    timed ← per_request_record_start request.time_stats queue_time (env.now 2)
    (queue_result, pushed) ← queue_push efd env.mutex input_queue c.address
    check (not (succeeded queue_result))
    queues ← store actor_info.input_queue w.epoll.id pushed
    actors ← store w.server.app_actors actor_id (record actor_info { input_queue = queues })
    context ← deref c.context
    done (
      record w {
        server = record (w.server) { app_actors = actors };
        epoll = epoll;
        count = add_size w.count 1;
      },
      record c { request = some (record request { time_stats = timed }); context = none },
    )

  -- The switch of `client_handle_read`.
  unfoldable pub after_read :
      ReadState
      → World ep.State efd.State
      → Connection S
      → Outcome (World ep.State efd.State × Connection S)
  after_read read_finish w c = send_to_actor w c
  after_read read_error w c = client_close_connection request_read_error w c
  after_read client_disconnect w c = client_close_connection request_client_error w c
  after_read read_busy w c = done (w, c)

  -- The switch of `client_handle_write`.
  unfoldable pub after_write :
      WriteState
      → ℕ
      → World ep.State efd.State
      → Connection S
      → Outcome (World ep.State efd.State × Connection S)
  after_write write_busy keep w c = done (w, c)
  after_write write_error keep w c = client_close_connection request_write_error w c
  after_write write_finish keep w c =
      if keep == 1
      then client_reset_connection request_success w c
      else client_close_connection request_success w c

  -- The tests on the kind of error only choose what is printed.
  unfoldable pub client_handle_error :
      World ep.State efd.State → Connection S → Outcome (World ep.State efd.State × Connection S)
  client_handle_error w c = client_close_connection request_epoll_error w c

module _ (mem : Memory) (sock : Socket) (parser : Parser) (ep : Epoll) (efd : EventFd) (env : Env)
    (fuel : ℕ) where
  unfoldable pub client_handle_read :
      World ep.State efd.State
      → Connection sock.State
      → Outcome (World ep.State efd.State × Connection sock.State)
  client_handle_read w c = do
    context ← deref c.context
    request ← deref c.request
    started ← per_request_record_start request.time_stats client_read_time (env.now 0)
    (state, read, peer) ←
        try_parse_http_request mem sock parser fuel (record request { time_stats = started }) c.peer
    ended ← per_request_record_end read.time_stats client_read_time (env.now 1)
    after_read ep efd env state w
        (record c { request = some (record read { time_stats = ended }); peer = peer })

  unfoldable pub client_handle_write :
      World ep.State efd.State
      → Connection sock.State
      → Outcome (World ep.State efd.State × Connection sock.State)
  client_handle_write w c = do
    context ← deref c.context
    request ← deref c.request
    started ← per_request_record_start request.time_stats client_write_time (env.now 0)
    (state, buffer, peer) ← output_buffer_write_to sock fuel request.output_buffer c.peer
    ended ← per_request_record_end started client_write_time (env.now 1)
    let written = record request { time_stats = ended; output_buffer = buffer }
    after_write ep efd env state (context_keep_alive written) w
        (record c { request = some written; peer = peer })
