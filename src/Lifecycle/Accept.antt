-- ===== src/Lifecycle/Accept.antt =====
-- `handle_accept_read`: the beginning of a connection.
use jullop.Base.{
  ℕ, ◌<◌, ◌≡◌, refl, arith, false, true, List, [], length, none, some, add_size, done, replicate,
  malloc, length-replicate,
}
use jullop.Kernel.{Socket, Memory, Epoll, input_events}
use jullop.InputBuffer.{input_buffer_init}
use jullop.OutputBuffer.{output_buffer_init}
use jullop.RequestStats.{total_time, per_request_clear_time}
use jullop.HttpRequest.{num_headers_max}
use jullop.RequestStats.Refine.{update}
use jullop.RequestStats.Running.{Running-same, record_start_runs, clear_time_runs}
use jullop.ServerStats.{server_stats_incr_active_requests}
use jullop.EpollInfo.{add_input_epoll_event}
use jullop.RequestContext.{RequestContext, init_request_context, zero_stats, zero_header, buf_size}
use jullop.Server.{World, Connection, client_read}
use jullop.IoWorker.{Accepted, accept_connection}
use jullop.Lifecycle.{total_runs, stream_bound, IsSound, handlers, IsReading, Leaves}

starts_total : (i : ℕ) → update (λ j. false) 0 true i ≡ total_runs i
starts_total i = ground arith

-- The calls for a new connection succeed, and the client sends less than the bound.
pub record GoesWell (sock : Socket) (a : Accepted sock.State) : Type 0 where
  pub options : (a.nodelay ≡ true) × (a.quickack ≡ true)
  pub host : (a.host_mem ≡ true) × (a.named ≡ true)
  pub context : (a.context_mem ≡ true) × (a.socket_context_mem ≡ true)
  pub buffers : (a.input_mem ≡ true) × (a.output_mem ≡ true)
  pub few : length (sock.incoming a.peer) < stream_bound

-- What `init_request_context` sets up when its allocations succeed.
abbrev new_context : Memory → ℕ → List ℕ → ℕ → RequestContext
new_context mem fd host_name epoll_info = record {
  remote_host = host_name;
  fd = fd;
  actor_id = none;
  input_buffer = record {
    buffer = malloc mem.junk buf_size;
    length = buf_size;
    offset = 0;
    resize_count = 0;
  };
  http_request = record {
    method = [];
    path = [];
    minor_version = 0;
    headers = replicate num_headers_max zero_header;
    num_headers = num_headers_max;
  };
  output_buffer = record {
    buffer = malloc mem.junk buf_size;
    length = buf_size;
    write_from_offset = 0;
    write_into_offset = 0;
    resize_count = 0;
  };
  time_stats = per_request_clear_time zero_stats;
  epoll_info = epoll_info;
}

new_context-IsSound :
    (mem : Memory) (sock : Socket) (fd : ℕ) (host_name : List ℕ) (id : ℕ) (peer : sock.State)
    → length (sock.incoming peer) < stream_bound
    → IsSound sock (new_context mem fd host_name id) peer (λ i. false)
new_context-IsSound mem sock fd host_name id peer few = record {
  input_valid = record {
    sized = length-replicate buf_size mem.junk;
    filled = omega arith;
    not_empty = omega arith;
  };
  input_small = omega arith;
  stream = omega (arith, few);
  output_valid = record {
    sized = length-replicate buf_size mem.junk;
    within = omega arith;
    in_order = omega arith;
    small = omega arith;
  };
  output_small = omega arith;
  path_small = omega arith;
  timers = clear_time_runs zero_stats;
}

init_context_done :
    (mem : Memory) (fd : ℕ) (host_name : List ℕ) (id : ℕ)
    → mem.available 1024 ≡ true
    → init_request_context mem true true true fd host_name id
      ≡ done (new_context mem fd host_name id)
unfolding init_request_context input_buffer_init output_buffer_init
init_context_done mem fd host_name id memory = rw memory refl

module _ (mem : Memory) (sock : Socket) (ep : Epoll) {Q : Type 0} where
  -- Where the calls that it makes succeed, `accept_connection` gives a connection that waits for its
  -- request, and one active connection more.
  pub accept_lem :
      (a : Accepted sock.State) (w : World ep.State Q)
      → mem.available 1024 ≡ true
      → GoesWell sock a
      → ep.registered w.epoll.epoll a.conn_sock ≡ none
      → length w.server.server_stats.avg_micros ≡ 5
      → (w' : World ep.State Q) × (c : Connection sock.State) × (accept_connection mem ep a w
          ≡ done (w', c))
        × IsReading sock ep w' c a.conn_sock
        × Leaves ep a.conn_sock w w'
            (add_size w.server.server_stats.active_connections 1)
            w.server.server_stats.total_requests_processed
        × (w'.server.app_actors ≡ w.server.app_actors)
        × (c.address ≡ a.address)
  unfolding accept_connection add_input_epoll_event server_stats_incr_active_requests
  accept_lem a w memory well absent five =
      let (t, d) = ep.add_new w.epoll.epoll a.conn_sock (input_events, a.context_address) absent in
      let (_, listed, others) =
        ep.add_sets w.epoll.epoll t a.conn_sock (input_events, a.context_address) d in
      let new = new_context mem a.conn_sock a.host_name w.epoll.id in
      let sound = new_context-IsSound mem sock a.conn_sock a.host_name w.epoll.id a.peer well.few in
      let made = init_context_done mem a.conn_sock a.host_name w.epoll.id memory in
      let (started, e, run) =
        record_start_runs new.time_stats (λ j. false) total_time a.now sound.timers refl in
      let r : RequestContext = record new { time_stats = started } in
      let c : Connection sock.State = record {
        address = a.address;
        request = some r;
        context_address = a.context_address;
        context = some (handlers (some client_read) none);
        peer = a.peer;
      } in
      (
        record w {
          server = record (w.server) {
            server_stats = server_stats_incr_active_requests w.server.server_stats;
          };
          epoll = record (w.epoll) { epoll = t };
        },
        c,
        rw
            (
              well.options.0, well.options.1, well.host.0, well.host.1, well.context.0,
              well.buffers.0, well.buffers.1, made, e, well.context.1, d,
            )
            refl,
        record {
          request = r;
          shape = refl;
          on_fd = refl;
          listed = listed;
          sound = record {
            input_valid = sound.input_valid;
            input_small = sound.input_small;
            stream = sound.stream;
            output_valid = sound.output_valid;
            output_small = sound.output_small;
            path_small = sound.path_small;
            timers = Running-same started _ total_runs run starts_total;
          };
          no_output = refl;
        },
        record {
          five = five;
          active_is = refl;
          total_is = refl;
          others = others;
          same_worker = refl;
          same_count = refl;
        },
        refl,
        refl,
      )
