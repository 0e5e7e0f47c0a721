-- ===== src/Lifecycle.antt =====
-- The life of a connection across src/io_worker.c, src/client.c and src/actor.c: the phases that it
-- is in between two calls of a handler, and what holds in each.
pub mod Accept
pub mod Answer
pub mod Close
pub mod Reset
pub mod Send
pub mod Write
pub mod Full
pub mod Dispatch
pub mod Turn
pub mod Scene
mod Examples
pub mod Parse
pub mod Read
use jullop.Base.{
  ℕ, add_size, sub_size, ◌+◌, ◌*◌, ◌^◌, ◌≤◌, ◌<◌, ◌≡◌, ◌≢◌, Bool, true, ◌==◌, if◌then◌else◌, List,
  length, Option, none, some,
}
use jullop.Kernel.{Socket, Epoll, Interest, input_events, output_events}
use jullop.InputBuffer.Growth as Input
use jullop.OutputBuffer.Appending as Output
use jullop.RequestStats.{PerRequestStats}
use jullop.RequestStats.Refine.{update}
use jullop.RequestStats.Running.{Running}
use jullop.RequestContext.{RequestContext}
use jullop.Server.{
  World, Connection, SocketContext, Handler, client_read, client_write, client_error,
}

pub data Phase : Type 0 where
  reading : Phase  -- the IO worker waits for the request
  queued : Phase  -- the request is the actor's
  writing : Phase  -- the IO worker waits to write the response
  closed : Phase

-- Which timers run between two handlers: TOTAL_TIME, and QUEUE_TIME too while the request is queued.
abbrev pub total_runs : ℕ → Bool
total_runs i = i == 0

abbrev pub queue_runs : ℕ → Bool
queue_runs = update total_runs 4 true

-- Bounds on what one client sends, and on the blocks of its buffers.
abbrev pub stream_bound : ℕ
stream_bound = 2 ^ 28

module _ (sock : Socket) where
  -- What holds of a request context while it is allocated.
  pub record IsSound (r : RequestContext) (peer : sock.State) (runs : ℕ → Bool) : Type 0 where
    pub input_valid : Input.IsValid r.input_buffer
    pub input_small : r.input_buffer.length < 2 * stream_bound
    pub stream : r.input_buffer.offset + length (sock.incoming peer) < stream_bound
    pub output_valid : Output.IsValid r.output_buffer
    pub output_small : r.output_buffer.length ≤ 8 * stream_bound
    pub path_small : length r.http_request.path < 2 * stream_bound
    pub timers : Running r.time_stats runs

abbrev pub handlers : Option Handler → Option Handler → SocketContext
handlers input output = record {
  input_handler = input;
  output_handler = output;
  error_handler = some client_error;
}

-- A connection with these two contexts.
abbrev pub holding :
    {S : Type 0} → Connection S → Option RequestContext → Option SocketContext → Connection S
holding c request context = record c { request = request; context = context }

module _ (sock : Socket) (ep : Epoll) {Q : Type 0} where
  abbrev registration : World ep.State Q → ℕ → Option (Interest × ℕ)
  registration w fd = ep.registered w.epoll.epoll fd

  pub record IsReading (w : World ep.State Q) (c : Connection sock.State) (fd : ℕ) : Type 0 where
    pub request : RequestContext
    pub shape : c ≡ holding c (some request) (some (handlers (some client_read) none))
    pub on_fd : request.fd ≡ fd
    pub listed : registration w fd ≡ some (input_events, c.context_address)
    pub sound : IsSound sock request c.peer total_runs
    pub no_output : request.output_buffer.write_into_offset ≡ 0

  pub record IsQueued (w : World ep.State Q) (c : Connection sock.State) (fd : ℕ) : Type 0 where
    pub request : RequestContext
    pub shape : c ≡ holding c (some request) none
    pub on_fd : request.fd ≡ fd
    pub unlisted : registration w fd ≡ none
    pub sound : IsSound sock request c.peer queue_runs
    pub no_output : request.output_buffer.write_into_offset ≡ 0

  pub record IsWriting (w : World ep.State Q) (c : Connection sock.State) (fd : ℕ) : Type 0 where
    pub request : RequestContext
    pub shape : c ≡ holding c (some request) (some (handlers none (some client_write)))
    pub on_fd : request.fd ≡ fd
    pub listed : registration w fd ≡ some (output_events, c.context_address)
    pub sound : IsSound sock request c.peer total_runs

  pub record IsClosed (w : World ep.State Q) (c : Connection sock.State) (fd : ℕ) : Type 0 where
    pub shape : c ≡ holding c none none
    pub unlisted : registration w fd ≡ none

  abbrev pub InPhase : Phase → World ep.State Q → Connection sock.State → ℕ → Type 0
  InPhase reading = IsReading
  InPhase queued = IsQueued
  InPhase writing = IsWriting
  InPhase closed = IsClosed

module _ (ep : Epoll) {Q : Type 0} where
  -- What a handler of the connection with the descriptor `fd` leaves of the worker's state.
  pub record Leaves (fd : ℕ) (w w' : World ep.State Q) (active total : ℕ) : Type 0 where
    pub five : length w'.server.server_stats.avg_micros ≡ 5
    pub active_is : w'.server.server_stats.active_connections ≡ active
    pub total_is : w'.server.server_stats.total_requests_processed ≡ total
    pub others :
        (other : ℕ)
        → other ≢ fd
        → ep.registered w'.epoll.epoll other ≡ ep.registered w.epoll.epoll other
    pub same_worker : w'.epoll.id ≡ w.epoll.id
    pub same_count : w'.server.actor_count ≡ w.server.actor_count

-- The counters after a handler that brings a connection into a phase.
abbrev pub active_after : Phase → ℕ → ℕ
active_after closed active = sub_size active 1
active_after _ active = active

abbrev pub read_total_after : Phase → ℕ → ℕ
read_total_after closed total = add_size total 1
read_total_after _ total = total
