-- ===== src/Lifecycle/Scene.antt =====
-- A server with one connection in each of its phases, over the pipe, the table and the counting
-- descriptor.
use jullop.Base.{ℕ, zero, suc, ◌<◌, ◌≡◌, refl, arith, true, [], ◌∷◌, none, some, replicate, ◌!=◌}
use jullop.Kernel.{Memory, input_events, output_events}
use jullop.Kernel.Pipe.{Pipe, pipe}
use jullop.Kernel.Table.{Registrations, table}
use jullop.Kernel.Counting.{counting}
use jullop.InputBuffer.{InputBuffer}
use jullop.OutputBuffer.{OutputBuffer}
use jullop.RequestStats.{PerRequestStats, epoch, bit}
use jullop.MrmwQueue.{Queue}
use jullop.MrmwQueue.Invariant.{Represents}
use jullop.HttpRequest.{Parser, consumed}
use jullop.RequestContext.{RequestContext}
use jullop.Server.{World, Connection, ActorInfo, Env, client_read, client_write}
use jullop.Lifecycle.{total_runs, queue_runs, IsSound, handlers, IsReading, IsQueued, IsWriting}
use jullop.Lifecycle.Send.{CanPush}

abbrev pub memory : Memory
memory = record { available = λ n. true; junk = 0 }

-- A parser that takes every request for "/".
abbrev pub root_parser : Parser
root_parser = record {
  phr_parse_request = λ buf num_headers last_len.
      (consumed 1, record { method = []; path = []; minor_version = 1; headers = [] });
  headers_fit = λ buf num_headers last_len. omega arith;
  path_inside = λ buf num_headers last_len. omega arith;
}

abbrev pub calls : Env
calls = record { now = λ n. epoch; mutex = record { lock = 0; unlock = 0 }; closed = 0 }

-- TOTAL_TIME runs, and for the second QUEUE_TIME too.
abbrev pub total_timed : PerRequestStats
total_timed = record { start = replicate 5 epoch; total_micros = replicate 5 0; is_time_set = 1 }

abbrev queue_timed : PerRequestStats
queue_timed = record { start = replicate 5 epoch; total_micros = replicate 5 0; is_time_set = 17 }

total_bits : (i : ℕ) → i < 5 → (bit 1 i != 0) ≡ total_runs i
total_bits zero h = refl
total_bits (suc zero) h = refl
total_bits (suc (suc zero)) h = refl
total_bits (suc (suc (suc zero))) h = refl
total_bits (suc (suc (suc (suc zero)))) h = refl
total_bits (suc (suc (suc (suc (suc i))))) h = absurd (omega arith)

queue_bits : (i : ℕ) → i < 5 → (bit 17 i != 0) ≡ queue_runs i
queue_bits zero h = refl
queue_bits (suc zero) h = refl
queue_bits (suc (suc zero)) h = refl
queue_bits (suc (suc (suc zero))) h = refl
queue_bits (suc (suc (suc (suc zero)))) h = refl
queue_bits (suc (suc (suc (suc (suc i))))) h = absurd (omega arith)

abbrev block : InputBuffer
block = record { buffer = replicate 8 0; length = 8; offset = 0; resize_count = 0 }

abbrev pub no_response : OutputBuffer
no_response = record {
  buffer = replicate 8 0;
  length = 8;
  write_from_offset = 0;
  write_into_offset = 0;
  resize_count = 0;
}

abbrev response : OutputBuffer
response = record no_response { write_into_offset = 3 }

abbrev pub request : OutputBuffer → PerRequestStats → RequestContext
request output stats = record {
  remote_host = [];
  fd = 5;
  actor_id = none;
  input_buffer = block;
  http_request = record {
    method = [];
    path = 47 ∷ [];
    minor_version = 1;
    headers = [];
    num_headers = 0;
  };
  output_buffer = output;
  time_stats = stats;
  epoll_info = 0;
}

abbrev pub client : Pipe
client = record { incoming = 71 ∷ 69 ∷ 84 ∷ []; outgoing = [] }

abbrev pub queue : Queue ℕ
queue = record {
  max_size = 2;
  current_size = 0;
  ring_buffer = 0 ∷ 0 ∷ [];
  enqueue_offset = 0;
  dequeue_offset = 0;
  add_event = 0;
}

pub queue-Represents : Represents queue []
queue-Represents = ground arith

abbrev actor : ActorInfo ℕ
actor = record { id = 0; input_queue = queue ∷ [] }

-- A server with one actor and one IO worker, and what the worker has registered.
abbrev pub world : Registrations → World Registrations ℕ
world registered = record {
  server = record {
    server_stats = record {
      avg_micros = replicate 5 0;
      active_connections = 1;
      total_requests_processed = 0;
    };
    io_worker_count = 1;
    actor_count = 1;
    app_actors = actor ∷ [];
  };
  epoll = record { epoll = registered; id = 0 };
  count = 0;
}

abbrev pub nothing : Registrations
nothing fd = none

abbrev pub for_input : Registrations
for_input fd = some (input_events, 100)

abbrev pub for_output : Registrations
for_output fd = some (output_events, 100)

abbrev pub waiting : Connection Pipe
waiting = record {
  address = 50;
  request = some (request no_response total_timed);
  context_address = 100;
  context = some (handlers (some client_read) none);
  peer = client;
}

abbrev pub in_queue : Connection Pipe
in_queue = record waiting { request = some (request no_response queue_timed); context = none }

abbrev pub answered : Connection Pipe
answered = record waiting {
  request = some (request response total_timed);
  context = some (handlers none (some client_write));
}

pub empty-IsSound : IsSound pipe (request no_response total_timed) client total_runs
empty-IsSound = record {
  input_valid = record { sized = refl; filled = omega arith; not_empty = omega arith };
  input_small = omega arith;
  stream = omega arith;
  output_valid = record {
    sized = refl;
    within = omega arith;
    in_order = omega arith;
    small = omega arith;
  };
  output_small = omega arith;
  path_small = omega arith;
  timers = record { byte = omega arith; starts = refl; totals = refl; bits = total_bits };
}

pub waiting-IsReading : IsReading pipe table (world for_input) waiting 5
waiting-IsReading = record {
  request = request no_response total_timed;
  shape = refl;
  on_fd = refl;
  listed = refl;
  sound = empty-IsSound;
  no_output = refl;
}

pub in_queue-IsQueued : IsQueued pipe table (world nothing) in_queue 5
in_queue-IsQueued = record {
  request = request no_response queue_timed;
  shape = refl;
  on_fd = refl;
  unlisted = refl;
  sound = record {
    input_valid = empty-IsSound.input_valid;
    input_small = empty-IsSound.input_small;
    stream = empty-IsSound.stream;
    output_valid = empty-IsSound.output_valid;
    output_small = empty-IsSound.output_small;
    path_small = empty-IsSound.path_small;
    timers = record { byte = omega arith; starts = refl; totals = refl; bits = queue_bits };
  };
  no_output = refl;
}

pub answered-IsWriting : IsWriting pipe table (world for_output) answered 5
answered-IsWriting = record {
  request = request response total_timed;
  shape = refl;
  on_fd = refl;
  listed = refl;
  sound = record {
    input_valid = empty-IsSound.input_valid;
    input_small = empty-IsSound.input_small;
    stream = empty-IsSound.stream;
    output_valid = record {
      sized = refl;
      within = omega arith;
      in_order = omega arith;
      small = omega arith;
    };
    output_small = empty-IsSound.output_small;
    path_small = empty-IsSound.path_small;
    timers = empty-IsSound.timers;
  };
}

pub can_push : (r : Registrations) → CanPush table counting (world r) calls.mutex
can_push r = record {
  works = (refl, refl);
  some_actor = omega arith;
  items = [];
  at = record {
    info = actor;
    queue = queue;
    actor_at = refl;
    queue_at = refl;
    holds = queue-Represents;
  };
  quiet = omega arith;
}
