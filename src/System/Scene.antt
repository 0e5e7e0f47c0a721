-- ===== src/System/Scene.antt =====
-- A server with one connection, over the pipe, the table and the counting descriptor: new, read from,
-- and in an actor's queue.
use jullop.Base.{
  ℕ, zero, suc, ◌^◌, ◌≢◌, ◌+◌, ◌<◌, ◌≡◌, ◌==◌, refl, arith, true, false, [], ◌∷◌, none, some, done,
  if◌then◌else◌,
}
use jullop.Kernel.{input_events}
use jullop.Kernel.Pipe.{Pipe, pipe}
use jullop.Kernel.Table.{Registrations, table}
use jullop.Kernel.Counting.{counting}
use jullop.RequestStats.{epoch}
use jullop.MrmwQueue.{Queue}
use jullop.MrmwQueue.Invariant.{Represents}
use jullop.Server.{World, Connection}
use jullop.IoWorker.{Accepted, Events, accept_connection}
use jullop.Lifecycle.{Phase, closed, Leaves, reading, queued, InPhase, IsReading}
use jullop.Lifecycle.Accept.{accept_lem, GoesWell}
use jullop.Lifecycle.Send.{QueueAt}
use jullop.Lifecycle.Scene.{
  memory, client, queue, queue-Represents, world, nothing, for_input, waiting, in_queue,
  waiting-IsReading, in_queue-IsQueued,
}
use jullop.System.{Entry, State}
use jullop.System.Invariant.{IsSystem, InPhase-same}
use jullop.System.Queues.{HasQueue}
use jullop.System.Safety.{Starts}

abbrev pub Server : Type 0
Server = State Registrations ℕ Pipe

-- The listening socket is 3.
abbrev pub listen : ℕ
listen = 3

-- The scene's world, with other connections and another queue.
abbrev pub world_with : Registrations → ℕ → Queue ℕ → World Registrations ℕ
world_with registered active q =
    let w = world registered in
    record w {
      server = record (w.server) {
        server_stats = record (w.server.server_stats) { active_connections = active };
        app_actors = record { id = 0; input_queue = q ∷ [] } ∷ [];
      };
    }

abbrev pub fresh : Server
fresh = record { world = world_with nothing 0 queue; entries = []; left = λ i. 0 }

-- The actor's queue is the first, and the only one.
pub only_queue : (P : ℕ → Type 0) → P 0 → (i : ℕ) → i < 1 → P i
only_queue P first zero small = first
only_queue P first (suc i) small = absurd (omega arith)

pub fresh-Starts : Starts pipe table counting listen fresh
fresh-Starts = record {
  no_entries = refl;
  five = refl;
  some_actor = omega arith;
  no_connections = refl;
  only_listen = λ fd ne. refl;
  idle = λ i. refl;
  empty =
      only_queue
        (λ i.
          (at : QueueAt ℕ fresh.world.server.app_actors i 0 []) × (at.queue.add_event ≡ 0)
          × (at.queue.max_size < 2 ^ 32))
        (
          record {
            info = record { id = 0; input_queue = queue ∷ [] };
            queue = queue;
            actor_at = refl;
            queue_at = refl;
            holds = queue-Represents;
          },
          refl,
          omega arith,
        );
}

abbrev pub arrival : Accepted Pipe
arrival = record {
  conn_sock = 5;
  peer = client;
  nodelay = true;
  quickack = true;
  host_mem = true;
  named = true;
  host_name = [];
  context_mem = true;
  input_mem = true;
  output_mem = true;
  socket_context_mem = true;
  address = 50;
  context_address = 100;
  now = epoch;
}

pub arrival-GoesWell : GoesWell pipe arrival
arrival-GoesWell = record {
  options = (refl, refl);
  host = (refl, refl);
  context = (refl, refl);
  buffers = (refl, refl);
  few = omega arith;
}

-- The connection that `accept_connection` makes of it.
abbrev pub accepted :
    (w' : World Registrations ℕ) × (c : Connection Pipe) × (accept_connection memory table arrival
        fresh.world
      ≡ done (w', c))
    × IsReading pipe table w' c 5
    × Leaves table 5 fresh.world w' 1 0
    × (w'.server.app_actors ≡ fresh.world.server.app_actors)
    × (c.address ≡ 50)
accepted = accept_lem memory pipe table arrival fresh.world refl arrival-GoesWell refl refl

abbrev pub with_client : Server
with_client = record fresh {
  world = accepted.0;
  entries = record { fd = 5; actor = 0; connection = accepted.1 } ∷ [];
}

-- The client's descriptor is registered for input.
abbrev pub one_client : Registrations
one_client fd = if fd == 5 then some (input_events, 100) else none

abbrev pub entry : Connection Pipe → Entry Pipe
entry c = record { fd = 5; actor = 0; connection = c }

abbrev pub reading_client : Server
reading_client = record {
  world = world_with one_client 1 queue;
  entries = entry waiting ∷ [];
  left = λ i. 0;
}

-- A server in order, with the client as its only connection.
pub one-IsSystem :
    (r : Registrations) (q : Queue ℕ) (left : ℕ) (c : Connection Pipe) (p : Phase)
    → c.address ≡ 50
    → p ≢ closed
    → InPhase pipe table p (world_with r 1 q) c 5
    → ((fd : ℕ) → fd ≢ 5 → r fd ≡ none)
    → HasQueue counting ((world_with r 1 q).server.app_actors) 0 left (entry c ∷ []) 0
    → IsSystem pipe table counting listen
        (record { world = world_with r 1 q; entries = entry c ∷ []; left = λ i. left })
one-IsSystem r q left c p is_50 ne at only queue = record {
  five = refl;
  some_actor = omega arith;
  active = refl;
  orderly = record {
    each = ((p, ne, at), tt);
    own_fd = λ fd. ground arith;
    own_address = λ x. ground arith;
    not_null = ground (arith, is_50);
    not_listen = refl;
    unlisted = λ fd ne light. only fd (λ same. ground (arith, same, light));
  };
  assigned = (omega arith, tt);
  queues =
      only_queue
        (λ i. HasQueue counting (world_with r 1 q).server.app_actors 0 left (entry c ∷ []) i) queue;
}

pub reading_client-IsSystem : IsSystem pipe table counting listen reading_client
reading_client-IsSystem =
    one-IsSystem one_client queue 0 waiting reading refl (λ e. cc)
      (InPhase-same pipe table counting reading (world for_input) (world_with one_client 1 queue)
        waiting 5 refl waiting-IsReading)
      (λ fd ne. ground arith)
      (record {
        items = [];
        at = record {
          info = record { id = 0; input_queue = queue ∷ [] };
          queue = queue;
          actor_at = refl;
          queue_at = refl;
          holds = queue-Represents;
        };
        counted = refl;
        sized = omega arith;
        waits = λ test. refl;
      })

-- The request is in the queue, and the actor has so many rounds left of it.
abbrev pub one_request : ℕ → Queue ℕ
one_request events = record queue {
  current_size = 1;
  ring_buffer = 50 ∷ 0 ∷ [];
  enqueue_offset = 1;
  add_event = events;
}

pub one_request-Represents : (events : ℕ) → Represents (one_request events) (50 ∷ [])
one_request-Represents events = ground arith

abbrev pub queued_client : ℕ → ℕ → Server
queued_client events left = record {
  world = world_with nothing 1 (one_request events);
  entries = entry in_queue ∷ [];
  left = λ i. left;
}

pub queued_client-IsSystem :
    (events left : ℕ)
    → events + left ≡ 1
    → IsSystem pipe table counting listen (queued_client events left)
queued_client-IsSystem events left one =
    one-IsSystem nothing (one_request events) left in_queue queued refl (λ e. cc)
      (InPhase-same pipe table counting queued (world nothing)
        (world_with nothing 1 (one_request events)) in_queue 5 refl in_queue-IsQueued)
      (λ fd ne. refl)
      (record {
        items = 50 ∷ [];
        at = record {
          info = record { id = 0; input_queue = one_request events ∷ [] };
          queue = one_request events;
          actor_at = refl;
          queue_at = refl;
          holds = one_request-Represents events;
        };
        counted = one;
        sized = omega arith;
        waits = λ test. refl;
      })

-- EPOLLIN alone.
abbrev pub readable : Events
readable = record {
  epollerr = false;
  epollrdhup = false;
  epollhup = false;
  epollpri = false;
  epollin = true;
  epollout = false;
}
