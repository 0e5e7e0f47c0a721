-- ===== src/Lifecycle/Examples.antt =====
-- The handlers at the connections of the scene.
use jullop.Base.{◌⊎◌, ℕ, ◌<◌, ◌≡◌, refl, arith, true, false, [], done}
use jullop.Kernel.{input_events}
use jullop.Kernel.Pipe.{Pipe, pipe}
use jullop.Kernel.Table.{Registrations, table}
use jullop.Kernel.Counting.{counting}
use jullop.RequestStats.{epoch}
use jullop.Server.{World, Connection}
use jullop.IoWorker.{Accepted, accept_connection, Events}
use jullop.Actor.{answer_request}
use jullop.Lifecycle.{reading, IsReading, IsWriting, Leaves}
use jullop.Lifecycle.Accept.{accept_lem}
use jullop.Lifecycle.Answer.{answer_request_lem}
use jullop.Lifecycle.Read.{ReadDone, ReadFull, handle_read_lem}
use jullop.Lifecycle.Write.{WriteDone, handle_write_lem}
use jullop.Lifecycle.Turn.{TurnDone, TurnFull, turn_lem}
use jullop.Lifecycle.Scene.{
  memory, root_parser, calls, client, world, nothing, for_input, for_output, waiting, in_queue,
  answered, waiting-IsReading, in_queue-IsQueued, answered-IsWriting, can_push,
}

abbrev arrival : Accepted Pipe
arrival = record {
  conn_sock = 5;
  peer = client;
  nodelay = true;
  quickack = true;
  host_mem = true;
  named = true;
  host_name = [];
  context_mem = true;
  input_mem = true;
  output_mem = true;
  socket_context_mem = true;
  address = 50;
  context_address = 100;
  now = epoch;
}

accept_lem_example :
    (w' : World Registrations ℕ) × (c : Connection Pipe) × (accept_connection memory table arrival
        (world nothing)
      ≡ done (w', c))
    × IsReading pipe table w' c 5
    × Leaves table 5 (world nothing) w' 2 0
    × (w'.server.app_actors ≡ (world nothing).server.app_actors)
    × (c.address ≡ 50)
accept_lem_example =
    accept_lem memory pipe table arrival (world nothing) refl
      (record {
        options = (refl, refl);
        host = (refl, refl);
        context = (refl, refl);
        buffers = (refl, refl);
        few = omega arith;
      })
      refl refl

handle_read_lem_example :
    ReadDone memory pipe root_parser table counting calls
      (world for_input)
      waiting
      5
      (can_push for_input)
    ⊎ ReadFull memory pipe root_parser table counting calls
        (world for_input)
        waiting
        (can_push for_input)
handle_read_lem_example =
    handle_read_lem memory pipe root_parser table counting calls (world for_input) waiting 5
      (λ n h. refl) waiting-IsReading refl (can_push for_input) refl

answer_request_lem_example :
    (w' : World Registrations ℕ) × (c' : Connection Pipe) × (answer_request memory table calls 2
        true 200 0
        (world nothing)
        in_queue
      ≡ done (w', c'))
    × (at : IsWriting pipe table w' c' 5) × (0 < at.request.output_buffer.write_into_offset)
    × Leaves table 5 (world nothing) w' 1 0
    × (w'.server ≡ (world nothing).server)
    × (c'.address ≡ 50)
answer_request_lem_example =
    answer_request_lem memory pipe table counting calls 200 0 (world nothing) in_queue 5
      (λ n h. refl) in_queue-IsQueued refl

handle_write_lem_example :
    WriteDone memory pipe root_parser table counting calls
      (world for_output)
      answered
      5
      answered-IsWriting.request
handle_write_lem_example =
    handle_write_lem memory pipe root_parser table counting calls (world for_output) answered 5
      answered-IsWriting refl refl

-- EPOLLIN alone.
abbrev readable : Events
readable = record {
  epollerr = false;
  epollrdhup = false;
  epollhup = false;
  epollpri = false;
  epollin = true;
  epollout = false;
}

turn_lem_example :
    TurnDone memory pipe root_parser table counting calls
      (world for_input)
      waiting
      5
      readable
      (can_push for_input)
    ⊎ TurnFull memory pipe root_parser table counting calls
        (world for_input)
        waiting
        readable
        (can_push for_input)
turn_lem_example =
    turn_lem memory pipe root_parser table counting calls (world for_input) waiting 5 readable
      input_events reading (λ n h. refl) waiting-IsReading refl refl refl (can_push for_input) refl
