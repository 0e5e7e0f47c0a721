-- ===== src/System/Examples.antt =====
-- The server at the states of the scene.
use jullop.Base.{ℕ, ◌<◌, ◌≡◌, refl, arith, true, List, [], ◌∷◌, ◌++◌, done}
use jullop.Kernel.{input_events}
use jullop.Kernel.Pipe.{Pipe, pipe}
use jullop.Kernel.Table.{Registrations, table}
use jullop.Kernel.Counting.{counting}
use jullop.MrmwQueue.{Queue, queue_pop}
use jullop.Server.{World, Connection}
use jullop.Actor.{answer_request, process_epoll_event}
use jullop.Lifecycle.{queued, IsWriting}
use jullop.Lifecycle.Turn.{turn}
use jullop.Lifecycle.Scene.{
  memory, root_parser, calls, queue, world, nothing, waiting, in_queue, in_queue-IsQueued,
}
use jullop.System.{Entry, accepts, here, then_step, env_at, with_queue}
use jullop.System.Invariant.{IsOrderly, IsSystem, InPhase-same}
use jullop.System.Sums.{All}
use jullop.MrmwQueue.Invariant.{Represents}
use jullop.System.Drain.{answer_scene, IsServed, actor_drains}
use jullop.System.Safety.{Reach-IsSystem}
use jullop.System.Progress.{turn_never_exits, actor_progress}
use jullop.System.Liveness.{Response, request_answered}
use jullop.System.Startup.{Launched, main-Launched}
use jullop.System.Program.{
  program_calls, two_arguments, worker_calls, program_calls-AllWell, worker_calls-StartsWell,
}
use jullop.System.Scene.{
  listen, world_with, fresh, fresh-Starts, arrival, arrival-GoesWell, accepted, with_client, entry,
  reading_client, reading_client-IsSystem, one_request, queued_client, queued_client-IsSystem,
  readable,
}

Reach-IsSystem_example : IsSystem pipe table counting listen with_client
Reach-IsSystem_example =
    Reach-IsSystem memory pipe root_parser table counting calls.mutex listen (refl, refl)
      (λ n small. refl) fresh with_client fresh-Starts
      (then_step here (
        accepts arrival accepted.0 accepted.1 arrival-GoesWell (λ e. absurd (omega arith)) refl
          (λ e. absurd (omega arith)) refl accepted.2))

turn_never_exits_example :
    (w : World Registrations ℕ) × (c : Connection Pipe) × (turn memory pipe root_parser table
        counting
        (env_at calls.mutex calls.now)
        readable
        (reading_client.world, waiting)
      ≡ done (w, c))
turn_never_exits_example =
    turn_never_exits memory pipe root_parser table counting calls.mutex listen (refl, refl)
      (λ n small. refl) reading_client reading_client-IsSystem [] [] (entry waiting) readable
      input_events calls.now (record { id = 0; input_queue = queue ∷ [] }) queue refl refl refl refl
      refl (omega arith)

actor_progress_example :
    (before : List (Entry Pipe)) × (e : Entry Pipe) × (after : List (Entry Pipe)) × (w w' : World
      Registrations ℕ)
    × (c : Connection Pipe) × (entry in_queue ∷ [] ≡ before ++ (e ∷ after))
    × (with_queue counting (queued_client 0 1).world 0 (λ q. queue_pop counting calls.mutex q)
        ≡ done (e.connection.address, w))
    × (answer_request memory table (env_at calls.mutex calls.now) 2 true 200 0 w e.connection
        ≡ done (w', c))
    × (at : IsWriting pipe table w' c e.fd) × (0 < at.request.output_buffer.write_into_offset)
actor_progress_example =
    actor_progress memory pipe root_parser table counting calls.mutex listen (refl, refl)
      (λ n small. refl) (queued_client 0 1) (queued_client-IsSystem 0 1 refl) 0 calls.now 200
      (omega arith) (omega arith)

request_answered_example :
    Response memory pipe root_parser table counting calls.mutex listen
      (refl, refl)
      (λ n small. refl)
      0
      calls.now
      200
      (queued_client 1 0)
      50
request_answered_example =
    request_answered memory pipe root_parser table counting calls.mutex listen (refl, refl)
      (λ n small. refl) (queued_client 1 0) calls.now 200 [] [] (entry in_queue)
      (queued_client-IsSystem 1 0 refl) refl
      (InPhase-same pipe table counting queued (world nothing)
        (world_with nothing 1 (one_request 1)) in_queue 5 refl in_queue-IsQueued)

main-Launched_example : Launched pipe table counting program_calls two_arguments worker_calls 1
main-Launched_example =
    main-Launched pipe table counting program_calls two_arguments worker_calls 1
      program_calls-AllWell (omega arith) worker_calls-StartsWell (omega arith)

actor_drains_example :
    (q : Queue ℕ) × (w : World Registrations ℕ) × (entries : List (Entry Pipe))
    × (process_epoll_event counting calls.mutex
          (answer_scene memory pipe table counting calls.mutex (λ _. calls.now) (λ _. 200) 0)
          2
          (one_request 1)
          ((queued_client 1 0).world, entry in_queue ∷ [])
        ≡ done (q, (w, entries)))
    × Represents q []
    × (q.add_event ≡ 0)
    × IsOrderly pipe table counting listen w entries
    × All (IsServed pipe table counting 0 w) entries
actor_drains_example =
    actor_drains memory pipe table counting calls.mutex listen (refl, refl) (λ n small. refl)
      (queued_client 1 0) (queued_client-IsSystem 1 0 refl) 0 (λ _. calls.now) (λ _. 200)
      (record { id = 0; input_queue = one_request 1 ∷ [] }) (one_request 1) (omega arith) refl refl
      refl
