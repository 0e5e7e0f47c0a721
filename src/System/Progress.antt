-- ===== src/System/Progress.antt =====
-- What the server can do in every reachable state.
use jullop.Base.{
  ℕ, ◌+◌, ◌*◌, ◌%◌, ◌<◌, ◌≤◌, ◌≡◌, refl, sym, ◌∙◌, ap, arith, List, [], ◌∷◌, ◌++◌, length,
  length-append, some, done, load, inl, inr, true,
}
use jullop.Kernel.{Socket, Memory, Epoll, EventFd, Interest}
use jullop.OutputBuffer.Appending as Output
use jullop.RequestStats.{Timespec}
use jullop.MrmwQueue.{Queue, Mutex, queue_pop}
use jullop.MrmwQueue.Refine.{Works}
use jullop.HttpRequest.{Parser}
use jullop.Server.{World, Connection, ActorInfo}
use jullop.Actor.{answer_request}
use jullop.IoWorker.{Events}
use jullop.Lifecycle.{stream_bound, IsWriting}
use jullop.Lifecycle.Dispatch.{Within}
use jullop.Lifecycle.Turn.{turn}
use jullop.System.{anywhere, Entry, State, with_queue, env_at, wait_weight}
use jullop.System.Sums.{sum_of, sum_of-middle}
use jullop.System.Queues.{occurrences}
use jullop.System.Invariant.{IsSystem}
use jullop.System.Turns.{current, registered_idle, opened, turn_taken}
use jullop.System.Phases.{done-injective}
use jullop.System.Actors.{wait-address}
use jullop.System.Answers.{popped_waits, popped}
use jullop.System.Answered.{answered}

all_occur : (items : List ℕ) → occurrences anywhere items ≡ length items
all_occur [] = refl
all_occur (x ∷ items) = omega (arith, all_occur items)

waits-le :
    {S : Type 0} (i : ℕ) (entries : List (Entry S))
    → sum_of (wait_weight i anywhere) entries ≤ length entries
waits-le i [] = omega arith
waits-le i (e ∷ entries) = ground (arith, waits-le i entries)

-- Where one connection does not wait, fewer requests are in the queue than there are connections.
fewer_wait :
    {S : Type 0} (i : ℕ) (before after : List (Entry S)) (e : Entry S) (entries : List (Entry S))
    (items : List ℕ)
    → entries ≡ before ++ (e ∷ after)
    → wait_weight i anywhere e ≡ 0
    → occurrences anywhere items ≡ sum_of (wait_weight i anywhere) entries
    → length items < length entries
fewer_wait i before after e entries items split idle waits = omega (
  arith,
  idle,
  waits,
  all_occur items,
  waits-le i before,
  waits-le i after,
  ap length split,
  ap (sum_of (wait_weight i anywhere)) split,
  sum_of-middle (wait_weight i anywhere) before e after,
  length-append before (e ∷ after),
)

module _ (mem : Memory) (sock : Socket) (parser : Parser) (ep : Epoll) (efd : EventFd) (m : Mutex)
    (listen : ℕ) (works : Works m) (serves : Output.Serves mem (8 * stream_bound + 1))
    (t : State ep.State efd.State sock.State) (in_order : IsSystem sock ep efd listen t) where
  -- In a server that is in order, with memory and pthread calls that succeed, and no more open
  -- connections than the queue of the actor whose turn it is has places, every turn of the event loop
  -- for a registered connection returns: the CHECK of the push never ends the process.
  pub turn_never_exits :
      (before after : List (Entry sock.State)) (e : Entry sock.State) (events : Events)
      (interest : Interest) (now : ℕ → Timespec) (info : ActorInfo efd.State)
      (queue : Queue efd.State)
      → t.entries ≡ before ++ (e ∷ after)
      → ep.registered t.world.epoll.epoll e.fd ≡ some (interest, e.connection.context_address)
      → Within events interest
      → load t.world.server.app_actors (t.world.count % t.world.server.actor_count) ≡ done info
      → load info.input_queue t.world.epoll.id ≡ done queue
      → length t.entries ≤ queue.max_size
      → (w : World ep.State efd.State) × (c : Connection sock.State) × (turn mem sock parser ep efd
            (env_at m now)
            events
            (t.world, e.connection)
          ≡ done (w, c))
  turn_never_exits before after e events interest now info queue split known inside at_info at_queue
        room =
      let hq = current sock ep efd listen t in_order in
      let idle =
        registered_idle sock ep efd listen t in_order e (interest, e.connection.context_address)
          (opened sock ep efd listen t in_order before after e split) known in
      let fewer : length hq.items < length t.entries =
        fewer_wait (t.world.count % t.world.server.actor_count) before after e t.entries hq.items
          split (idle _ anywhere) (hq.waits anywhere) in
      let same_info = done-injective info hq.at.info (sym at_info ∙ hq.at.actor_at) in
      let same_queue : queue ≡ hq.at.queue =
        done-injective queue hq.at.queue (
          sym at_queue
          ∙ ap (λ z. load z.input_queue t.world.epoll.id) same_info
          ∙ hq.at.queue_at) in
      elim (turn_taken sock ep efd listen t in_order mem parser m works
        (λ n small. serves n (omega (arith, small))) before after e events interest now split known
        inside) [
          | inl d ↦ (d.world, d.connection, d.runs)
          | inr (full, exits) ↦
              absurd (omega (arith, full, fewer, room, ap (λ z. z.max_size) same_queue))
        ]

  -- In a server that is in order, with memory and pthread calls that succeed, an actor with rounds left
  -- takes the address of a connection from its queue, never NULL, and answers it: the body of its loop
  -- returns, and the connection waits to write a response that is not empty.
  pub actor_progress :
      (i : ℕ) (now : ℕ → Timespec) (address : ℕ)
      → i < t.world.server.actor_count
      → 0 < t.left i
      → (before : List (Entry sock.State)) × (e : Entry sock.State) × (after : List
          (Entry sock.State))
        × (w w' : World ep.State efd.State) × (c : Connection sock.State) × (t.entries
            ≡ before ++ (e ∷ after))
        × (with_queue efd t.world i (λ q. queue_pop efd m q) ≡ done (e.connection.address, w))
        × (answer_request mem ep (env_at m now) 2 true address i w e.connection ≡ done (w', c))
        × (at : IsWriting sock ep w' c e.fd) × (0 < at.request.output_buffer.write_into_offset)
  actor_progress i now address small some_left =
      let p = popped sock ep efd listen t in_order m works i small some_left in
      let (before, e, after, split, waits) =
        popped_waits sock ep efd listen t in_order m works i small some_left in
      let is_x : e.connection.address ≡ p.x =
        ground (arith, waits, wait-address sock ep efd listen t in_order i p.x e) in
      let d =
        answered sock ep efd listen t in_order m works i small some_left before after e split is_x
          mem now address serves in
      (
        before,
        e,
        after,
        p.world,
        d.world,
        d.connection,
        split,
        p.runs ∙ ap (λ z. done (z, p.world)) (sym is_x),
        d.runs,
        d.at,
        d.some_response,
      )
