-- ===== src/System.antt =====
-- The whole server, for one IO worker: its connections, interleaved with one another and with the
-- actors. A step is one turn of a loop of src/io_worker.c or src/actor.c.
mod Sums
mod Phases
mod Queues
mod Invariant
mod Orderly
mod Handed
mod Handles
mod Turns
mod Accepts
mod Actors
mod Answers
mod Answered
pub mod Drain
pub mod Safety
pub mod Progress
pub mod Liveness
pub mod Startup
mod Scene
mod Program
mod Examples
use jullop.Base.{
  ℕ, zero, suc, ◌+◌, ◌-◌, ◌%◌, ◌<◌, ◌≡◌, ◌≢◌, Bool, true, false, List, [], ◌∷◌, ◌++◌, length,
  Option, none, some, ◌==◌, if◌then◌else◌, Outcome, done, unfinished, ◌>>=◌, load, store,
}
use jullop.Kernel.{Socket, Memory, Epoll, EventFd, Interest}
use jullop.RequestStats.{Timespec}
use jullop.Ring.Api.{null}
use jullop.MrmwQueue.{Queue, Mutex, queue_pop}
use jullop.HttpRequest.{Parser}
use jullop.Server.{World, Connection, Env, ActorInfo}
use jullop.IoWorker.{Accepted, accept_connection, Events}
use jullop.Actor.{answer_request}
use jullop.Lifecycle.Accept.{GoesWell}
use jullop.Lifecycle.Dispatch.{Within}
use jullop.Lifecycle.Turn.{turn}
use jullop.System.Sums.{sum_of}

-- An open connection with its descriptor, and the actor that it was last handed to.
pub record Entry (S : Type 0) : Type 0 where
  pub fd : ℕ
  pub actor : ℕ
  pub connection : Connection S

-- `left` is the number of rounds that the `for` loop of an actor has still to make for the worker's
-- queue.
pub record State (E Q S : Type 0) : Type 0 where
  pub world : World E Q
  pub entries : List (Entry S)
  pub left : ℕ → ℕ

abbrev pub update : (ℕ → ℕ) → ℕ → ℕ → ℕ → ℕ
update f i n j = if j == i then n else f j

abbrev pub is_one : Bool → ℕ
is_one true = 1
is_one false = 0

abbrev pub is_none : {A : Type 0} → Option A → Bool
is_none none = true
is_none (some a) = false

abbrev pub fd_weight : {S : Type 0} → ℕ → Entry S → ℕ
fd_weight fd e = is_one (e.fd == fd)

abbrev pub address_weight : {S : Type 0} → ℕ → Entry S → ℕ
address_weight x e = is_one (e.connection.address == x)

-- Tests of the address of a connection.
abbrev pub at_address : ℕ → ℕ → Bool
at_address x y = y == x

abbrev pub anywhere : ℕ → Bool
anywhere y = true

-- Whether a connection waits for an actor, at an address that passes the test: it has no socket
-- context then.
abbrev pub wait_weight : {S : Type 0} → ℕ → (ℕ → Bool) → Entry S → ℕ
wait_weight i test e =
    if is_none e.connection.context
    then (if e.actor == i then is_one (test e.connection.address) else 0)
    else 0

-- A connection is forgotten when its request context is freed.
abbrev pub kept : {S : Type 0} → Entry S → List (Entry S)
kept e = if is_none e.connection.request then [] else e ∷ []

module _ (efd : EventFd) where
  -- An operation of an actor on its queue for the worker.
  abbrev pub with_queue :
      {E : Type 0}
      → World E efd.State
      → ℕ
      → (Queue efd.State → Outcome (ℕ × Queue efd.State))
      → Outcome (ℕ × World E efd.State)
  with_queue w i call = do
    info ← load w.server.app_actors i
    queue ← load info.input_queue w.epoll.id
    (n, queue') ← call queue
    queues ← store info.input_queue w.epoll.id queue'
    actors ← store w.server.app_actors i (record info { input_queue = queues })
    done (n, record w { server = record (w.server) { app_actors = actors } })

  -- The eventfd_read of `process_epoll_event`; there is no step where it gives -1.
  abbrev pub take_count : Option (ℕ × efd.State) → Queue efd.State → Outcome (ℕ × Queue efd.State)
  take_count none queue = unfinished
  take_count (some (n, event)) queue = done (n, record queue { add_event = event })

-- The calls that a step makes: the pthread calls of `m`, the clock, and a close(2) that succeeds.
abbrev pub env_at : Mutex → (ℕ → Timespec) → Env
env_at m now = record { now = now; mutex = m; closed = 0 }

module _ (mem : Memory) (sock : Socket) (parser : Parser) (ep : Epoll) (efd : EventFd) (m : Mutex)
    (listen : ℕ) where
  abbrev System : Type 0
  System = State ep.State efd.State sock.State

  -- `listen` is the descriptor of the listening socket.
  pub data Step (s : System) : System → Type 0 where
    -- A connection is accepted; its descriptor and its memory are not in use.
    accepts :
        (a : Accepted sock.State) (w : World ep.State efd.State) (c : Connection sock.State)
        → GoesWell sock a
        → a.conn_sock ≢ listen
        → sum_of (fd_weight a.conn_sock) s.entries ≡ 0
        → a.address ≢ null
        → sum_of (address_weight a.address) s.entries ≡ 0
        → accept_connection mem ep a s.world ≡ done (w, c)
        → Step s (record s {
          world = w;
          entries = record { fd = a.conn_sock; actor = 0; connection = c } ∷ s.entries;
        })
    -- The events that are reported for a registration are handled.
    handles :
        (before after : List (Entry sock.State)) (e : Entry sock.State) (events : Events)
        (interest : Interest) (now : ℕ → Timespec) (w : World ep.State efd.State)
        (c : Connection sock.State)
        → s.entries ≡ before ++ (e ∷ after)
        → ep.registered s.world.epoll.epoll e.fd ≡ some (interest, e.connection.context_address)
        → Within events interest
        → turn mem sock parser ep efd (env_at m now) events (s.world, e.connection) ≡ done (w, c)
        → Step s (record s {
          world = w;
          entries =
              before
              ++ (kept (record e {
                actor = s.world.count % s.world.server.actor_count;
                connection = c;
              })
                  ++ after);
        })
    -- An actor reads the event descriptor of its queue.
    wakes :
        (i n : ℕ) (w : World ep.State efd.State)
        → i < s.world.server.actor_count
        → s.left i ≡ 0
        → with_queue efd s.world i (λ q. take_count efd (efd.read q.add_event) q) ≡ done (n, w)
        → Step s (record s { world = w; left = update s.left i n })
    -- An actor takes a request from its queue, and answers it.
    answers :
        (i x address : ℕ) (before after : List (Entry sock.State)) (e : Entry sock.State)
        (now : ℕ → Timespec) (w w' : World ep.State efd.State) (c : Connection sock.State)
        → i < s.world.server.actor_count
        → 0 < s.left i
        → with_queue efd s.world i (λ q. queue_pop efd m q) ≡ done (x, w)
        → x ≢ null
        → s.entries ≡ before ++ (e ∷ after)
        → e.connection.address ≡ x
        → answer_request mem ep (env_at m now) 2 true address i w e.connection ≡ done (w', c)
        → Step s (record s {
          world = w';
          entries = before ++ (record e { connection = c } ∷ after);
          left = update s.left i (s.left i - 1);
        })
    -- An actor finds its queue empty, and leaves the loop.
    gives_up :
        (i : ℕ) (w : World ep.State efd.State)
        → i < s.world.server.actor_count
        → 0 < s.left i
        → with_queue efd s.world i (λ q. queue_pop efd m q) ≡ done (null, w)
        → Step s (record s { world = w; left = update s.left i 0 })

  -- Whether a step is one of the actor `i`.
  abbrev pub OfActor : (i : ℕ) {s t : System} → Step s t → Type 0
  OfActor i (wakes j _ _ _ _ _) = j ≡ i
  OfActor i (answers j _ _ _ _ _ _ _ _ _ _ _ _ _ _ _ _) = j ≡ i
  OfActor i (gives_up j _ _ _ _) = j ≡ i
  OfActor i _ = ⊥

  -- Some steps of one actor.
  pub data ActorRun (i : ℕ) : System → System → Type 0 where
    rests : {s : System} → ActorRun i s s
    steps : {s t u : System} → (p : Step s t) → OfActor i p → ActorRun i t u → ActorRun i s u

  pub data Reach (s : System) : System → Type 0 where
    here : Reach s s
    then_step : {t u : System} → Reach s t → Step t u → Reach s u
