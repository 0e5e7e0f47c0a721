-- ===== src/Main/Startup.antt =====
-- The actors that `main` creates, and their queues.
use jullop.Base.{
  ℕ, zero, suc, ◌+◌, ◌≤◌, ◌<◌, ◌≡◌, refl, arith, true, false, List, [], ◌∷◌, ◌++◌, length,
  length-append, min, ltb, ◌!=◌, done, load, replicate, take,
}
use jullop.Kernel.{EventFd}
use jullop.Ring.Api.{null}
use jullop.MrmwQueue.{Queue, Resources, queue_init}
use jullop.MrmwQueue.Invariant.{Represents}
use jullop.MrmwQueue.Run.{queue_init-Represents}
use jullop.HttpResponse.{text_of, digits_of}
use jullop.Actor.Answer.{digits_short}
use jullop.Server.{ActorInfo}
use jullop.Main.{ThreadCalls, thread_name, create_queues, create_actor, create_actors}

-- The allocations and the pthread calls succeed.
pub record GoWell (calls : ThreadCalls) : Type 0 where
  pub list : calls.list_mem ≡ true
  pub queue : (i : ℕ) → ((calls.queues i).queue_mem ≡ true) × ((calls.queues i).ring_mem ≡ true)
  pub mutex : (i : ℕ) → (calls.queues i).mutex_init ≡ 0
  pub name : calls.name_mem ≡ true
  pub threads : (calls.create ≡ 0) × (calls.detach ≡ 0)
  pub set : (calls.setname ≡ 0) × (calls.setaffinity ≡ 0)

name_fits : (id : ℕ) → id < 1000 → length (text_of "app-" ++ digits_of 20 id) ≤ 7
name_fits id small = omega (
  arith,
  length-append (text_of "app-") (digits_of 20 id),
  digits_short 20 3 id (omega arith) (omega arith),
)

pub thread_name_done :
    (text : List ℕ) → length text ≤ 7 → (name : List ℕ) × (thread_name true text ≡ done name)
unfolding thread_name
thread_name_done text short =
    let fits : ltb 8 (min 16 (length text + 1)) ≡ false = ground arith in
    (take 15 text, rw fits refl)

module _ (efd : EventFd) where
  -- An empty queue for 1024 requests, whose event descriptor has counted nothing.
  pub record HasFresh (queues : List (Queue efd.State)) (j : ℕ) : Type 0 where
    pub queue : Queue efd.State
    pub queue_at : load queues j ≡ done queue
    pub empty : Represents queue []
    pub room : queue.max_size ≡ 1024
    pub quiet : efd.value queue.add_event ≡ 0

  -- An actor with its number, and such a queue for each IO worker.
  pub record HasActor (actors : List (ActorInfo efd.State)) (workers i id : ℕ) : Type 0 where
    pub actor : ActorInfo efd.State
    pub actor_at : load actors i ≡ done actor
    pub numbered : actor.id ≡ id
    pub queues : (j : ℕ) → j < workers → HasFresh actor.input_queue j

  init_succeeds :
      (r : Resources) (size : ℕ)
      → (r.queue_mem ≡ true) × (r.ring_mem ≡ true)
      → r.mutex_init ≡ 0
      → (q : Queue efd.State) × (queue_init efd r size ≡ done q)
  unfolding queue_init
  init_succeeds r size h zero_mutex =
      let mutex : (r.mutex_init != 0) ≡ false = ground arith in
      (
        record {
          max_size = size;
          current_size = 0;
          ring_buffer = replicate size null;
          enqueue_offset = 0;
          dequeue_offset = 0;
          add_event = efd.create;
        },
        rw (h.0, h.1, mutex) refl,
      )

  fresh_behind :
      (q : Queue efd.State) (queues : List (Queue efd.State)) (left : ℕ)
      → HasFresh (q ∷ queues) 0
      → ((j : ℕ) → j < left → HasFresh queues j)
      → (j : ℕ) → j < suc left
      → HasFresh (q ∷ queues) j
  fresh_behind q queues left here rest zero small = here
  fresh_behind q queues left here rest (suc j) small =
      let h = rest j (omega arith) in
      record {
        queue = h.queue;
        queue_at = h.queue_at;
        empty = h.empty;
        room = h.room;
        quiet = h.quiet;
      }

  create_queues_lem :
      (calls : ThreadCalls) (left i : ℕ)
      → GoWell calls
      → (queues : List (Queue efd.State)) × (create_queues efd calls.queues left i ≡ done queues)
        × ((j : ℕ) → j < left → HasFresh queues j)
  unfolding create_queues
  create_queues_lem calls zero i well = ([], refl, λ j b. absurd (omega arith))
  create_queues_lem calls (suc left) i well =
      let (q, e) = init_succeeds (calls.queues i) 1024 (well.queue i) (well.mutex i) in
      let (empty, room, quiet) =
        queue_init-Represents efd (calls.queues i) 1024 q (omega arith) (omega arith) e in
      let (queues, es, rest) = create_queues_lem calls left (suc i) well in
      let here : HasFresh (q ∷ queues) 0 = record {
        queue = q;
        queue_at = refl;
        empty = empty;
        room = room;
        quiet = quiet;
      } in
      (q ∷ queues, rw (e, es) refl, fresh_behind q queues left here rest)

  create_actor_lem :
      (calls : ThreadCalls) (workers id : ℕ)
      → GoWell calls
      → id < 1000
      → (actor : ActorInfo efd.State) × (create_actor efd calls workers id ≡ done actor)
        × (actor.id ≡ id)
        × ((j : ℕ) → j < workers → HasFresh actor.input_queue j)
  unfolding create_actor
  create_actor_lem calls workers id well small =
      let (queues, e, fresh) = create_queues_lem calls workers 0 well in
      let (name, f) = thread_name_done (text_of "app-" ++ digits_of 20 id) (name_fits id small) in
      let create : (calls.create != 0) ≡ false = ground (arith, well.threads) in
      let detach : (calls.detach != 0) ≡ false = ground (arith, well.threads) in
      let setname : (calls.setname != 0) ≡ false = ground (arith, well.set) in
      let affinity : (calls.setaffinity != 0) ≡ false = ground (arith, well.set) in
      (
        record { id = id; input_queue = queues },
        rw (well.list, e, create, detach, well.name, f, setname, affinity) refl,
        refl,
        fresh,
      )

  actor_behind :
      (a : ActorInfo efd.State) (actors : List (ActorInfo efd.State)) (workers left id : ℕ)
      → HasActor (a ∷ actors) workers 0 id
      → ((i : ℕ) → i < left → HasActor actors workers i (suc id + i))
      → (i : ℕ) → i < suc left
      → HasActor (a ∷ actors) workers i (id + i)
  actor_behind a actors workers left id here rest zero small = record {
    actor = here.actor;
    actor_at = here.actor_at;
    numbered = omega (arith, here.numbered);
    queues = here.queues;
  }
  actor_behind a actors workers left id here rest (suc i) small =
      let h = rest i (omega arith) in
      record {
        actor = h.actor;
        actor_at = h.actor_at;
        numbered = omega (arith, h.numbered);
        queues = h.queues;
      }

  -- Where the allocations and the pthread calls succeed, and there are no more than 1000 actors, the
  -- loop of `main` creates them: the actor at each index has it as its number and, for every IO
  -- worker, an empty queue for 1024 requests.
  pub create_actors_lem :
      (calls : ℕ → ThreadCalls) (workers left id : ℕ)
      → ((i : ℕ) → GoWell (calls i))
      → id + left ≤ 1000
      → (actors : List (ActorInfo efd.State)) × (create_actors efd calls workers left id
          ≡ done actors)
        × ((i : ℕ) → i < left → HasActor actors workers i (id + i))
  unfolding create_actors
  create_actors_lem calls workers zero id well few = ([], refl, λ i b. absurd (omega arith))
  create_actors_lem calls workers (suc left) id well few =
      let (a, e, numbered, fresh) =
        create_actor_lem (calls id) workers id (well id) (omega arith) in
      let (actors, es, rest) = create_actors_lem calls workers left (suc id) well (omega arith) in
      let here : HasActor (a ∷ actors) workers 0 id = record {
        actor = a;
        actor_at = refl;
        numbered = numbered;
        queues = fresh;
      } in
      (a ∷ actors, rw (e, es) refl, actor_behind a actors workers left id here rest)
