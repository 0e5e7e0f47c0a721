-- ===== src/System/Queues.antt =====
-- An actor's operation on its queue, seen from the queues of all actors.
use jullop.Base.{
  Bool, ℕ, ◌+◌, ◌^◌, ◌<◌, ◌≡◌, ◌≢◌, refl, sym, ◌∙◌, List, length, set, Outcome, done, load,
  load_in_range, store_inside, load-set, load-set_other,
}
use jullop.Kernel.{EventFd}
use jullop.MrmwQueue.{Queue}
use jullop.Server.{World, ActorInfo}
use jullop.Lifecycle.Send.{QueueAt}
use jullop.System.{Entry, wait_weight, with_queue, is_one}
use jullop.System.Sums.{sum_of}

-- How many of the pointers in a queue pass a test.
abbrev pub occurrences : (ℕ → Bool) → List ℕ → ℕ
occurrences test items = sum_of (λ y. is_one (test y)) items

module _ (efd : EventFd) {S : Type 0} where
  -- The queue of an actor for the worker holds the addresses of the connections that wait for that
  -- actor, each as often as it waits; and its descriptor's counter, with the rounds that the actor has
  -- still to make, is the number of the requests in it.
  pub record HasQueue (actors : List (ActorInfo efd.State)) (worker left : ℕ)
      (entries : List (Entry S)) (i : ℕ) : Type 0 where
    pub items : List ℕ
    pub at : QueueAt efd.State actors i worker items
    pub counted : efd.value at.queue.add_event + left ≡ length items
    pub sized : at.queue.max_size < 2 ^ 32
    pub waits : (test : ℕ → Bool) → occurrences test items ≡ sum_of (wait_weight i test) entries

  -- It depends only on the actor's own record, and on who waits for it.
  pub HasQueue-same :
      (actors actors' : List (ActorInfo efd.State)) (worker left : ℕ)
      (entries entries' : List (Entry S)) (i : ℕ)
      → load actors' i ≡ load actors i
      → ((test : ℕ → Bool)
          → sum_of (wait_weight i test) entries' ≡ sum_of (wait_weight i test) entries)
      → HasQueue actors worker left entries i
      → HasQueue actors' worker left entries' i
  HasQueue-same actors actors' worker left entries entries' i same waits h = record {
    items = h.items;
    at = record {
      info = h.at.info;
      queue = h.at.queue;
      actor_at = same ∙ h.at.actor_at;
      queue_at = h.at.queue_at;
      holds = h.at.holds;
    };
    counted = h.counted;
    sized = h.sized;
    waits = λ test. h.waits test ∙ sym (waits test);
  }

module _ (efd : EventFd) where
  -- What an operation that succeeds leaves of the world.
  pub record AfterCall {E : Type 0} (w : World E efd.State) (i : ℕ) (q' : Queue efd.State)
      (w' : World E efd.State) : Type 0 where
    pub info : ActorInfo efd.State
    pub actor_at : load w'.server.app_actors i ≡ done info
    pub queue_at : load info.input_queue w.epoll.id ≡ done q'
    pub others : (j : ℕ) → j ≢ i → load w'.server.app_actors j ≡ load w.server.app_actors j
    pub same_epoll : w'.epoll ≡ w.epoll
    pub same_stats : w'.server.server_stats ≡ w.server.server_stats
    pub same_count : w'.server.actor_count ≡ w.server.actor_count

  pub with_queue_lem :
      {E : Type 0} (w : World E efd.State) (i n : ℕ) (items : List ℕ)
      (call : Queue efd.State → Outcome (ℕ × Queue efd.State)) (q' : Queue efd.State)
      (at : QueueAt efd.State w.server.app_actors i w.epoll.id items)
      → call at.queue ≡ done (n, q')
      → (w' : World E efd.State) × (with_queue efd w i call ≡ done (n, w')) × AfterCall w i q' w'
  with_queue_lem w i n items call q' at ran =
      let in_actors = load_in_range w.server.app_actors i at.info at.actor_at in
      let in_queues = load_in_range at.info.input_queue w.epoll.id at.queue at.queue_at in
      let info' = record (at.info) { input_queue = set at.info.input_queue w.epoll.id q' } in
      (
        record w { server = record (w.server) { app_actors = set w.server.app_actors i info' } },
        rw
            (
              at.actor_at,
              at.queue_at,
              ran,
              store_inside at.info.input_queue w.epoll.id q' in_queues,
              store_inside w.server.app_actors i info' in_actors,
            )
            refl,
        record {
          info = info';
          actor_at = load-set w.server.app_actors i info' in_actors;
          queue_at = load-set at.info.input_queue w.epoll.id q' in_queues;
          others = λ j ne. load-set_other w.server.app_actors i j info' ne;
          same_epoll = refl;
          same_stats = refl;
          same_count = refl;
        },
      )
