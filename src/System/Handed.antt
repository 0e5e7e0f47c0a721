-- ===== src/System/Handed.antt =====
-- The actors' queues, after a turn of the worker's event loop.
use mathlib.Core.Path.{subst}
use jullop.Base.{
  ℕ, ◌-◌, ◌+◌, ◌%◌, ◌^◌, ◌<◌, ◌≡◌, ◌≢◌, sym, ap, arith, Bool, List, [], ◌∷◌, ◌++◌, ℕ_discrete,
  length-append, load,
}
use jullop.Kernel.{Socket, Epoll, EventFd}
use jullop.MrmwQueue.{Mutex}
use jullop.MrmwQueue.Refine.{Works}
use jullop.Server.{World}
use jullop.Lifecycle.{queued}
use jullop.Lifecycle.Send.{CanPush, ActorsAfter}
use jullop.System.{Entry, State, wait_weight, is_one}
use jullop.System.Sums.{sum_of, sum_of-append}
use jullop.System.Queues.{HasQueue, HasQueue-same}
use jullop.System.Invariant.{IsSystem}

module _ (sock : Socket) (ep : Epoll) (efd : EventFd) (listen : ℕ) where
  -- Every queue stands when the actors do, and as many wait for each as before.
  pub queues_same :
      (s : State ep.State efd.State sock.State) (w' : World ep.State efd.State)
      (entries' : List (Entry sock.State))
      → IsSystem sock ep efd listen s
      → w'.server.app_actors ≡ s.world.server.app_actors
      → w'.epoll.id ≡ s.world.epoll.id
      → w'.server.actor_count ≡ s.world.server.actor_count
      → ((i : ℕ) (test : ℕ → Bool)
          → sum_of (wait_weight i test) entries' ≡ sum_of (wait_weight i test) s.entries)
      → (i : ℕ) → i < w'.server.actor_count
      → HasQueue efd w'.server.app_actors w'.epoll.id (s.left i) entries' i
  queues_same s w' entries' h actors worker count waits i small =
      subst (λ z. HasQueue efd w'.server.app_actors z (s.left i) entries' i) (sym worker)
        (HasQueue-same efd s.world.server.app_actors w'.server.app_actors s.world.epoll.id
          (s.left i) s.entries entries' i (ap (λ z. load z i) actors) (waits i)
          (h.queues i (omega (arith, count))))

  -- The queues, when the connection `e` has been handed to the actor whose turn it is.
  module _ (s : State ep.State efd.State sock.State) (m : Mutex) (works : Works m)
      (h : IsSystem sock ep efd listen s)
      (hq : HasQueue efd s.world.server.app_actors s.world.epoll.id
        (s.left (s.world.count % s.world.server.actor_count))
        s.entries
        (s.world.count % s.world.server.actor_count))
      (quiet : efd.value hq.at.queue.add_event + 1 < 2 ^ 64 - 1) where
    abbrev pub turn_of : ℕ
    turn_of = s.world.count % s.world.server.actor_count

    abbrev pub ready : CanPush ep efd s.world m
    ready = record {
      works = works;
      some_actor = h.some_actor;
      items = hq.items;
      at = hq.at;
      quiet = quiet;
    }

    pub queues_handed :
        (w' : World ep.State efd.State) (entries' : List (Entry sock.State)) (address : ℕ)
        → ActorsAfter ep efd queued s.world w' m ready address
        → w'.epoll.id ≡ s.world.epoll.id
        → w'.server.actor_count ≡ s.world.server.actor_count
        → ((test : ℕ → Bool)
            → sum_of (wait_weight turn_of test) entries'
              ≡ is_one (test address) + sum_of (wait_weight turn_of test) s.entries)
        → ((i : ℕ) (test : ℕ → Bool)
            → i ≢ turn_of
            → sum_of (wait_weight i test) entries' ≡ sum_of (wait_weight i test) s.entries)
        → (i : ℕ) → i < w'.server.actor_count
        → HasQueue efd w'.server.app_actors w'.epoll.id (s.left i) entries' i
    queues_handed w' entries' address handed worker count waits others i small =
        subst (λ z. HasQueue efd w'.server.app_actors z (s.left i) entries' i) (sym worker)
          (elim (ℕ_discrete i turn_of) [
            | no apart ↦
                HasQueue-same efd s.world.server.app_actors w'.server.app_actors s.world.epoll.id
                  (s.left i) s.entries entries' i (handed.others i apart)
                  (λ test. others i test apart) (h.queues i (omega (arith, count)))
            | yes same ↦
                subst
                  (λ j. HasQueue efd w'.server.app_actors s.world.epoll.id (s.left j) entries' j)
                  (sym same)
                  (record {
                    items = hq.items ++ address ∷ [];
                    at = handed.at;
                    counted =
                        omega
                          (arith, handed.counts, hq.counted, length-append hq.items (address ∷ []));
                    sized = omega (arith, handed.same_size, hq.sized);
                    waits = λ test. omega (
                      arith,
                      waits test,
                      hq.waits test,
                      sum_of-append (λ y. is_one (test y)) hq.items (address ∷ []),
                    );
                  })
          ])
