-- ===== src/System/Actors.antt =====
-- The steps of an actor keep the server in order.
use mathlib.Core.Path.{subst}
use jullop.Base.{
  ℕ, ◌+◌, ◌^◌, ◌<◌, ◌≤◌, ◌≡◌, ◌≢◌, refl, sym, ◌∙◌, ap, arith, Bool, List, [], ◌∷◌, length, none,
  some, Option, done, unfinished, load, ℕ_discrete, ◌⊎◌, inl, inr,
}
use jullop.Kernel.{Socket, Epoll, EventFd}
use jullop.Ring.Api.{null}
use jullop.MrmwQueue.{Queue}
use jullop.MrmwQueue.Invariant.{Represents}
use jullop.Server.{World}
use jullop.System.{
  at_address, Entry, State, wait_weight, address_weight, with_queue, take_count, update,
}
use jullop.System.Sums.{sum_of, sum_of_mono}
use jullop.System.Queues.{HasQueue, HasQueue-same, AfterCall, with_queue_lem, occurrences}
use jullop.System.Invariant.{IsAssigned-same, IsSystem}
use jullop.System.Orderly.{same-IsOrderly}
use jullop.System.Phases.{done-injective}

reads : {A : Type 0} → (o : Option A) → (o ≡ none) ⊎ ((a : A) × (o ≡ some a))
reads none = inl refl
reads (some a) = inr (a, refl)

unfinished-done : {A : Type 0} → (a : A) → unfinished ≡ done a → ⊥
unfinished-done a e = cc

-- A queue that is not empty, and holds no NULL.
first_request :
    (items : List ℕ)
    → 0 < length items
    → occurrences (at_address null) items ≡ 0
    → (x : ℕ) × (xs : List ℕ) × (items ≡ x ∷ xs) × (x ≢ null)
first_request [] some_left no_null = absurd (omega arith)
first_request (x ∷ xs) some_left no_null = (x, xs, refl, λ same. ground (arith, no_null))

pub update_at : (f : ℕ → ℕ) (i n : ℕ) → update f i n i ≡ n
update_at f i n = ground arith

pub update_other : (f : ℕ → ℕ) (i n j : ℕ) → j ≢ i → update f i n j ≡ f j
update_other f i n j ne = ground arith

module _ (sock : Socket) (ep : Epoll) (efd : EventFd) (listen : ℕ)
    (s : State ep.State efd.State sock.State) (h : IsSystem sock ep efd listen s) where
  -- An operation on the queue of one actor, which leaves the actor `n` rounds.
  pub operated-IsSystem :
      (i n : ℕ) (q' : Queue efd.State) (w : World ep.State efd.State)
      → i < s.world.server.actor_count
      → AfterCall efd s.world i q' w
      → HasQueue efd w.server.app_actors w.epoll.id n s.entries i
      → IsSystem sock ep efd listen (record s { world = w; left = update s.left i n })
  operated-IsSystem i n q' w small op queue = record {
    five = ap (λ z. length z.avg_micros) op.same_stats ∙ h.five;
    some_actor = omega (arith, op.same_count, h.some_actor);
    active = ap (λ z. z.active_connections) op.same_stats ∙ h.active;
    orderly = same-IsOrderly sock ep efd listen s.world w s.entries op.same_epoll h.orderly;
    assigned = IsAssigned-same op.same_count s.entries h.assigned;
    queues = λ j below. elim (ℕ_discrete j i) [
      | yes same ↦
          subst (λ k. HasQueue efd w.server.app_actors w.epoll.id (update s.left i n k) s.entries k)
            (sym same)
            (subst (λ k. HasQueue efd w.server.app_actors w.epoll.id k s.entries i)
              (sym (update_at s.left i n)) queue)
      | no apart ↦
          subst (λ k. HasQueue efd w.server.app_actors w.epoll.id k s.entries j)
            (sym (update_other s.left i n j apart))
            (subst (λ k. HasQueue efd w.server.app_actors k (s.left j) s.entries j)
              (sym (ap (λ z. z.id) op.same_epoll))
              (HasQueue-same efd s.world.server.app_actors w.server.app_actors s.world.epoll.id
                (s.left j) s.entries s.entries j (op.others j apart) (λ x. refl)
                (h.queues j (omega (arith, op.same_count)))))
    ];
  }

  pub operated_queue :
      (i n : ℕ) (q' : Queue efd.State) (w : World ep.State efd.State) (items : List ℕ)
      → AfterCall efd s.world i q' w
      → Represents q' items
      → efd.value q'.add_event + n ≡ length items
      → q'.max_size < 2 ^ 32
      → (entries : List (Entry sock.State))
      → ((test : ℕ → Bool) → occurrences test items ≡ sum_of (wait_weight i test) entries)
      → HasQueue efd w.server.app_actors w.epoll.id n entries i
  operated_queue i n q' w items op holds counted sized entries waits = record {
    items = items;
    at = record {
      info = op.info;
      queue = q';
      actor_at = op.actor_at;
      queue_at = ap (λ z. load op.info.input_queue z.id) op.same_epoll ∙ op.queue_at;
      holds = holds;
    };
    counted = counted;
    sized = sized;
    waits = waits;
  }

  -- The actor reads the counter of its queue.
  pub wakes-IsSystem :
      (i n : ℕ) (w : World ep.State efd.State)
      → i < s.world.server.actor_count
      → s.left i ≡ 0
      → with_queue efd s.world i (λ q. take_count efd (efd.read q.add_event) q) ≡ done (n, w)
      → IsSystem sock ep efd listen (record s { world = w; left = update s.left i n })
  wakes-IsSystem i n w small idle ran =
      let hq = h.queues i small in
      elim (reads (efd.read hq.at.queue.add_event)) [
        | inl nothing ↦
            let stuck : with_queue efd s.world i (λ q. take_count efd (efd.read q.add_event) q)
                ≡ unfinished =
              rw (hq.at.actor_at, hq.at.queue_at, nothing) refl in
            absurd (unfinished-done (n, w) (sym stuck ∙ ran))
        | inr ((k, t), taken) ↦
            let q' : Queue efd.State = record (hq.at.queue) { add_event = t } in
            let (w', runs, op) =
              with_queue_lem efd s.world i k hq.items (λ q. take_count efd (efd.read q.add_event) q)
                q' hq.at (ap (λ z. take_count efd z hq.at.queue) taken) in
            let (is_count, some_left, drained) = efd.read_takes hq.at.queue.add_event t k taken in
            let r = hq.at.holds in
            let queue : HasQueue efd w'.server.app_actors w'.epoll.id k s.entries i =
              operated_queue i k q' w' hq.items op
                (record {
                  allocated = r.allocated;
                  word_sized = r.word_sized;
                  counted = r.counted;
                  bounded = r.bounded;
                  head_in = r.head_in;
                  tail_at = r.tail_at;
                  held = r.held;
                })
                (omega (arith, is_count, drained, hq.counted, idle)) hq.sized s.entries hq.waits in
            subst
              (λ z.
                IsSystem sock ep efd listen (record s { world = z.1; left = update s.left i z.0 }))
              (done-injective (k, w') (n, w) (sym runs ∙ ran))
              (operated-IsSystem i k q' w' (omega (arith, small)) op queue)
      ]

  pub wait-address :
      (i x : ℕ) (e : Entry sock.State) → wait_weight i (at_address x) e ≤ address_weight x e
  wait-address i x e = ground arith

  -- NULL is in no queue.
  null_waits : (i : ℕ) → sum_of (wait_weight {S = sock.State} i (at_address null)) s.entries ≡ 0
  null_waits i = omega (
    arith,
    h.orderly.not_null,
    sum_of_mono (wait_weight i (at_address null)) (address_weight null) s.entries
        (wait-address i null),
  )

  -- An actor with rounds left finds a request.
  pub finds :
      {i : ℕ} (hq : HasQueue efd s.world.server.app_actors s.world.epoll.id (s.left i) s.entries i)
      → 0 < s.left i
      → (x : ℕ) × (xs : List ℕ) × (hq.items ≡ x ∷ xs) × (x ≢ null)
  finds {i} hq some_left =
      first_request hq.items (omega (arith, hq.counted)) (hq.waits (at_address null) ∙ null_waits i)
