-- ===== src/System/Drain.antt =====
-- `process_epoll_event` with the body of its loop: an actor answers all the connections that wait for it.
use mathlib.Core.Path.{subst}
use jullop.Base.{
  ℕ, ◌+◌, ◌*◌, ◌<◌, ◌≤◌, ◌≡◌, ◌≢◌, refl, sym, ◌∙◌, ap, arith, Bool, true, false, List, [], ◌∷◌,
  ◌++◌, length, ◌==◌, if◌then◌else◌, Outcome, done, fault, ◌>>=◌, load,
}
use jullop.Kernel.{Socket, Memory, Epoll, EventFd}
use jullop.OutputBuffer.Appending as Output
use jullop.RequestStats.{Timespec}
use jullop.Ring.Api.{null, NotNull}
use jullop.MrmwQueue.{Queue, Mutex}
use jullop.MrmwQueue.Invariant.{Represents}
use jullop.MrmwQueue.Refine.{Works}
use jullop.Server.{World, ActorInfo}
use jullop.Actor.{answer_request, process_epoll_event}
use jullop.Actor.Drain.{process_epoll_event_lem}
use jullop.Lifecycle.{reading, queued, writing, closed, InPhase, IsQueued, stream_bound}
use jullop.Lifecycle.Answer.{answer_request_lem}
use jullop.System.{at_address, anywhere, Entry, State, wait_weight, address_weight, is_one, env_at}
use jullop.System.Sums.{sum_of-find, sum_of, sum_of-middle, sum_of_mono, All, All-split}
use jullop.System.Queues.{occurrences}
use jullop.System.Invariant.{IsOpen, IsOrderly, IsSystem, wait-queued, wait-not_queued}
use jullop.System.Orderly.{replaced-IsOrderly}
use jullop.System.Phases.{writing-closed, writing-queued, done-injective}

module _ (mem : Memory) (sock : Socket) (ep : Epoll) (efd : EventFd) (m : Mutex)
    (now : ℕ → ℕ → Timespec) (new_address : ℕ → ℕ) (i : ℕ) where
  -- The world and the open connections.
  abbrev pub Scene : Type 0
  Scene = World ep.State efd.State × List (Entry sock.State)

  abbrev pub answer_entry :
      Entry sock.State
      → World ep.State efd.State
      → Outcome (World ep.State efd.State × Entry sock.State)
  answer_entry e w =
      let x = e.connection.address in
      answer_request mem ep (env_at m (now x)) 2 true (new_address x) i w e.connection >>= λ p.
      done (p.0, record e { connection = p.1 })

  -- The pointer `x` is followed to the connection at that address, which is answered; there is no
  -- memory to follow it to if there is no connection there.
  abbrev pub answer_at : ℕ → List (Entry sock.State) → World ep.State efd.State → Outcome Scene
  answer_at x [] w = fault
  answer_at x (e ∷ entries) w =
      let rest = answer_at x entries w in
      if e.connection.address == x
      then (answer_entry e w >>= λ p. done (p.0, p.1 ∷ entries))
      else (rest >>= λ p. done (p.0, e ∷ p.1))

  abbrev pub answer_scene : ℕ → Scene → Outcome Scene
  answer_scene x s = answer_at x s.1 s.0

  answer_at-middle :
      (x : ℕ) (before after : List (Entry sock.State)) (e e' : Entry sock.State)
      (w w' : World ep.State efd.State)
      → sum_of (address_weight x) before ≡ 0
      → e.connection.address ≡ x
      → answer_entry e w ≡ done (w', e')
      → answer_at x (before ++ (e ∷ after)) w ≡ done (w', before ++ (e' ∷ after))
  answer_at-middle x [] after e e' w w' light here ran =
      let same : (e.connection.address == x) ≡ true = ground arith in rw (same, ran) refl
  answer_at-middle x (b ∷ before) after e e' w w' light here ran =
      let apart : (b.connection.address == x) ≡ false = ground arith in
      rw (apart, answer_at-middle x before after e e' w w' (omega arith) here ran) refl

  -- What lies in the queue are the addresses of the connections that wait for the actor.
  record Answerable (listen : ℕ) (items : List ℕ) (s : Scene) : Type 0 where
    pub five : length (s.0).server.server_stats.avg_micros ≡ 5
    pub orderly : IsOrderly sock ep efd listen s.0 s.1
    pub waits : (test : ℕ → Bool) → occurrences test items ≡ sum_of (wait_weight i test) s.1

  weight_le : (x : ℕ) (e : Entry sock.State) → wait_weight i (at_address x) e ≤ address_weight x e
  weight_le x e = ground arith

  no_null : (items : List ℕ) → occurrences (at_address null) items ≡ 0 → NotNull items
  no_null [] h = tt
  no_null (x ∷ items) h = ((λ same. ground (arith, h)), no_null items (omega (arith, h)))

  Answerable-NotNull :
      (listen : ℕ) (items : List ℕ) (s : Scene) → Answerable listen items s → NotNull items
  Answerable-NotNull listen items s h = no_null items (
      omega (
        arith,
        h.waits (at_address null),
        h.orderly.not_null,
        sum_of_mono (wait_weight i (at_address null)) (address_weight null) s.1 (weight_le null),
      ))

  -- A connection that waits is queued.
  is_queued :
      (x : ℕ) (w : World ep.State efd.State) (e : Entry sock.State)
      → IsOpen sock ep efd w e
      → 0 < wait_weight i (at_address x) e
      → InPhase sock ep queued w e.connection e.fd × (e.actor ≡ i) × (e.connection.address ≡ x)
  is_queued x w e (queued, ne, at) waits = (
    at,
    ground (arith, waits, wait-queued sock ep efd w e i (at_address x) at),
    ground (arith, waits, weight_le x e),
  )
  is_queued x w e (closed, ne, at) waits = absurd (ne refl)
  is_queued x w e (reading, ne, at) waits = absurd (
      omega
        (arith, waits, wait-not_queued sock ep efd reading w e i (at_address x) ne (λ z. cc) at))
  is_queued x w e (writing, ne, at) waits = absurd (
      omega
        (arith, waits, wait-not_queued sock ep efd writing w e i (at_address x) ne (λ z. cc) at))

  module _ (listen : ℕ) (serves : Output.Serves mem (8 * stream_bound + 1)) where
    -- The oldest request in the queue is answered, and the others can be answered still.
    answered_at :
        (x : ℕ) (xs : List ℕ) (s : Scene)
        → Answerable listen (x ∷ xs) s
        → (s' : Scene) × (answer_scene x s ≡ done s') × Answerable listen xs s'
    answered_at x xs (w, entries) h =
        let (before, e, after, split, waits) = sum_of-find (wait_weight i (at_address x)) entries (
          let first : 0 < occurrences (at_address x) (x ∷ xs) = ground arith in
          omega (arith, first, h.waits (at_address x))) in
        let orderly : IsOrderly sock ep efd listen w (before ++ (e ∷ after)) =
          subst (IsOrderly sock ep efd listen w) split h.orderly in
        let (_, around) = All-split (IsOpen sock ep efd w) before (e ∷ after) orderly.each in
        let (at, of_i, here) = is_queued x w e around.0 waits in
        let (w', c', runs, writes, more, leaves, same_server, same_address) =
          answer_request_lem mem sock ep efd (env_at m (now e.connection.address))
            (new_address e.connection.address) i w e.connection e.fd serves at h.five in
        let e' : Entry sock.State = record e { connection = c' } in
        let one : address_weight x e ≡ 1 = ground (arith, here) in
        let light : sum_of (address_weight x) before ≡ 0 =
          omega
            (arith, one, orderly.own_address x, sum_of-middle (address_weight x) before e after) in
        let answers : answer_entry e w ≡ done (w', e') = rw runs refl in
        (
          (w', before ++ (e' ∷ after)),
          ap (λ l. answer_at x l w) split
              ∙ answer_at-middle x before after e e' w w' light here answers,
          record {
            five = leaves.five;
            orderly =
                replaced-IsOrderly sock ep efd listen w w' before after e orderly leaves.others e'
                  refl same_address (writing, writing-closed, writes);
            waits = λ test. omega (
              arith,
              h.waits test,
              ap (sum_of (wait_weight i test)) split,
              sum_of-middle (wait_weight i test) before e after,
              sum_of-middle (wait_weight i test) before e' after,
              wait-not_queued sock ep efd writing w' e' i test writing-closed writing-queued writes,
              (let weighs : wait_weight i test e ≡ is_one (test x) =
                    ground (arith, wait-queued sock ep efd w e i test at, of_i, here) in
                  weighs),
            );
          },
        )

module _ (sock : Socket) (ep : Epoll) (efd : EventFd) (i : ℕ) (w : World ep.State efd.State) where
  -- The connection does not wait for the actor.
  abbrev pub IsServed : Entry sock.State → Type 0
  IsServed e = IsQueued sock ep w e.connection e.fd → e.actor ≢ i

  none_waits :
      (entries : List (Entry sock.State))
      → sum_of (wait_weight i anywhere) entries ≡ 0
      → All IsServed entries
  none_waits [] light = tt
  none_waits (e ∷ entries) light = (
    λ at same. absurd (ground (arith, light, same, wait-queued sock ep efd w e i anywhere at)),
    none_waits entries (omega (arith, light)),
  )

module _ (mem : Memory) (sock : Socket) (ep : Epoll) (efd : EventFd) (m : Mutex) (listen : ℕ)
    (works : Works m) (serves : Output.Serves mem (8 * stream_bound + 1)) where
  -- In a server that is in order, with memory and pthread calls that succeed, and an actor `i` between
  -- two calls of `process_epoll_event` for its queue: if nothing is pushed in between, the call returns
  -- within two rounds of its outer loop, whatever the clock says and wherever the new socket contexts
  -- lie. It leaves the queue empty and its event descriptor at zero, and the connections in order, none
  -- of them waiting for the actor.
  pub actor_drains :
      (s : State ep.State efd.State sock.State)
      → IsSystem sock ep efd listen s
      → (i : ℕ) (now : ℕ → ℕ → Timespec) (new_address : ℕ → ℕ) (info : ActorInfo efd.State)
        (queue : Queue efd.State)
      → i < s.world.server.actor_count
      → s.left i ≡ 0
      → load s.world.server.app_actors i ≡ done info
      → load info.input_queue s.world.epoll.id ≡ done queue
      → (q : Queue efd.State) × (w : World ep.State efd.State) × (entries : List (Entry sock.State))
        × (process_epoll_event efd m
              (answer_scene mem sock ep efd m now new_address i)
              2
              queue
              (s.world, s.entries)
            ≡ done (q, (w, entries)))
        × Represents q []
        × (efd.value q.add_event ≡ 0)
        × IsOrderly sock ep efd listen w entries
        × All (IsServed sock ep efd i w) entries
  actor_drains s h i now new_address info queue small idle at_info at_queue =
      let hq = h.queues i small in
      let same_info = done-injective info hq.at.info (sym at_info ∙ hq.at.actor_at) in
      let same_queue : queue ≡ hq.at.queue =
        done-injective queue hq.at.queue (
          sym at_queue
          ∙ ap (λ z. load z.input_queue s.world.epoll.id) same_info
          ∙ hq.at.queue_at) in
      let start : Answerable mem sock ep efd m now new_address i listen hq.items
          (s.world, s.entries) =
        record { five = h.five; orderly = h.orderly; waits = hq.waits } in
      let (q, (w, entries), runs, holds, clear, after) =
        process_epoll_event_lem efd m (answer_scene mem sock ep efd m now new_address i) works
          (Answerable mem sock ep efd m now new_address i listen)
          (λ x xs z k. answered_at mem sock ep efd m now new_address i listen serves x xs z k)
          hq.items queue (s.world, s.entries)
          (Answerable-NotNull mem sock ep efd m now new_address i listen hq.items
            (s.world, s.entries) start)
          (omega (arith, hq.counted, idle, ap (λ z. efd.value z.add_event) same_queue))
          (subst (λ z. Represents z hq.items) (sym same_queue) hq.at.holds) start in
      (
        q,
        w,
        entries,
        runs,
        holds,
        clear,
        after.orderly,
        none_waits sock ep efd i w entries (sym (after.waits anywhere)),
      )
