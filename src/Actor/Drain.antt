-- ===== src/Actor/Drain.antt =====
-- `process_epoll_event`: the requests that wait in a queue are answered in their order.
use jullop.Base.{
  ℕ, zero, suc, ◌≤◌, ◌<◌, ◌≡◌, ◌≢◌, refl, ◌∙◌, arith, ap, Bool, true, false, List, [], ◌∷◌, length,
  Option, none, some, dec_lt, ◌==◌, ◌⊎◌, inl, inr, Outcome, done,
}
use jullop.Kernel.{EventFd}
use jullop.Ring.Api.{null, NotNull}
use jullop.Ring.Fifo
use jullop.MrmwQueue.{Queue, Mutex}
use jullop.MrmwQueue.Invariant.{Represents}
use jullop.MrmwQueue.Refine.{Works, queue_pop_refines}
use jullop.Actor.{pop_rounds, process_epoll_event}

dec_none : {A : Type 0} → (r : Option A) → (r ≡ none) ⊎ (a : A) × (r ≡ some a)
dec_none none = inl refl
dec_none (some a) = inr (a, refl)

read-Represents :
    {E : Type 0}
    → (q : Queue E) (t : E) (items : List ℕ) → Represents q items
    → Represents (record q { add_event = t }) items
read-Represents q t items rep = record {
  allocated = rep.allocated;
  word_sized = rep.word_sized;
  counted = rep.counted;
  bounded = rep.bounded;
  head_in = rep.head_in;
  tail_at = rep.tail_at;
  held = rep.held;
}

module _ (efd : EventFd) (m : Mutex) {S : Type 0} (answer : ℕ → S → Outcome S) (works : Works m)
    (Can : List ℕ → S → Type 0)
    (answers : (x : ℕ) (xs : List ℕ) (s : S)
      → Can (x ∷ xs) s
      → (s' : S) × (answer x s ≡ done s') × Can xs s') where
  pop_empty :
      (left : ℕ) (q : Queue efd.State) (s : S)
      → Represents q []
      → (q' : Queue efd.State) × (pop_rounds efd m answer (suc left) q s ≡ done (false, q', s))
        × Represents q' []
        × (q'.add_event ≡ q.add_event)
  unfolding pop_rounds Fifo.pop
  pop_empty left q s rep =
      let (q', e, rep', _, same) = queue_pop_refines efd m q [] works rep in
      (q', rw e refl, rep', same)

  pop_one :
      (left x : ℕ) (xs : List ℕ) (q : Queue efd.State) (s s' : S)
      → x ≢ null
      → Represents q (x ∷ xs)
      → answer x s ≡ done s'
      → (q' : Queue efd.State) × (pop_rounds efd m answer (suc left) q s
          ≡ pop_rounds efd m answer left q' s')
        × Represents q' xs
        × (q'.add_event ≡ q.add_event)
  unfolding pop_rounds Fifo.pop
  pop_one left x xs q s s' ne rep ran =
      let (q', e, rep', _, same) = queue_pop_refines efd m q (x ∷ xs) works rep in
      let item : (x == null) ≡ false = ground arith in (q', rw (e, item, ran) refl, rep', same)

  -- The `for` loop answers all that is in the queue if it may take as many rounds.
  rounds_drain :
      (left : ℕ) (items : List ℕ) (q : Queue efd.State) (s : S)
      → NotNull items
      → length items ≤ left
      → Represents q items
      → Can items s
      → (flag : Bool) × (q' : Queue efd.State) × (s' : S) × (pop_rounds efd m answer left q s
          ≡ done (flag, q', s'))
        × Represents q' []
        × (q'.add_event ≡ q.add_event)
        × Can [] s'
  rounds_drain zero [] q s nn enough rep can =
      (true, q, s, unfold pop_rounds in refl, rep, refl, can)
  rounds_drain zero (x ∷ xs) q s nn enough rep can = absurd (omega arith)
  rounds_drain (suc left) [] q s nn enough rep can =
      let (q', e, rep', same) = pop_empty left q s rep in (false, q', s, e, rep', same, can)
  rounds_drain (suc left) (x ∷ xs) q s nn enough rep can =
      let (s1, ran, can1) = answers x xs s can in
      let (q1, e, rep1, same1) = pop_one left x xs q s s1 nn.0 rep ran in
      let (flag, q', s', e', rep', same, can') =
        rounds_drain left xs q1 s1 nn.1 (omega arith) rep1 can1 in
      (flag, q', s', e ∙ e', rep', same ∙ same1, can')

  -- With the counter at zero there is nothing to do.
  quiet :
      (fuel : ℕ) (q : Queue efd.State) (s : S)
      → efd.value q.add_event ≡ 0
      → process_epoll_event efd m answer (suc fuel) q s ≡ done (q, s)
  unfolding process_epoll_event
  quiet fuel q s z = elim (dec_none (efd.read q.add_event)) [
    | inl e ↦ rw e refl
    | inr ((n, t), e) ↦ let (is, pos, _) = efd.read_takes q.add_event t n e in absurd (omega arith)
  ]

  first_round :
      (n : ℕ) (q : Queue efd.State) (t : efd.State) (s : S) (flag : Bool) (q' : Queue efd.State)
      (s' : S)
      → efd.read q.add_event ≡ some (n, t)
      → 0 < n
      → pop_rounds efd m answer n (record q { add_event = t }) s ≡ done (flag, q', s')
      → efd.value q'.add_event ≡ 0
      → process_epoll_event efd m answer 2 q s ≡ done (q', s')
  unfolding process_epoll_event
  first_round n q t s false q' s' e pos r clear =
      let some_read : (n == 0) ≡ false = ground arith in rw (e, some_read, r) refl
  first_round n q t s true q' s' e pos r clear =
      let some_read : (n == 0) ≡ false = ground arith in rw (e, some_read, r) (quiet 0 q' s' clear)

  abbrev pub Drained : Queue efd.State → S → Type 0
  Drained q s =
      (q' : Queue efd.State) × (s' : S) × (process_epoll_event efd m answer 2 q s ≡ done (q', s'))
      × Represents q' []
      × (efd.value q'.add_event ≡ 0)
      × Can [] s'

  nothing_waits :
      (items : List ℕ) (q : Queue efd.State) (s : S)
      → efd.value q.add_event ≡ 0
      → length items ≤ efd.value q.add_event
      → Represents q items
      → Can items s
      → Drained q s
  nothing_waits [] q s z enough rep can = (q, s, quiet 1 q s z, rep, z, can)
  nothing_waits (x ∷ xs) q s z enough rep can = absurd (omega arith)

  -- When the event descriptor has counted at least as many pushes as requests wait, nothing is pushed
  -- in between, and the oldest request can always be answered, `process_epoll_event` returns within
  -- two rounds, and leaves the queue empty and the counter at zero.
  pub process_epoll_event_lem :
      (items : List ℕ) (q : Queue efd.State) (s : S)
      → NotNull items
      → length items ≤ efd.value q.add_event
      → Represents q items
      → Can items s
      → Drained q s
  process_epoll_event_lem items q s nn enough rep can = elim (dec_lt 0 (efd.value q.add_event)) [
    | no idle ↦ nothing_waits items q s (omega arith) enough rep can
    | yes some_events ↦
        let ((n, t), e) = efd.read_ready q.add_event some_events in
        let (is, pos, cleared) = efd.read_takes q.add_event t n e in
        let (flag, q', s', r, rep', same, can') =
          rounds_drain n items (record q { add_event = t }) s nn (omega arith)
            (read-Represents q t items rep) can in
        let clear : efd.value q'.add_event ≡ 0 = ap efd.value same ∙ cleared in
        (q', s', first_round n q t s flag q' s' e pos r clear, rep', clear, can')
  ]
