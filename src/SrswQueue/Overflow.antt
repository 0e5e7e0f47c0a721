-- ===== src/SrswQueue/Overflow.antt =====
-- `queue_init` of src/srsw_queue.c asks posix_memalign for `size` bytes, where the ring needs `size`
-- pointers: the store of a push that the queue accepts can fall outside the allocation.
use native.Mathlib.Nat.{mod-eq_of_lt, pow-le-pow_right}
use jullop.Base.{
  ℕ, ◌+◌, ◌-◌, ◌/◌, ◌^◌, ◌≤◌, ◌<◌, ◌≡◌, refl, ◌≢◌, ◌∙◌, List, [], ◌∷◌, arith, length, length-set,
  length-replicate, some, Outcome, done, fault, ◌>>=◌, word_bytes, add_size,
}
use jullop.Base.Bits.{bit_and-mask}
use jullop.Kernel.{EventFd}
use jullop.SrswQueue.{Queue, Resources, advance, queue_init, queue_push}
use jullop.SrswQueue.Sizes.{pow_2_size_self}
use jullop.SrswQueue.Init.{queue_init-fresh}
use jullop.SrswQueue.Refine.{pushed, queue_push-room}

advance-below : (k x : ℕ) → x + 1 < 2 ^ k → 2 ^ k ≤ 2 ^ 32 → advance (2 ^ k - 1) x ≡ x + 1
advance-below k x lt small =
    let fits : add_size x 1 ≡ x + 1 = omega arith in
    rw (fits, bit_and-mask k (x + 1)) (mod-eq_of_lt lt)

module _ (efd : EventFd) where
  -- One push after the other, whatever each answers.
  unfoldable pub push_all : Queue efd.State → List ℕ → Outcome (Queue efd.State)
  push_all q [] = done q
  push_all q (ptr ∷ ptrs) = queue_push efd q ptr >>= λ p. push_all p.1 ptrs

  -- A ring after `at` pushes and no pop, with `slots` slots allocated.
  record Filling (k slots at : ℕ) (q : Queue efd.State) : Type 0 where
    mask_at : q.mask ≡ 2 ^ k - 1
    none_popped : q.pop_offset ≡ 0
    push_at : q.push_offset ≡ at
    allocated : length q.ring_buffer ≡ slots
    counts : efd.value q.add_event ≡ at

  push_one :
      (k slots at ptr : ℕ) (q : Queue efd.State)
      → Filling k slots at q
      → at < slots
      → slots + 1 < 2 ^ k
      → 2 ^ k ≤ 2 ^ 32
      → (t : efd.State) × (efd.write q.add_event 1 ≡ some t)
        × Filling k slots (at + 1) (pushed efd q ptr t)
  push_one k slots at ptr q f lt room small =
      let (t, w) = efd.write_room q.add_event 1 (omega (arith, f.counts)) in
      (
        t,
        w,
        record {
          mask_at = f.mask_at;
          none_popped = f.none_popped;
          push_at = rw (f.mask_at, f.push_at) (advance-below k at (omega arith) small);
          allocated = length-set q.ring_buffer q.push_offset ptr ∙ f.allocated;
          counts = omega (arith, efd.write_adds q.add_event t 1 w, f.counts);
        },
      )

  push_rest :
      (k slots at : ℕ) (ptrs : List ℕ) (q : Queue efd.State)
      → Filling k slots at q
      → at + length ptrs ≡ slots
      → slots + 1 < 2 ^ k
      → 2 ^ k ≤ 2 ^ 32
      → (q' : Queue efd.State) × (push_all q ptrs ≡ done q') × Filling k slots slots q'
  unfolding push_all
  push_rest k slots at [] q f e room small = (q, refl, ground arith)
  push_rest k slots at (ptr ∷ ptrs) q f e room small =
      let (t, w, g) = push_one k slots at ptr q f (omega arith) room small in
      let next : advance q.mask q.push_offset ≡ at + 1 = ground (arith, g.push_at) in
      let (q', e', done') =
        push_rest k slots (at + 1) ptrs (pushed efd q ptr t) g (omega arith) room small in
      (q', rw (queue_push-room efd q ptr t (λ z. ground arith) (ground arith) w) e', done')

  fault_at_end :
      (k slots ptr : ℕ) (q : Queue efd.State)
      → Filling k slots slots q
      → slots + 1 < 2 ^ k
      → 2 ^ k ≤ 2 ^ 32
      → (advance q.mask q.push_offset ≢ q.pop_offset) × (queue_push efd q ptr ≡ fault)
  unfolding queue_push
  fault_at_end k slots ptr q f room small =
      let next : advance q.mask q.push_offset ≡ slots + 1 =
        rw (f.mask_at, f.push_at) (advance-below k slots room small) in
      (λ z. ground arith, ground arith)

  init-Filling :
      (r : Resources) (k : ℕ) (q : Queue efd.State)
      → k ≤ 32
      → queue_init efd r (2 ^ k) ≡ done q
      → Filling k (2 ^ k / word_bytes) 0 q
  init-Filling r k q hi e =
      let top : 2 ^ k ≤ 2 ^ 32 = pow-le-pow_right (omega arith) hi in
      let pos : 2 ^ 0 ≤ 2 ^ k = pow-le-pow_right (omega arith) {i = 0} (omega arith) in
      rw (queue_init-fresh efd r (2 ^ k) q e, pow_2_size_self k hi)
        (record {
          mask_at = omega arith;
          none_popped = refl;
          push_at = refl;
          allocated = length-replicate (2 ^ k / word_bytes) r.junk;
          counts = efd.value-create;
        })

  -- In a queue that `queue_init` makes for 2 ^ k items (16 at least), an eighth of the pushes succeed;
  -- then the queue is not full by its own test, and the next push stores outside the allocation.
  pub init_too_small :
      (r : Resources) (k : ℕ) (q : Queue efd.State) (ptrs : List ℕ) (ptr : ℕ)
      → 4 ≤ k
      → k ≤ 32
      → queue_init efd r (2 ^ k) ≡ done q
      → length ptrs ≡ 2 ^ k / word_bytes
      → (q' : Queue efd.State) × (push_all q ptrs ≡ done q')
        × (advance q'.mask q'.push_offset ≢ q'.pop_offset)
        × (queue_push efd q' ptr ≡ fault)
  init_too_small r k q ptrs ptr lo hi e n =
      let top : 2 ^ k ≤ 2 ^ 32 = pow-le-pow_right (omega arith) hi in
      let bottom : 2 ^ 4 ≤ 2 ^ k = pow-le-pow_right (omega arith) lo in
      let room : 2 ^ k / word_bytes + 1 < 2 ^ k = omega arith in
      let (q', e', f) =
        push_rest k (2 ^ k / word_bytes) 0 ptrs q (init-Filling r k q hi e) (omega arith) room
          top in
      let (open_slot, falls) = fault_at_end k (2 ^ k / word_bytes) ptr q' f room top in
      (q', e', open_slot, falls)
