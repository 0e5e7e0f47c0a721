-- ===== src/SrswQueue/Init.antt =====
-- What `queue_init` of src/srsw_queue.c makes.
use native.Mathlib.Nat.{pow-le-pow_right}
use mathlib.Core.Path.{subst}
use jullop.Base.{ℕ, ◌/◌, ◌^◌, ◌≤◌, ◌<◌, ◌≡◌, sym, [], arith, replicate, sub_size, done, word_bytes}
use jullop.Kernel.{EventFd}
use jullop.SrswQueue.{Queue, Resources, queue_init, pow_2_size}
use jullop.SrswQueue.Sizes.{pow_2_size-least}
use jullop.SrswQueue.Invariant.{Represents}

module _ (efd : EventFd) where
  -- The queue, with room for `size` pointers by its mask and for an eighth of them by its allocation.
  abbrev pub fresh : Resources → ℕ → Queue efd.State
  fresh r size = record {
    max_size = size;
    mask = sub_size size 1;
    push_offset = 0;
    pop_offset = 0;
    ring_buffer = replicate (size / word_bytes) r.junk;
    add_event = efd.create;
  }

  pub queue_init-fresh :
      (r : Resources) (size : ℕ) (q : Queue efd.State)
      → queue_init efd r size ≡ done q
      → q ≡ fresh r (pow_2_size size)
  unfolding queue_init
  queue_init-fresh r size q e = ground arith

  fresh-Represents :
      (r : Resources) (k size : ℕ) → size ≡ 2 ^ k → k ≤ 32 → Represents (fresh r size) []
  fresh-Represents r k size is_power hi =
      let top : 2 ^ k ≤ 2 ^ 32 = pow-le-pow_right (omega arith) hi in
      let pos : 2 ^ 0 ≤ 2 ^ k = pow-le-pow_right (omega arith) {i = 0} (omega arith) in
      record {
        ring = record {
          bits = k;
          size_at = is_power;
          mask_at = omega (arith, is_power, top, pos);
          small = omega (arith, is_power, top);
          pop_in = omega (arith, is_power, pos);
          push_in = omega (arith, is_power, pos);
        };
        room = omega (arith, is_power, pos);
        push_at = grind (arith, is_power, pos);
        held = tt;
      }

  -- It stands for no items, whatever its memory holds, and its descriptor has counted nothing.
  pub queue_init_lem :
      (r : Resources) (requested : ℕ) (q : Queue efd.State)
      → 0 < requested
      → requested ≤ 2 ^ 32
      → queue_init efd r requested ≡ done q
      → Represents q [] × (efd.value q.add_event ≡ 0)
  queue_init_lem r requested q pos small e =
      let (k, is_power, hi, _, _) = pow_2_size-least requested pos small in
      subst (λ z. Represents z [] × (efd.value z.add_event ≡ 0))
        (sym (queue_init-fresh r requested q e))
        (fresh-Represents r k (pow_2_size requested) is_power hi, efd.value-create)
