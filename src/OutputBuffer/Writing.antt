-- ===== src/OutputBuffer/Writing.antt =====
-- What `output_buffer_write_to` does to the buffer and to the socket's stream.
use jullop.Base.{
  ℕ, zero, suc, ◌+◌, ◌-◌, ◌≤◌, ◌<◌, ◌≡◌, refl, sym, ◌⊎◌, inl, inr, ◌∙◌, ap, List, [], ◌∷◌, ◌++◌,
  append_assoc, append-nil, arith, dec_lt, length, length-drop, length-take, take, drop, add_size,
  sub_size, take-append-drop, drop-take, drop-drop, ltb, true, false, done,
}
use jullop.Kernel.{Socket, WriteResult, wrote, write_blocked, write_failed}
use jullop.OutputBuffer.{
  OutputBuffer, WriteState, write_finish, write_busy, write_error, pending, switch_write,
  output_buffer_write_to,
}
use jullop.OutputBuffer.Appending.{IsValid}

-- The default branch of the switch.
abbrev advanced : OutputBuffer → ℕ → OutputBuffer
advanced b n = record b { write_from_offset = add_size b.write_from_offset n }

span :
    (b : OutputBuffer)
    → IsValid b
    → sub_size b.write_into_offset b.write_from_offset ≡ b.write_into_offset - b.write_from_offset
span b v = omega (arith, v.in_order, v.within, v.small)

length-pending :
    (b : OutputBuffer) → IsValid b → length (pending b) ≡ b.write_into_offset - b.write_from_offset
length-pending b v = omega (
  arith,
  length-take (sub_size b.write_into_offset b.write_from_offset)
      (drop b.write_from_offset b.buffer),
  length-drop b.write_from_offset b.buffer,
  span b v,
  v.sized,
  v.within,
)

advanced-IsValid :
    (b : OutputBuffer) (n : ℕ)
    → IsValid b
    → n ≤ length (pending b)
    → IsValid (advanced b n)
      × (add_size b.write_from_offset n ≡ b.write_from_offset + n)
      × (pending (advanced b n) ≡ drop n (pending b))
advanced-IsValid b n v h =
    let few : n ≤ b.write_into_offset - b.write_from_offset = omega (arith, length-pending b v) in
    let exact : add_size b.write_from_offset n ≡ b.write_from_offset + n = omega (arith, v) in
    let v' : IsValid (advanced b n) = record {
      sized = v.sized;
      within = v.within;
      in_order = omega (arith, v.in_order);
      small = v.small;
    } in
    let left : sub_size b.write_into_offset (b.write_from_offset + n)
        ≡ sub_size b.write_into_offset b.write_from_offset - n =
      omega (arith, v.in_order, v.within, v.small) in
    (
      v',
      exact,
      rw (exact, left)
          (sym (
            drop-take n (sub_size b.write_into_offset b.write_from_offset)
              (drop b.write_from_offset b.buffer)
            ∙ ap (take (sub_size b.write_into_offset b.write_from_offset - n))
                (drop-drop n b.write_from_offset b.buffer))),
    )

-- How the loop answers the last write(2) that it made.
abbrev pub Answers : WriteResult → WriteState → Type 0
Answers write_blocked st = st ≡ write_busy
Answers write_failed st = st ≡ write_error
Answers (wrote zero) st = st ≡ write_error
Answers (wrote (suc n)) st = ⊥

not_finished : (r : WriteResult) (st : WriteState) → Answers r st → st ≡ write_finish → ⊥
not_finished write_blocked st a e = cc
not_finished write_failed st a e = cc
not_finished (wrote zero) st a e = cc
not_finished (wrote (suc n)) st a e = a

module _ (sock : Socket) where
  -- What a call that started at `b` and `s` has done: no byte is lost or sent twice, and the loop is
  -- over because nothing is pending or because write(2) took nothing.
  pub record HasWritten (b : OutputBuffer) (s : sock.State) (st : WriteState) (b' : OutputBuffer)
      (t : sock.State) : Type 0 where
    pub valid : IsValid b'
    pub conserved : sock.outgoing t ++ pending b' ≡ sock.outgoing s ++ pending b
    pub text_kept : (b'.write_into_offset ≡ b.write_into_offset) × (b'.buffer ≡ b.buffer)
    pub length_kept : b'.length ≡ b.length
    pub incoming_kept : sock.incoming t ≡ sock.incoming s
    pub ended :
        (st ≡ write_finish) × (pending b' ≡ [])
        ⊎ (u : sock.State) × (r : WriteResult) × (sock.write u (pending b') ≡ (r, t))
          × (0 < length (pending b'))
          × Answers r st

  abbrev Result : ℕ → OutputBuffer → sock.State → Type 0
  Result fuel b s =
      (st : WriteState) × (b' : OutputBuffer) × (t : sock.State) × (output_buffer_write_to sock fuel
          b s
        ≡ done (st, b', t))
      × HasWritten b s st b' t

  write_to-done :
      (fuel : ℕ) (b : OutputBuffer) (s : sock.State)
      → ¬ (b.write_from_offset < b.write_into_offset)
      → output_buffer_write_to sock (suc fuel) b s ≡ done (write_finish, b, s)
  unfolding output_buffer_write_to
  write_to-done fuel b s none =
      let t : ltb b.write_from_offset b.write_into_offset ≡ false = ground arith in rw t

  write_to-round :
      (fuel : ℕ) (b : OutputBuffer) (s t : sock.State) (r : WriteResult)
      → b.write_from_offset < b.write_into_offset
      → sock.write s (pending b) ≡ (r, t)
      → output_buffer_write_to sock (suc fuel) b s
        ≡ switch_write (output_buffer_write_to sock fuel) b r t
  unfolding output_buffer_write_to
  write_to-round fuel b s t r more e =
      let m : ltb b.write_from_offset b.write_into_offset ≡ true = ground arith in rw (m, e)

  -- A round whose write(2) takes nothing is the last.
  stopped :
      (fuel : ℕ) (b : OutputBuffer) (s t : sock.State) (r : WriteResult) (st : WriteState)
      → IsValid b
      → b.write_from_offset < b.write_into_offset
      → sock.write s (pending b) ≡ (r, t)
      → sock.outgoing t ≡ sock.outgoing s
      → sock.incoming t ≡ sock.incoming s
      → Answers r st
      → output_buffer_write_to sock (suc fuel) b s ≡ done (st, b, t)
      → Result (suc fuel) b s
  stopped fuel b s t r st v more e same nothing ans d = (
    st,
    b,
    t,
    d,
    record {
      valid = v;
      conserved = ap (λ l. l ++ pending b) same;
      text_kept = (refl, refl);
      length_kept = refl;
      incoming_kept = nothing;
      ended = inr (s, r, e, omega (arith, length-pending b v), ans);
    },
  )

  one_round :
      (fuel : ℕ) (b : OutputBuffer) (s t : sock.State) (r : WriteResult)
      → ((b' : OutputBuffer) (u : sock.State)
          → IsValid b'
          → length (pending b') < fuel
          → Result fuel b' u)
      → IsValid b
      → length (pending b) < suc fuel
      → b.write_from_offset < b.write_into_offset
      → sock.write s (pending b) ≡ (r, t)
      → Result (suc fuel) b s
  one_round fuel b s t write_blocked ih v enough more e =
      stopped fuel b s t write_blocked write_busy v more e (sock.write_none s t _ _ e (λ n z. cc)).0
        (sock.write_none s t _ _ e (λ n z. cc)).1 refl
        (write_to-round fuel b s t write_blocked more e ∙ unfold switch_write in refl)
  one_round fuel b s t write_failed ih v enough more e =
      stopped fuel b s t write_failed write_error v more e (sock.write_none s t _ _ e (λ n z. cc)).0
        (sock.write_none s t _ _ e (λ n z. cc)).1 refl
        (write_to-round fuel b s t write_failed more e ∙ unfold switch_write in refl)
  one_round fuel b s t (wrote zero) ih v enough more e =
      stopped fuel b s t (wrote zero) write_error v more e
        ((sock.write_some s t _ _ e).1 ∙ append-nil (sock.outgoing s)) (sock.write_some s t _ _ e).2
        refl (write_to-round fuel b s t (wrote zero) more e ∙ unfold switch_write in refl)
  one_round fuel b s t (wrote (suc n)) ih v enough more e =
      let (few, out, same_incoming) = sock.write_some s t _ _ e in
      let (v', exact, left) = advanced-IsValid b (suc n) v few in
      let shorter : length (pending (advanced b (suc n))) < fuel =
        omega (arith, length-drop (suc n) (pending b), ap length left) in
      let (st, b', u, d, h) = ih (advanced b (suc n)) t v' shorter in
      (
        st,
        b',
        u,
        write_to-round fuel b s t (wrote (suc n)) more e ∙ (unfold switch_write in d),
        record {
          valid = h.valid;
          conserved =
              h.conserved
              ∙ ap (λ l. sock.outgoing t ++ l) left
              ∙ ap (λ l. l ++ drop (suc n) (pending b)) out
              ∙ append_assoc (sock.outgoing s) (take (suc n) (pending b)) (drop (suc n) (pending b))
              ∙ ap (λ l. sock.outgoing s ++ l) (take-append-drop (suc n) (pending b));
          text_kept = h.text_kept;
          length_kept = h.length_kept;
          incoming_kept = h.incoming_kept ∙ same_incoming;
          ended = h.ended;
        },
      )

  no_length : (xs : List ℕ) → length xs ≡ 0 → xs ≡ []
  no_length [] e = refl
  no_length (x ∷ xs) e = absurd (omega arith)

  by_fuel :
      (fuel : ℕ) (b : OutputBuffer) (s : sock.State)
      → IsValid b
      → length (pending b) < fuel
      → Result fuel b s
  by_fuel zero b s v enough = absurd (omega arith)
  by_fuel (suc fuel) b s v enough = elim (dec_lt b.write_from_offset b.write_into_offset) [
    | yes more ↦
        one_round fuel b s (sock.write s (pending b)).1 (sock.write s (pending b)).0
          (λ b' u. by_fuel fuel b' u) v enough more refl
    | no none ↦ (
      write_finish,
      b,
      s,
      write_to-done fuel b s none,
      record {
        valid = v;
        conserved = refl;
        text_kept = (refl, refl);
        length_kept = refl;
        incoming_kept = refl;
        ended = inl (refl, no_length (pending b) (omega (arith, length-pending b v)));
      },
    )
  ]

  -- `output_buffer_write_to` returns, on every socket and within one round more than there are bytes
  -- pending. What the socket accepted and what is still pending are together the bytes that were
  -- pending, in order. It says finished exactly with nothing pending; busy if the last write(2)
  -- would block; error if that failed or took no byte.
  pub write_to_lem :
      (b : OutputBuffer) (s : sock.State)
      → IsValid b
      → (st : WriteState) × (b' : OutputBuffer) × (t : sock.State) × (output_buffer_write_to sock
            (suc (length (pending b)))
            b
            s
          ≡ done (st, b', t))
        × HasWritten b s st b' t
  write_to_lem b s v = by_fuel (suc (length (pending b))) b s v (omega arith)

  -- A call that ends with WRITE_FINISH has written all that was pending.
  pub all_written :
      (b : OutputBuffer) (s : sock.State) (st : WriteState) (b' : OutputBuffer) (t : sock.State)
      → HasWritten b s st b' t
      → st ≡ write_finish
      → sock.outgoing t ≡ sock.outgoing s ++ pending b
  all_written b s st b' t h finish = elim h.ended [
    | inl (_, none) ↦
        sym (append-nil (sock.outgoing t)) ∙ ap (λ l. sock.outgoing t ++ l) (sym none) ∙ h.conserved
    | inr (u, r, e, some, answers) ↦ absurd (not_finished r st answers finish)
  ]
