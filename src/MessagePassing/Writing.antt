-- ===== src/MessagePassing/Writing.antt =====
-- What `write_async` does to the offset and to the socket's stream.
use jullop.Base.{
  ℕ, zero, suc, ◌+◌, ◌-◌, ◌^◌, ◌≤◌, ◌<◌, ◌≡◌, refl, arith, true, false, List, ◌++◌, length, take,
  drop, add_size, sub_size, ltb, dec_lt, ◌⊎◌, inl, inr, ◌∙◌, ap, sym, append-nil, append_assoc,
  take-append-drop, drop-drop, length-drop, take_all, Outcome, done,
}
use jullop.Kernel.{Socket, WriteResult, wrote, write_blocked, write_failed}
use jullop.OutputBuffer.{WriteState, write_finish, write_busy, write_error}
use jullop.MessagePassing.{write_answer, write_async}

-- What the buffer has from the offset on.
abbrev pub unsent : List ℕ → ℕ → List ℕ
unsent buffer offset = drop offset buffer

-- How the loop answers a write(2) that took nothing.
abbrev pub Answers : WriteResult → WriteState → Type 0
Answers write_blocked st = st ≡ write_busy
Answers write_failed st = st ≡ write_error
Answers (wrote zero) st = st ≡ write_error
Answers (wrote (suc n)) st = ⊥

module _ {S : Type 0} (next : ℕ → S → Outcome (WriteState × ℕ × S)) where
  write_answer-more :
      (len offset n : ℕ) (t : S)
      → len < 2 ^ 63
      → offset + suc n < len
      → write_answer next len offset (wrote (suc n)) t ≡ next (offset + suc n) t
  unfolding write_answer
  write_answer-more len offset n t small more =
      let exact : add_size offset (suc n) ≡ offset + suc n = omega arith in
      let test : ltb (offset + suc n) len ≡ true = ground arith in rw (exact, test) refl

  write_answer-over :
      (len offset n : ℕ) (t : S)
      → len < 2 ^ 63
      → offset + suc n ≡ len
      → write_answer next len offset (wrote (suc n)) t ≡ done (write_finish, offset + suc n, t)
  unfolding write_answer
  write_answer-over len offset n t small over =
      let exact : add_size offset (suc n) ≡ offset + suc n = omega arith in
      let test : ltb (offset + suc n) len ≡ false = ground arith in rw (exact, test) refl

module _ (sock : Socket) (buffer : List ℕ) where
  -- What a call that started at `offset` and `s` has done: no byte is lost or sent twice, and the loop
  -- is over because all is sent or because write(2) took nothing.
  pub record HasSent (offset : ℕ) (s : sock.State) (st : WriteState) (offset' : ℕ) (t : sock.State)
      : Type 0 where
    pub inside : offset' ≤ length buffer
    pub forward : offset ≤ offset'
    pub conserved :
        sock.outgoing t ++ unsent buffer offset' ≡ sock.outgoing s ++ unsent buffer offset
    pub ended :
        (st ≡ write_finish) × (offset' ≡ length buffer)
        ⊎ (u : sock.State) × (r : WriteResult) × (sock.write u (unsent buffer offset') ≡ (r, t))
          × (offset' < length buffer)
          × Answers r st

  abbrev Result : ℕ → ℕ → sock.State → Type 0
  Result fuel offset s =
      (st : WriteState) × (offset' : ℕ) × (t : sock.State) × (write_async sock fuel buffer
          (length buffer) offset s
        ≡ done (st, offset', t))
      × HasSent offset s st offset' t

  abbrev again : ℕ → ℕ → sock.State → Outcome (WriteState × ℕ × sock.State)
  again fuel offset s = write_async sock fuel buffer (length buffer) offset s

  async-round :
      (fuel offset : ℕ) (s t : sock.State) (r : WriteResult)
      → offset < length buffer
      → length buffer < 2 ^ 63
      → sock.write s (unsent buffer offset) ≡ (r, t)
      → write_async sock (suc fuel) buffer (length buffer) offset s
        ≡ write_answer (again fuel) (length buffer) offset r t
  unfolding write_async
  async-round fuel offset s t r less small e =
      let all : take (sub_size (length buffer) offset) (drop offset buffer) ≡ unsent buffer offset =
        take_all (sub_size (length buffer) offset) (drop offset buffer)
          (omega (arith, length-drop offset buffer)) in
      rw (all, e)

  stopped :
      (fuel offset : ℕ) (s t : sock.State) (r : WriteResult) (st : WriteState)
      → offset < length buffer
      → sock.write s (unsent buffer offset) ≡ (r, t)
      → sock.outgoing t ≡ sock.outgoing s
      → Answers r st
      → write_async sock (suc fuel) buffer (length buffer) offset s ≡ done (st, offset, t)
      → Result (suc fuel) offset s
  stopped fuel offset s t r st less e same ans d = (
    st,
    offset,
    t,
    d,
    record {
      inside = omega arith;
      forward = omega arith;
      conserved = ap (λ l. l ++ unsent buffer offset) same;
      ended = inr (s, r, e, less, ans);
    },
  )

  -- The bytes that a round sends move from what is unsent to what is sent.
  round_conserves :
      (offset n : ℕ) (s t : sock.State)
      → sock.outgoing t ≡ sock.outgoing s ++ take n (unsent buffer offset)
      → sock.outgoing t ++ unsent buffer (offset + n) ≡ sock.outgoing s ++ unsent buffer offset
  round_conserves offset n s t out =
      ap (λ l. sock.outgoing t ++ l) (sym (drop-drop n offset buffer))
      ∙ ap (λ l. l ++ drop n (unsent buffer offset)) out
      ∙ append_assoc (sock.outgoing s) (take n (unsent buffer offset))
          (drop n (unsent buffer offset))
      ∙ ap (λ l. sock.outgoing s ++ l) (take-append-drop n (unsent buffer offset))

  one_round :
      (fuel offset : ℕ) (s t : sock.State) (r : WriteResult)
      → length buffer < 2 ^ 63
      → ((offset' : ℕ) (u : sock.State)
          → offset' < length buffer
          → length buffer - offset' ≤ fuel
          → Result fuel offset' u)
      → offset < length buffer
      → length buffer - offset ≤ suc fuel
      → sock.write s (unsent buffer offset) ≡ (r, t)
      → Result (suc fuel) offset s
  one_round fuel offset s t write_blocked small ih less enough e =
      stopped fuel offset s t write_blocked write_busy less e
        (sock.write_none s t _ _ e (λ n z. cc)).0 refl
        (async-round fuel offset s t write_blocked less small e ∙ unfold write_answer in refl)
  one_round fuel offset s t write_failed small ih less enough e =
      stopped fuel offset s t write_failed write_error less e
        (sock.write_none s t _ _ e (λ n z. cc)).0 refl
        (async-round fuel offset s t write_failed less small e ∙ unfold write_answer in refl)
  one_round fuel offset s t (wrote zero) small ih less enough e =
      stopped fuel offset s t (wrote zero) write_error less e
        ((sock.write_some s t _ _ e).1 ∙ append-nil (sock.outgoing s)) refl
        (async-round fuel offset s t (wrote zero) less small e ∙ unfold write_answer in refl)
  one_round fuel offset s t (wrote (suc n)) small ih less enough e =
      let (few, out, _) = sock.write_some s t _ _ e in
      let counted : offset + suc n ≤ length buffer = omega (arith, length-drop offset buffer) in
      let moved = round_conserves offset (suc n) s t out in
      elim (dec_lt (offset + suc n) (length buffer)) [
        | yes more ↦
            let (st, last, u, d, h) = ih (offset + suc n) t more (omega arith) in
            (
              st,
              last,
              u,
              async-round fuel offset s t (wrote (suc n)) less small e
                  ∙ write_answer-more (again fuel) (length buffer) offset n t small more
                  ∙ d,
              record {
                inside = h.inside;
                forward = omega (arith, h.forward);
                conserved = h.conserved ∙ moved;
                ended = h.ended;
              },
            )
        | no over ↦ (
          write_finish,
          offset + suc n,
          t,
          async-round fuel offset s t (wrote (suc n)) less small e
              ∙ write_answer-over (again fuel) (length buffer) offset n t small (omega arith),
          record {
            inside = counted;
            forward = omega arith;
            conserved = moved;
            ended = inl (refl, omega arith);
          },
        )
      ]

  by_fuel :
      (fuel offset : ℕ) (s : sock.State)
      → length buffer < 2 ^ 63
      → offset < length buffer
      → length buffer - offset ≤ fuel
      → Result fuel offset s
  by_fuel zero offset s small less enough = absurd (omega arith)
  by_fuel (suc fuel) offset s small less enough =
      one_round fuel offset s _ _ small (λ offset' u. by_fuel fuel offset' u small) less enough refl

  -- From an offset inside the buffer, `write_async` returns, on every socket and within a round for
  -- each byte of the buffer. It moves the offset forward; what the socket accepted and what lies
  -- behind the new offset are together what lay behind the old one. It says finished exactly with the
  -- whole buffer sent, busy if the last write(2) would block, and error if that failed or took no byte.
  pub write_async_lem :
      (offset : ℕ) (s : sock.State)
      → length buffer < 2 ^ 63
      → offset < length buffer
      → (st : WriteState) × (offset' : ℕ) × (t : sock.State) × (write_async sock
            (length buffer)
            buffer
            (length buffer)
            offset
            s
          ≡ done (st, offset', t))
        × HasSent offset s st offset' t
  write_async_lem offset s small less = by_fuel (length buffer) offset s small less (omega arith)
