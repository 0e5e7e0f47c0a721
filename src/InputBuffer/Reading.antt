-- ===== src/InputBuffer/Reading.antt =====
-- What `input_buffer_read_into` does to the buffer and to the socket's stream.
use jullop.Base.{
  ℕ, zero, suc, ◌+◌, ◌*◌, ◌^◌, ◌≤◌, ◌<◌, ◌≡◌, refl, sym, ◌≢◌, ◌∙◌, ap, List, [], ◌∷◌, ◌++◌,
  append-nil, append_assoc, arith, length, length-append, sub_size, done, ◌>>=◌,
}
use jullop.Kernel.{Socket, Memory, ReadResult, received, end_of_file, read_blocked, read_failed}
use jullop.InputBuffer.{
  InputBuffer, ReadState, read_busy, read_error, resize, switch_read, input_buffer_read_into,
}
use jullop.InputBuffer.Growth.{
  IsValid, contents, Serves, resize_makes_room, extended, received_into-extended,
}

-- How the loop answers what the last read(2) returned.
abbrev pub Answers : ReadResult → ReadState → Type 0
Answers read_blocked st = st ≡ read_busy
Answers read_failed st = st ≡ read_error
Answers end_of_file st = st ≡ read_error
Answers (received x xs) st = ⊥

module _ (mem : Memory) (sock : Socket) where
  -- What a call that started at `b` and `s` has done.
  pub record HasRead (b : InputBuffer) (s : sock.State) (st : ReadState) (b' : InputBuffer)
      (t : sock.State) : Type 0 where
    pub valid : IsValid b'
    pub bytes : List ℕ
    pub taken : sock.incoming s ≡ bytes ++ sock.incoming t
    pub stored : contents b' ≡ contents b ++ bytes
    pub before : sock.State
    pub asked : ℕ
    pub result : ReadResult
    pub last_read : sock.read before asked ≡ (result, t)
    pub asked_some : 0 < asked
    pub answer : Answers result st

  read_into-round :
      (fuel : ℕ) (b b' : InputBuffer) (s t : sock.State) (r : ReadResult)
      → resize mem b ≡ done b'
      → sock.read s (sub_size b'.length b'.offset) ≡ (r, t)
      → input_buffer_read_into mem sock (suc fuel) b s
        ≡ switch_read (input_buffer_read_into mem sock fuel) b' r t
  unfolding input_buffer_read_into
  read_into-round fuel b b' s t r e f = rw (e, f)

  abbrev Result : ℕ → ℕ → InputBuffer → sock.State → Type 0
  Result bound fuel b s =
      (st : ReadState) × (b' : InputBuffer) × (t : sock.State) × (input_buffer_read_into mem sock
          fuel b s
        ≡ done (st, b', t))
      × HasRead b s st b' t
      × (b'.length < bound)

  -- A round whose read(2) brings no byte is the last.
  last_round :
      (bound fuel : ℕ) (b b' : InputBuffer) (s t : sock.State) (r : ReadResult) (st : ReadState)
      → input_buffer_read_into mem sock fuel b s ≡ done (st, b', t)
      → sock.read s (sub_size b'.length b'.offset) ≡ (r, t)
      → ((x : ℕ) (xs : List ℕ) → r ≢ received x xs)
      → IsValid b'
      → b'.offset < b'.length
      → b'.length < 2 ^ 63
      → contents b' ≡ contents b
      → Answers r st
      → b'.length < bound
      → Result bound fuel b s
  last_round bound fuel b b' s t r st e f none v room small same ans size = (
    st,
    b',
    t,
    e,
    record {
      valid = v;
      bytes = [];
      taken = sym (sock.read_none s t _ r f none).0;
      stored = same ∙ sym (append-nil (contents b));
      before = s;
      asked = sub_size b'.length b'.offset;
      result = r;
      last_read = f;
      asked_some = omega arith;
      answer = ans;
    },
    size,
  )

  -- A later round's account serves the call that it belongs to.
  add_round :
      (bound fuel : ℕ) (b b' : InputBuffer) (s t u : sock.State) (x : ℕ) (xs : List ℕ)
      → input_buffer_read_into mem sock (suc fuel) b s ≡ input_buffer_read_into mem sock fuel b' t
      → sock.incoming s ≡ (x ∷ xs) ++ sock.incoming t
      → contents b' ≡ contents b ++ x ∷ xs
      → Result bound fuel b' t
      → Result bound (suc fuel) b s
  add_round bound fuel b b' s t u x xs e f g (st, b'', w, done', h, size) = (
    st,
    b'',
    w,
    e ∙ done',
    record {
      valid = h.valid;
      bytes = (x ∷ xs) ++ h.bytes;
      taken = f ∙ ap (λ l. (x ∷ xs) ++ l) h.taken ∙ sym (append_assoc (x ∷ xs) h.bytes _);
      stored = h.stored ∙ ap (λ l. l ++ h.bytes) g ∙ append_assoc (contents b) (x ∷ xs) h.bytes;
      before = h.before;
      asked = h.asked;
      result = h.result;
      last_read = h.last_read;
      asked_some = h.asked_some;
      answer = h.answer;
    },
    size,
  )

  -- There is room for the whole stream below the bound, and fuel for each of its bytes.
  record Bounded (bound fuel : ℕ) (b : InputBuffer) (s : sock.State) : Type 0 where
    valid : IsValid b
    size : b.length < bound
    stream : 2 * (b.offset + length (sock.incoming s)) < bound
    fuel_left : length (sock.incoming s) < fuel

  one_round :
      (bound fuel : ℕ) (b b' : InputBuffer) (s t : sock.State) (r : ReadResult)
      → bound ≤ 2 ^ 63
      → ((b'' : InputBuffer) (u : sock.State) → Bounded bound fuel b'' u → Result bound fuel b'' u)
      → Bounded bound (suc fuel) b s
      → resize mem b ≡ done b'
      → IsValid b'
      → b'.offset < b'.length
      → b'.length < bound
      → b'.offset ≡ b.offset
      → contents b' ≡ contents b
      → sock.read s (sub_size b'.length b'.offset) ≡ (r, t)
      → Result bound (suc fuel) b s
  one_round bound fuel b b' s t read_blocked small ih k e v room size at same f =
      last_round bound (suc fuel) b b' s t read_blocked read_busy
        (read_into-round fuel b b' s t read_blocked e f ∙ unfold switch_read in refl) f
        (λ x xs z. cc) v room (omega arith) same refl size
  one_round bound fuel b b' s t read_failed small ih k e v room size at same f =
      last_round bound (suc fuel) b b' s t read_failed read_error
        (read_into-round fuel b b' s t read_failed e f ∙ unfold switch_read in refl) f
        (λ x xs z. cc) v room (omega arith) same refl size
  one_round bound fuel b b' s t end_of_file small ih k e v room size at same f =
      last_round bound (suc fuel) b b' s t end_of_file read_error
        (read_into-round fuel b b' s t end_of_file e f ∙ unfold switch_read in refl) f
        (λ x xs z. cc) v room (omega arith) same refl size
  one_round bound fuel b b' s t (received x xs) small ih k e v room size at same f =
      let (few, taken, sent) = sock.read_some s t (sub_size b'.length b'.offset) x xs f in
      let (g, v', exact, more) = received_into-extended b' x xs v (omega arith) (omega arith) in
      let counted : length (sock.incoming s) ≡ length (x ∷ xs) + length (sock.incoming t) =
        ap length taken ∙ length-append (x ∷ xs) (sock.incoming t) in
      add_round bound fuel b (extended b' x xs) s t t x xs
        (read_into-round fuel b b' s t (received x xs) e f
          ∙ unfold switch_read in
            ap (λ o. o >>= λ b''. input_buffer_read_into mem sock fuel b'' t) g)
        taken (more ∙ ap (λ l. l ++ x ∷ xs) same)
        (ih (extended b' x xs) t (record {
          valid = v';
          size = size;
          stream = omega (arith, k.stream);
          fuel_left = omega (arith, k.fuel_left);
        }))

  read_into-total :
      (bound fuel : ℕ) (b : InputBuffer) (s : sock.State)
      → bound ≤ 2 ^ 63
      → Serves mem bound
      → Bounded bound fuel b s
      → Result bound fuel b s
  read_into-total bound zero b s small serves k = absurd (omega (arith, k.fuel_left))
  read_into-total bound (suc fuel) b s small serves k =
      let (b', e, v, room, size, at, same) =
        resize_makes_room mem b bound k.valid k.size (omega (arith, k.stream)) small serves in
      one_round bound fuel b b' s _ _ small
        (λ b'' u k'. read_into-total bound fuel b'' u small serves k') k e v room size at same refl

  -- With memory for twice the stream, `input_buffer_read_into` returns: it has stored the bytes that
  -- it read after those of the buffer, in order, and lost none; its last read(2) is the one that
  -- brought no byte, which asked for at least one, with READ_BUSY if that would have blocked and
  -- READ_ERROR if it failed or found the end of the file. The block stays below the bound. One round more than
  -- the stream has bytes is enough fuel.
  pub read_into_lem :
      (bound : ℕ) (b : InputBuffer) (s : sock.State)
      → bound ≤ 2 ^ 63
      → Serves mem bound
      → IsValid b
      → b.length < bound
      → 2 * (b.offset + length (sock.incoming s)) < bound
      → (st : ReadState) × (b' : InputBuffer) × (t : sock.State) × (input_buffer_read_into mem sock
            (suc (length (sock.incoming s)))
            b
            s
          ≡ done (st, b', t))
        × HasRead b s st b' t
        × (b'.length < bound)
  read_into_lem bound b s small serves v size stream =
      read_into-total bound (suc (length (sock.incoming s))) b s small serves
        (record { valid = v; size = size; stream = stream; fuel_left = omega arith })
