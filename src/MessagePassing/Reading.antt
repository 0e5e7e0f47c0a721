-- ===== src/MessagePassing/Reading.antt =====
-- What `read_async` does to a buffer of one word and to the socket's stream.
use jullop.Base.{
  ℕ, zero, suc, ◌+◌, ◌-◌, ◌≤◌, ◌<◌, ◌≡◌, ◌≢◌, refl, arith, true, false, List, [], ◌∷◌, ◌++◌, length,
  take, add_size, sub_size, ltb, dec_lt, ◌⊎◌, inl, inr, ◌∙◌, ap, sym, append-nil, append_assoc,
  take-overwrite, length-overwrite, overwrite, copy, word_bytes, Outcome, done,
}
use jullop.Kernel.{Socket, ReadResult, received, end_of_file, read_blocked, read_failed}
use jullop.InputBuffer.{ReadState, read_finish, read_busy, read_error}
use jullop.MessagePassing.{read_answer, read_async}

-- How the loop answers a read(2) that brought nothing.
abbrev pub Answers : ReadResult → ReadState → Type 0
Answers read_blocked st = st ≡ read_busy
Answers read_failed st = st ≡ read_error
Answers end_of_file st = st ≡ read_error
Answers (received x xs) st = ⊥

module _ {S : Type 0} (next : List ℕ → ℕ → S → Outcome (ReadState × List ℕ × ℕ × S)) where
  read_answer-more :
      (buffer : List ℕ) (offset x : ℕ) (xs : List ℕ) (t : S)
      → length buffer ≡ word_bytes
      → offset + length (x ∷ xs) < word_bytes
      → read_answer next buffer offset (received x xs) t
        ≡ next (overwrite buffer offset (x ∷ xs)) (offset + length (x ∷ xs)) t
  unfolding read_answer
  read_answer-more buffer offset x xs t sized more =
      let exact : add_size offset (length (x ∷ xs)) ≡ offset + length (x ∷ xs) = omega arith in
      let test : ltb (offset + length (x ∷ xs)) word_bytes ≡ true = ground arith in
      let fits : copy buffer offset (x ∷ xs) ≡ done (overwrite buffer offset (x ∷ xs)) =
        ground arith in
      rw (fits, exact, test) refl

  read_answer-over :
      (buffer : List ℕ) (offset x : ℕ) (xs : List ℕ) (t : S)
      → length buffer ≡ word_bytes
      → offset + length (x ∷ xs) ≡ word_bytes
      → read_answer next buffer offset (received x xs) t
        ≡ done (read_finish, overwrite buffer offset (x ∷ xs), offset + length (x ∷ xs), t)
  unfolding read_answer
  read_answer-over buffer offset x xs t sized over =
      let exact : add_size offset (length (x ∷ xs)) ≡ offset + length (x ∷ xs) = omega arith in
      let test : ltb (offset + length (x ∷ xs)) word_bytes ≡ false = ground arith in
      let fits : copy buffer offset (x ∷ xs) ≡ done (overwrite buffer offset (x ∷ xs)) =
        ground arith in
      rw (fits, exact, test) refl

module _ (sock : Socket) where
  -- What a call that started at `buffer`, `offset` and `s` has done.
  pub record HasReceived (buffer : List ℕ) (offset : ℕ) (s : sock.State) (st : ReadState)
      (buffer' : List ℕ) (offset' : ℕ) (t : sock.State) : Type 0 where
    pub sized : length buffer' ≡ word_bytes
    pub inside : offset' ≤ word_bytes
    pub bytes : List ℕ
    pub taken : sock.incoming s ≡ bytes ++ sock.incoming t
    pub stored : take offset' buffer' ≡ take offset buffer ++ bytes
    pub ended :
        (st ≡ read_finish) × (offset' ≡ word_bytes)
        ⊎ (u : sock.State) × (r : ReadResult) × (sock.read u (word_bytes - offset') ≡ (r, t))
          × (offset' < word_bytes)
          × Answers r st

  abbrev Result : ℕ → List ℕ → ℕ → sock.State → Type 0
  Result fuel buffer offset s =
      (st : ReadState) × (buffer' : List ℕ) × (offset' : ℕ) × (t : sock.State) × (read_async sock
          fuel buffer word_bytes offset s
        ≡ done (st, buffer', offset', t))
      × HasReceived buffer offset s st buffer' offset' t

  abbrev again : ℕ → List ℕ → ℕ → sock.State → Outcome (ReadState × List ℕ × ℕ × sock.State)
  again fuel buffer offset s = read_async sock fuel buffer word_bytes offset s

  read-round :
      (fuel : ℕ) (buffer : List ℕ) (offset : ℕ) (s t : sock.State) (r : ReadResult)
      → offset < word_bytes
      → sock.read s (word_bytes - offset) ≡ (r, t)
      → read_async sock (suc fuel) buffer word_bytes offset s
        ≡ read_answer (again fuel) buffer offset r t
  unfolding read_async
  read-round fuel buffer offset s t r less e =
      let left : sub_size word_bytes offset ≡ word_bytes - offset = omega arith in rw (left, e)

  stopped :
      (fuel : ℕ) (buffer : List ℕ) (offset : ℕ) (s t : sock.State) (r : ReadResult) (st : ReadState)
      → length buffer ≡ word_bytes
      → offset < word_bytes
      → sock.read s (word_bytes - offset) ≡ (r, t)
      → ((x : ℕ) (xs : List ℕ) → r ≢ received x xs)
      → Answers r st
      → read_async sock (suc fuel) buffer word_bytes offset s ≡ done (st, buffer, offset, t)
      → Result (suc fuel) buffer offset s
  stopped fuel buffer offset s t r st sized less e none ans d = (
    st,
    buffer,
    offset,
    t,
    d,
    record {
      sized = sized;
      inside = omega arith;
      bytes = [];
      taken = sym (sock.read_none s t _ r e none).0;
      stored = sym (append-nil (take offset buffer));
      ended = inr (s, r, e, less, ans);
    },
  )

  one_round :
      (fuel : ℕ) (buffer : List ℕ) (offset : ℕ) (s t : sock.State) (r : ReadResult)
      → ((buffer' : List ℕ) (offset' : ℕ) (u : sock.State)
          → length buffer' ≡ word_bytes
          → offset' < word_bytes
          → word_bytes - offset' ≤ fuel
          → Result fuel buffer' offset' u)
      → length buffer ≡ word_bytes
      → offset < word_bytes
      → word_bytes - offset ≤ suc fuel
      → sock.read s (word_bytes - offset) ≡ (r, t)
      → Result (suc fuel) buffer offset s
  one_round fuel buffer offset s t read_blocked ih sized less enough e =
      stopped fuel buffer offset s t read_blocked read_busy sized less e (λ x xs z. cc) refl
        (read-round fuel buffer offset s t read_blocked less e ∙ unfold read_answer in refl)
  one_round fuel buffer offset s t read_failed ih sized less enough e =
      stopped fuel buffer offset s t read_failed read_error sized less e (λ x xs z. cc) refl
        (read-round fuel buffer offset s t read_failed less e ∙ unfold read_answer in refl)
  one_round fuel buffer offset s t end_of_file ih sized less enough e =
      stopped fuel buffer offset s t end_of_file read_error sized less e (λ x xs z. cc) refl
        (read-round fuel buffer offset s t end_of_file less e ∙ unfold read_answer in refl)
  one_round fuel buffer offset s t (received x xs) ih sized less enough e =
      let (few, got, _) = sock.read_some s t (word_bytes - offset) x xs e in
      let room : offset + length (x ∷ xs) ≤ length buffer = omega arith in
      let kept : length (overwrite buffer offset (x ∷ xs)) ≡ word_bytes =
        length-overwrite buffer offset (x ∷ xs) room ∙ sized in
      let put = take-overwrite buffer offset (x ∷ xs) room in
      elim (dec_lt (offset + length (x ∷ xs)) word_bytes) [
        | yes more ↦
            let (st, last, offset', u, d, h) =
              ih (overwrite buffer offset (x ∷ xs)) (offset + length (x ∷ xs)) t kept more
                (omega arith) in
            (
              st,
              last,
              offset',
              u,
              read-round fuel buffer offset s t (received x xs) less e
                  ∙ read_answer-more (again fuel) buffer offset x xs t sized more
                  ∙ d,
              record {
                sized = h.sized;
                inside = h.inside;
                bytes = (x ∷ xs) ++ h.bytes;
                taken =
                    got ∙ ap (λ l. (x ∷ xs) ++ l) h.taken ∙ sym (append_assoc (x ∷ xs) h.bytes _);
                stored =
                    h.stored
                    ∙ ap (λ l. l ++ h.bytes) put
                    ∙ append_assoc (take offset buffer) (x ∷ xs) h.bytes;
                ended = h.ended;
              },
            )
        | no over ↦ (
          read_finish,
          overwrite buffer offset (x ∷ xs),
          offset + length (x ∷ xs),
          t,
          read-round fuel buffer offset s t (received x xs) less e
              ∙ read_answer-over (again fuel) buffer offset x xs t sized (omega arith),
          record {
            sized = kept;
            inside = omega arith;
            bytes = x ∷ xs;
            taken = got;
            stored = put;
            ended = inl (refl, omega arith);
          },
        )
      ]

  by_fuel :
      (fuel : ℕ) (buffer : List ℕ) (offset : ℕ) (s : sock.State)
      → length buffer ≡ word_bytes
      → offset < word_bytes
      → word_bytes - offset ≤ fuel
      → Result fuel buffer offset s
  by_fuel zero buffer offset s sized less enough = absurd (omega arith)
  by_fuel (suc fuel) buffer offset s sized less enough =
      one_round fuel buffer offset s _ _ (λ buffer' offset' u. by_fuel fuel buffer' offset' u) sized
        less enough refl

  -- On a buffer of one word that is not full, `read_async` returns within a round for each byte of the
  -- word. It has stored the bytes that it read behind those that were there, in order, and lost none.
  -- It says finished exactly with the word full, busy if the last read(2) would block, and error if
  -- that failed or found the end of the file; that read(2) asked for what was missing.
  pub read_async_lem :
      (buffer : List ℕ) (offset : ℕ) (s : sock.State)
      → length buffer ≡ word_bytes
      → offset < word_bytes
      → (st : ReadState) × (buffer' : List ℕ) × (offset' : ℕ) × (t : sock.State) × (read_async sock
            word_bytes buffer word_bytes offset s
          ≡ done (st, buffer', offset', t))
        × HasReceived buffer offset s st buffer' offset' t
  read_async_lem buffer offset s sized less =
      by_fuel word_bytes buffer offset s sized less (omega arith)
