-- ===== src/MessagePassing/SyncReading.antt =====
-- The blocking loop over read(2), and a pointer that one end sends and the other receives.
use jullop.Base.{
  ℕ, zero, suc, ◌+◌, ◌-◌, ◌≤◌, ◌<◌, ◌≡◌, refl, arith, true, false, List, [], ◌∷◌, ◌++◌, length,
  take, add_size, sub_size, ltb, dec_lt, ◌∙◌, ap, sym, append-nil, append_assoc, length-append,
  take-overwrite, length-overwrite, overwrite, copy, done, drop, take_all, size_mod,
}
use jullop.Kernel.{Socket, received}
use jullop.MessagePassing.{
  Message, bytes_of, message_init, message_reset, message_get_payload, message_write_sync,
  message_read_sync, after_sync_read,
}
use jullop.MessagePassing.Pointer.{init_payload}
use jullop.MessagePassing.Sync.{Takes, message_write_sync_lem}

-- A read(2) that is asked for some bytes gives at least one of those that are still to come.
abbrev pub Gives : Socket → Type 0
Gives sock =
    (s : sock.State) (n : ℕ)
    → 0 < n
    → 0 < length (sock.incoming s)
    → (x : ℕ) × (xs : List ℕ) × (t : sock.State) × (sock.read s n ≡ (received x xs, t))

done-same : {A : Type 0} (x y : A) → done x ≡ done y → x ≡ y
done-same x y e = cc

take_at : (xs : List ℕ) (n : ℕ) → n ≡ 8 → take 8 xs ≡ take n xs
take_at xs n e = ap (λ k. take k xs) (sym e)

no_length : (xs : List ℕ) → length xs ≡ 0 → xs ≡ []
no_length [] e = refl
no_length (x ∷ xs) e = absurd (omega arith)

init-offset :
    (message message' : Message) (ptr : ℕ)
    → message_init message ptr ≡ done message'
    → length message.buffer ≡ 8
    → message'.offset ≡ 0
unfolding message_init bytes_of
init-offset message message' ptr e sized =
    let bytes = bytes_of 8 ptr in
    let fits : copy message.buffer 0 bytes ≡ done (overwrite message.buffer 0 bytes) =
      ground arith in
    let m : Message = record { buffer = overwrite message.buffer 0 bytes; offset = 0 } in
    let runs : message_init message ptr ≡ done m = rw fits refl in
    sym (ap (λ z. z.offset) (done-same m message' (sym runs ∙ e)))

module _ (sock : Socket) where
  abbrev stored : Message → List ℕ → Message
  stored message bytes = record {
    buffer = overwrite message.buffer message.offset bytes;
    offset = message.offset + length bytes;
  }

  after_received :
      (message : Message) (x : ℕ) (xs : List ℕ)
      → length message.buffer ≡ 8
      → message.offset + length (x ∷ xs) ≤ 8
      → after_sync_read message (received x xs) ≡ done (stored message (x ∷ xs))
  after_received message x xs sized room =
      let exact : add_size message.offset (length (x ∷ xs)) ≡ message.offset + length (x ∷ xs) =
        omega arith in
      let fits : copy message.buffer message.offset (x ∷ xs)
          ≡ done (overwrite message.buffer message.offset (x ∷ xs)) =
        ground arith in
      rw (fits, exact) refl

  read_more :
      (fuel x : ℕ) (xs : List ℕ) (message : Message) (s t : sock.State)
      → sock.read s (8 - message.offset) ≡ (received x xs, t)
      → length message.buffer ≡ 8
      → message.offset + length (x ∷ xs) < 8
      → message_read_sync sock (suc fuel) message s
        ≡ message_read_sync sock fuel (stored message (x ∷ xs)) t
  unfolding message_read_sync
  read_more fuel x xs message s t e sized more =
      let left : sub_size 8 message.offset ≡ 8 - message.offset = omega arith in
      let test : ltb (message.offset + length (x ∷ xs)) 8 ≡ true = ground arith in
      rw (left, e, after_received message x xs sized (omega arith), test) refl

  read_over :
      (fuel x : ℕ) (xs : List ℕ) (message : Message) (s t : sock.State)
      → sock.read s (8 - message.offset) ≡ (received x xs, t)
      → length message.buffer ≡ 8
      → message.offset + length (x ∷ xs) ≡ 8
      → message_read_sync sock (suc fuel) message s ≡ done (stored message (x ∷ xs), t)
  unfolding message_read_sync
  read_over fuel x xs message s t e sized full =
      let left : sub_size 8 message.offset ≡ 8 - message.offset = omega arith in
      let test : ltb (message.offset + length (x ∷ xs)) 8 ≡ false = ground arith in
      rw (left, e, after_received message x xs sized (omega arith), test) refl

  -- What the loop has done when it returns.
  pub record Received (fuel : ℕ) (message : Message) (s : sock.State) : Type 0 where
    pub last : Message
    pub end_state : sock.State
    pub bytes : List ℕ
    pub runs : message_read_sync sock fuel message s ≡ done (last, end_state)
    pub sized : length last.buffer ≡ 8
    pub full : last.offset ≡ 8
    pub taken : sock.incoming s ≡ bytes ++ sock.incoming end_state
    pub put : take 8 last.buffer ≡ take message.offset message.buffer ++ bytes

  module _ (gives : Gives sock) where
    pub message_read_sync_lem :
        (fuel : ℕ) (message : Message) (s : sock.State)
        → length message.buffer ≡ 8
        → message.offset < 8
        → 8 ≤ message.offset + fuel
        → 8 ≤ message.offset + length (sock.incoming s)
        → Received fuel message s
    message_read_sync_lem zero message s sized inside enough coming = absurd (omega arith)
    message_read_sync_lem (suc fuel) message s sized inside enough coming =
        let (x, xs, t, e) = gives s (8 - message.offset) (omega arith) (omega arith) in
        let (few, got, _) = sock.read_some s t (8 - message.offset) x xs e in
        let room : message.offset + length (x ∷ xs) ≤ length message.buffer = omega arith in
        let kept = length-overwrite message.buffer message.offset (x ∷ xs) room ∙ sized in
        let put = take-overwrite message.buffer message.offset (x ∷ xs) room in
        elim (dec_lt (message.offset + length (x ∷ xs)) 8) [
          | yes more ↦
              let h =
                message_read_sync_lem fuel (stored message (x ∷ xs)) t kept more (omega arith) (
                  omega (arith, coming, ap length got, length-append (x ∷ xs) (sock.incoming t))) in
              record {
                last = h.last;
                end_state = h.end_state;
                bytes = (x ∷ xs) ++ h.bytes;
                runs = read_more fuel x xs message s t e sized more ∙ h.runs;
                sized = h.sized;
                full = h.full;
                taken =
                    got ∙ ap (λ l. (x ∷ xs) ++ l) h.taken ∙ sym (append_assoc (x ∷ xs) h.bytes _);
                put =
                    h.put
                    ∙ ap (λ l. l ++ h.bytes) put
                    ∙ append_assoc (take message.offset message.buffer) (x ∷ xs) h.bytes;
              }
          | no over ↦ record {
            last = stored message (x ∷ xs);
            end_state = t;
            bytes = x ∷ xs;
            runs = read_over fuel x xs message s t e sized (omega arith);
            sized = kept;
            full = omega arith;
            taken = got;
            put =
                take_at (overwrite message.buffer message.offset (x ∷ xs))
                  (message.offset + length (x ∷ xs)) (omega arith)
                ∙ put;
          }
        ]

module _ (a b : Socket) (takes : Takes a) (gives : Gives b) where
  -- A pointer that `message_init` puts into a message, and that `message_write_sync` writes to a
  -- socket that takes at least one byte at each write(2), comes out at the other end, where each
  -- read(2) gives at least one byte: `message_read_sync` on a message that was reset returns within
  -- eight rounds, `message_get_payload` gives the pointer, and nothing is left to be read.
  pub pointer_passed :
      (sender sender' sent receiver : Message) (s t : a.State) (r : b.State) (ptr : ℕ)
      → length sender.buffer ≡ 8
      → length receiver.buffer ≡ 8
      → ptr < size_mod
      → a.outgoing s ≡ []
      → message_init sender ptr ≡ done sender'
      → message_write_sync a 8 sender' s ≡ done (sent, t)
      → b.incoming r ≡ a.outgoing t
      → (got : Message) × (u : b.State) × (message_read_sync b 8 (message_reset receiver) r
          ≡ done (got, u))
        × (message_get_payload got ≡ done ptr)
        × (b.incoming u ≡ [])
  unfolding message_reset
  pointer_passed sender sender' sent receiver s t r ptr sized room small fresh init wrote_all link =
      let (m, e, size, back, _) = init_payload sender ptr sized small in
      let same : m ≡ sender' = done-same m sender' (sym e ∙ init) in
      let start = init-offset sender sender' ptr init sized in
      let size' : length sender'.buffer ≡ 8 = ap (λ z. length z.buffer) (sym same) ∙ size in
      let (t', f, out) =
        message_write_sync_lem a takes 8 sender' s size' (omega (arith, start)) (omega arith) in
      let written : t' ≡ t =
        ap (λ z. z.1)
          (done-same (record sender' { offset = 8 }, t') (sent, t) (sym f ∙ wrote_all)) in
      let coming : b.incoming r ≡ sender'.buffer =
        link
        ∙ ap a.outgoing (sym written)
        ∙ out
        ∙ ap (λ l. l ++ drop sender'.offset sender'.buffer) fresh
        ∙ ap (λ n. drop n sender'.buffer) start in
      let h =
        message_read_sync_lem b gives 8 (message_reset receiver) r room (omega arith) (omega arith)
          (omega (arith, ap length coming, size')) in
      let whole : h.last.buffer ≡ h.bytes =
        sym (take_all 8 h.last.buffer (omega (arith, h.sized))) ∙ h.put in
      let none_left : b.incoming h.end_state ≡ [] = no_length (b.incoming h.end_state) (
        omega (
          arith,
          ap length h.taken,
          ap length coming,
          size',
          ap length whole,
          h.sized,
          length-append h.bytes (b.incoming h.end_state),
        )) in
      let arrived : h.last.buffer ≡ m.buffer =
        whole
        ∙ sym (append-nil h.bytes)
        ∙ ap (λ l. h.bytes ++ l) (sym none_left)
        ∙ sym h.taken
        ∙ coming
        ∙ ap (λ z. z.buffer) (sym same) in
      (h.last, h.end_state, h.runs, back h.last arrived h.full, none_left)
