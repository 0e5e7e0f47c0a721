-- ===== src/MessagePassing/Sync.antt =====
-- The blocking loop over write(2).
use jullop.Base.{
  ℕ, zero, suc, ◌+◌, ◌-◌, ◌≤◌, ◌<◌, ◌≡◌, refl, arith, true, List, ◌++◌, length, take, drop,
  add_size, sub_size, ltb, dec_lt, ◌∙◌, ap, sym, append_assoc, take-append-drop, drop-drop,
  length-drop, take_all, done,
}
use jullop.Kernel.{Socket, wrote}
use jullop.MessagePassing.{Message, sync_bytes, message_write_sync}

-- A write(2) of some bytes takes at least one of them.
abbrev pub Takes : Socket → Type 0
Takes sock =
    (s : sock.State) (bytes : List ℕ)
    → 0 < length bytes
    → (n : ℕ) × (t : sock.State) × (sock.write s bytes ≡ (wrote (suc n), t))

all_unsent :
    (message : Message)
    → length message.buffer ≡ 8
    → message.offset < 8
    → sync_bytes message ≡ drop message.offset message.buffer
all_unsent message sized inside =
    take_all (sub_size 8 message.offset) (drop message.offset message.buffer)
      (omega (arith, length-drop message.offset message.buffer))

module _ (sock : Socket) where
  round_more :
      (fuel n : ℕ) (message : Message) (s t : sock.State)
      → sock.write s (sync_bytes message) ≡ (wrote (suc n), t)
      → message.offset + suc n < 8
      → message_write_sync sock (suc fuel) message s
        ≡ message_write_sync sock fuel (record message { offset = message.offset + suc n }) t
  unfolding message_write_sync
  round_more fuel n message s t e more =
      let exact : add_size message.offset (suc n) ≡ message.offset + suc n = omega arith in
      let test : ltb (message.offset + suc n) 8 ≡ true = ground arith in rw (e, exact, test) refl

  round_over :
      (fuel n : ℕ) (message : Message) (s t : sock.State)
      → sock.write s (sync_bytes message) ≡ (wrote (suc n), t)
      → message.offset + suc n ≡ 8
      → message_write_sync sock (suc fuel) message s ≡ done (record message { offset = 8 }, t)
  unfolding message_write_sync
  round_over fuel n message s t e full =
      let exact : add_size message.offset (suc n) ≡ 8 = omega arith in rw (e, exact) refl

module _ (sock : Socket) (takes : Takes sock) where
  -- On a message of eight bytes that is not sent yet, and a socket that takes at least one byte at
  -- each write(2), `message_write_sync` returns within a round for each byte that is left; the socket
  -- has accepted just these bytes, in order, and the offset says that all are sent.
  pub message_write_sync_lem :
      (fuel : ℕ) (message : Message) (s : sock.State)
      → length message.buffer ≡ 8
      → message.offset < 8
      → 8 ≤ message.offset + fuel
      → (t : sock.State) × (message_write_sync sock fuel message s
          ≡ done (record message { offset = 8 }, t))
        × (sock.outgoing t ≡ sock.outgoing s ++ drop message.offset message.buffer)
  message_write_sync_lem zero message s sized inside enough = absurd (omega arith)
  message_write_sync_lem (suc fuel) message s sized inside enough =
      let rest = drop message.offset message.buffer in
      let left : length rest ≡ 8 - message.offset =
        omega (arith, length-drop message.offset message.buffer, sized) in
      let all = all_unsent message sized inside in
      let (n, t, e) = takes s (sync_bytes message) (omega (arith, ap length all, left)) in
      let (few, out, _) = sock.write_some s t (sync_bytes message) (suc n) e in
      let sent : sock.outgoing t ≡ sock.outgoing s ++ take (suc n) rest =
        out ∙ ap (λ l. sock.outgoing s ++ take (suc n) l) all in
      elim (dec_lt (message.offset + suc n) 8) [
        | yes more ↦
            let (u, f, last) =
              message_write_sync_lem fuel (record message { offset = message.offset + suc n }) t
                sized more (omega arith) in
            (
              u,
              round_more sock fuel n message s t e more ∙ f,
              last
                  ∙ ap (λ l. sock.outgoing t ++ l)
                      (sym (drop-drop (suc n) message.offset message.buffer))
                  ∙ ap (λ l. l ++ drop (suc n) rest) sent
                  ∙ append_assoc (sock.outgoing s) (take (suc n) rest) (drop (suc n) rest)
                  ∙ ap (λ l. sock.outgoing s ++ l) (take-append-drop (suc n) rest),
            )
        | no over ↦
            let full : message.offset + suc n ≡ 8 = omega (arith, few, ap length all, left) in
            (
              t,
              round_over sock fuel n message s t e full,
              sent ∙ ap (λ l. sock.outgoing s ++ l) (take_all (suc n) rest (omega (arith, left))),
            )
      ]
