-- ===== src/HttpResponse/Text.antt =====
-- The text that `http_response_init` leaves in the output buffer.
use jullop.Base.{
  ℕ, suc, ◌+◌, ◌-◌, ◌^◌, ◌<◌, ◌≡◌, refl, sym, ap, ◌∙◌, arith, List, [], ◌∷◌, ◌++◌, append-nil,
  append_assoc, length, length-append, done,
}
use jullop.Kernel.{Memory}
use jullop.OutputBuffer.{OutputBuffer, output_buffer_append}
use jullop.OutputBuffer.Appending.{IsValid, contents, room, fits-Appends}
use jullop.HttpResponse.{
  HttpHeader, status_line, header_line, body_text, append_headers, http_response_init,
}

-- All header lines in order.
abbrev pub header_lines : List HttpHeader → List ℕ
header_lines [] = []
header_lines (h ∷ hs) = header_line h ++ header_lines hs

module _ (mem : Memory) (fuel : ℕ) where
  -- A buffer with this much text more, and as much less room.
  record Extends (b : OutputBuffer) (text : List ℕ) (b' : OutputBuffer) : Type 0 where
    valid : IsValid b'
    more : contents b' ≡ contents b ++ text
    from : b'.write_from_offset ≡ b.write_from_offset
    left : room b' ≡ room b - length text

  append-Extends :
      (b : OutputBuffer) (text : List ℕ)
      → IsValid b
      → length text < room b
      → length text < 2 ^ 31
      → (b' : OutputBuffer) × (output_buffer_append mem (suc fuel) b text ≡ done b')
        × Extends b text b'
  unfolding output_buffer_append
  append-Extends b text v fits short =
      let (b', e, v', more, from, left) =
        fits-Appends mem (λ b'. output_buffer_append mem fuel b' text) b text v fits short in
      (b', e, record { valid = v'; more = more; from = from; left = left })

  Extends-append :
      (a b c : OutputBuffer) (s t : List ℕ) → Extends a s b → Extends b t c → Extends a (s ++ t) c
  Extends-append a b c s t p q = record {
    valid = q.valid;
    more = q.more ∙ ap (λ l. l ++ t) p.more ∙ append_assoc (contents a) s t;
    from = q.from ∙ p.from;
    left = omega (arith, p.left, q.left, length-append s t);
  }

  headers-Extends :
      (b : OutputBuffer) (hs : List HttpHeader)
      → IsValid b
      → length (header_lines hs) < room b
      → length (header_lines hs) < 2 ^ 31
      → (b' : OutputBuffer) × (append_headers mem (suc fuel) b hs ≡ done b')
        × Extends b (header_lines hs) b'
  unfolding append_headers
  headers-Extends b [] v fits short = (
    b,
    refl,
    record { valid = v; more = sym (append-nil (contents b)); from = refl; left = omega arith },
  )
  headers-Extends b (h ∷ hs) v fits short =
      let sum = length-append (header_line h) (header_lines hs) in
      let (b', e, x) =
        append-Extends b (header_line h) v (omega (arith, sum)) (omega (arith, sum)) in
      let (b'', e', y) =
        headers-Extends b' hs x.valid (omega (arith, sum, x.left)) (omega (arith, sum)) in
      (b'', rw e e', Extends-append b b' b'' (header_line h) (header_lines hs) x y)

  -- If the whole response is shorter than the room in the buffer, `http_response_init` appends
  -- exactly the status line, the header lines in order and, behind an empty line, the body; it keeps
  -- what the buffer held and what of it was written out. One round is enough fuel for each append.
  pub response_text :
      (b : OutputBuffer) (status_code : ℕ) (hs : List HttpHeader) (body : List ℕ)
      → IsValid b
      → length (status_line status_code) + length (header_lines hs) + length (body_text body)
        < room b
      → length (status_line status_code) + length (header_lines hs) + length (body_text body)
        < 2 ^ 31
      → (b' : OutputBuffer) × (http_response_init mem (suc fuel) b status_code hs body ≡ done b')
        × IsValid b'
        × (contents b'
            ≡ contents b ++ ((status_line status_code ++ header_lines hs) ++ body_text body))
        × (b'.write_from_offset ≡ b.write_from_offset)
  unfolding http_response_init
  response_text b status_code hs body v fits short =
      let line = status_line status_code in
      let (b1, e1, x1) = append-Extends b line v (omega arith) (omega arith) in
      let (b2, e2, x2) = headers-Extends b1 hs x1.valid (omega (arith, x1.left)) (omega arith) in
      let (b3, e3, x3) =
        append-Extends b2 (body_text body) x2.valid (omega (arith, x1.left, x2.left))
          (omega arith) in
      let all =
        Extends-append b b2 b3 (line ++ header_lines hs) (body_text body)
          (Extends-append b b1 b2 line (header_lines hs) x1 x2) x3 in
      (b3, rw (e1, e2) e3, all.valid, all.more, all.from)
