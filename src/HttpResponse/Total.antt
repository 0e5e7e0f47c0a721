-- ===== src/HttpResponse/Total.antt =====
-- `http_response_init` returns on every response that there is memory for.
use jullop.Base.{
  ℕ, ◌+◌, ◌*◌, ◌^◌, ◌≤◌, ◌<◌, ◌≡◌, refl, ◌∙◌, arith, List, [], ◌∷◌, length, length-append, done,
}
use jullop.Kernel.{Memory}
use jullop.OutputBuffer.{OutputBuffer}
use jullop.OutputBuffer.Appending.{IsValid, Serves}
use jullop.OutputBuffer.Total.{Grown, append_total}
use jullop.HttpResponse.{
  HttpHeader, status_line, header_line, body_text, append_headers, http_response_init,
}
use jullop.HttpResponse.Text.{header_lines}

module _ (mem : Memory) (most : ℕ) (small : 2 * most < 2 ^ 63)
    (serves : Serves mem (2 * most + 1)) where
  Grown-append :
      (a b c : OutputBuffer) (m n : ℕ)
      → Grown most a m b
      → Grown most b n c
      → Grown most a (m + n) c
  Grown-append a b c m n p q = record {
    valid = q.valid;
    size = q.size;
    into = omega (arith, p.into, q.into);
    from = q.from ∙ p.from;
  }

  headers_total :
      (b : OutputBuffer) (hs : List HttpHeader)
      → IsValid b
      → b.length ≤ 2 * most
      → b.write_into_offset + length (header_lines hs) + 1 ≤ most
      → length (header_lines hs) < 2 ^ 31
      → (b' : OutputBuffer) × (append_headers mem 2 b hs ≡ done b')
        × Grown most b (length (header_lines hs)) b'
  unfolding append_headers
  headers_total b [] v size fits short =
      (b, refl, record { valid = v; size = size; into = omega arith; from = refl })
  headers_total b (h ∷ hs) v size fits short =
      let sum = length-append (header_line h) (header_lines hs) in
      let (b1, e, g) =
        append_total mem most b (header_line h) v small serves size (omega (arith, sum))
          (omega (arith, sum)) in
      let (b2, f, k) =
        headers_total b1 hs g.valid g.size (omega (arith, sum, g.into)) (omega (arith, sum)) in
      let all = Grown-append b b1 b2 (length (header_line h)) (length (header_lines hs)) g k in
      (
        b2,
        rw e f,
        record {
          valid = all.valid;
          size = all.size;
          into = omega (arith, all.into, sum);
          from = all.from;
        },
      )

  -- The length of a whole response.
  abbrev pub response_length : ℕ → List HttpHeader → List ℕ → ℕ
  response_length status_code hs body =
      length (status_line status_code) + length (header_lines hs) + length (body_text body)

  -- With memory for twice as many bytes as may ever be in the buffer, `http_response_init` returns,
  -- whatever the lengths of its texts, and has moved the offset by the length of the response.
  pub response_total :
      (b : OutputBuffer) (status_code : ℕ) (hs : List HttpHeader) (body : List ℕ)
      → IsValid b
      → b.length ≤ 2 * most
      → b.write_into_offset + response_length status_code hs body + 1 ≤ most
      → response_length status_code hs body < 2 ^ 31
      → (b' : OutputBuffer) × (http_response_init mem 2 b status_code hs body ≡ done b')
        × Grown most b (response_length status_code hs body) b'
  unfolding http_response_init
  response_total b status_code hs body v size fits short =
      let (b1, e1, g1) =
        append_total mem most b (status_line status_code) v small serves size (omega arith)
          (omega arith) in
      let (b2, e2, g2) =
        headers_total b1 hs g1.valid g1.size (omega (arith, g1.into)) (omega arith) in
      let (b3, e3, g3) =
        append_total mem most b2 (body_text body) g2.valid small serves g2.size
          (omega (arith, g1.into, g2.into)) (omega arith) in
      (
        b3,
        rw (e1, e2) e3,
        Grown-append b b2 b3 (length (status_line status_code) + length (header_lines hs))
            (length (body_text body))
            (Grown-append b b1 b2 (length (status_line status_code)) (length (header_lines hs)) g1
              g2)
            g3,
      )
