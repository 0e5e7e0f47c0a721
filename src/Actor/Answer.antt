-- ===== src/Actor/Answer.antt =====
-- What `handle_request` needs, and that it then returns.
use jullop.Base.{
  ℕ, zero, suc, ◌+◌, ◌*◌, ◌/◌, ◌%◌, ◌^◌, ◌≤◌, ◌<◌, ◌≡◌, refl, arith, false, List, [], ◌∷◌, ◌++◌,
  length, length-append, ◌==◌, leb, Bool-cases, inl, inr, done,
}
use native.Mathlib.Nat.{pow-suc}
use jullop.Kernel.{Memory}
use jullop.OutputBuffer.{OutputBuffer}
use jullop.OutputBuffer.Appending as Output
use jullop.HttpResponse.{
  HttpHeader, get_reason, text_of, digits_of, until_nul, status_line, header_line, body_text,
}
use jullop.HttpResponse.Text.{header_lines}
use jullop.HttpResponse.Total.{response_total}
use jullop.RequestContext.{RequestContext, context_keep_alive}
use jullop.Actor.{print_length, connection_value, response_headers, handle_request}

-- A number below 10 ^ k has at most k digits, and at least one.
pub digits_short : (fuel k n : ℕ) → 0 < k → n < 10 ^ k → length (digits_of fuel n) ≤ k
digits_short zero k n pos h = omega arith
digits_short (suc fuel) zero n pos h = absurd (omega arith)
digits_short (suc fuel) (suc zero) n pos h = ground arith
digits_short (suc fuel) (suc (suc k)) n pos h =
    let less : n / 10 < 10 ^ suc k = omega (arith, pow-suc 10 (suc k)) in
    ground (
      arith,
      digits_short fuel (suc k) (n / 10) (omega arith) less,
      length-append (digits_of fuel (n / 10)) ((48 + n % 10) ∷ []),
    )

digits_some : (fuel n : ℕ) → 0 < length (digits_of (suc fuel) n)
digits_some fuel n = ground (arith, length-append (digits_of fuel (n / 10)) ((48 + n % 10) ∷ []))

length-until_nul : (xs : List ℕ) → length (until_nul xs) ≤ length xs
length-until_nul [] = omega arith
length-until_nul (x ∷ xs) = ground (arith, length-until_nul xs)

line_short :
    (name value : List ℕ)
    → length (name ++ text_of ": " ++ value ++ 13 ∷ 10 ∷ []) ≡ length name + length value + 4
line_short name value = omega (
  arith,
  length-append name (text_of ": "),
  length-append (name ++ text_of ": ") value,
  length-append (name ++ text_of ": " ++ value) (13 ∷ 10 ∷ []),
)

length-header_line : (h : HttpHeader) → length (header_line h) ≤ length h.name + length h.value + 4
length-header_line h = omega (
  arith,
  line_short (until_nul h.name) (until_nul h.value),
  length-until_nul h.name,
  length-until_nul h.value,
)

length-connection_value : (keep : ℕ) → length (connection_value keep) ≤ 10
length-connection_value keep = elim (Bool-cases (keep == 1)) [
  | inl same ↦ rw same (omega arith)
  | inr other ↦ rw other (omega arith)
]

-- Everything but the path takes at most a hundred bytes.
response_short :
    (size body : List ℕ) (keep : ℕ)
    → length size ≤ 9
    → length (status_line 200)
        + length (header_lines (response_headers size keep))
        + length (body_text body)
      ≤ 100 + length body
unfolding get_reason
response_short size body keep h =
    let first : HttpHeader = record { name = text_of "Content-Length"; value = size } in
    let second : HttpHeader = record {
      name = text_of "Connection";
      value = connection_value keep;
    } in
    omega (
      arith,
      length-append (header_line first) (header_line second ++ []),
      length-append (header_line second) [],
      length-header_line first,
      length-header_line second,
      length-connection_value keep,
      length-until_nul body,
    )

module _ (mem : Memory) (most : ℕ) (small : 2 * most < 2 ^ 63)
    (serves : Output.Serves mem (2 * most + 1)) where
  -- For a path of less than 10 ^ 9 bytes, and memory for the response, `handle_request` returns. It
  -- changes only the output buffer, which has the response behind what was there.
  pub handle_request_total :
      (r : RequestContext)
      → Output.IsValid r.output_buffer
      → r.output_buffer.length ≤ 2 * most
      → length r.http_request.path < 10 ^ 9
      → r.output_buffer.write_into_offset + length r.http_request.path + 101 ≤ most
      → (b' : OutputBuffer) × (handle_request mem 2 r ≡ done (record r { output_buffer = b' }))
        × Output.IsValid b'
        × (b'.length ≤ 2 * most)
        × (r.output_buffer.write_into_offset < b'.write_into_offset)
  unfolding handle_request print_length
  handle_request_total r v size path fits =
      let digits = digits_of 20 (length r.http_request.path) in
      let few = digits_short 20 9 (length r.http_request.path) (omega arith) path in
      let some_digit = digits_some 19 (length r.http_request.path) in
      let inside : leb 10 (length digits) ≡ false = ground arith in
      let printed : leb (length digits) 0 ≡ false = ground arith in
      let keep = context_keep_alive r in
      let total = response_short digits r.http_request.path keep few in
      let (b', e, g) =
        response_total mem most small serves r.output_buffer 200 (response_headers digits keep)
          r.http_request.path v size (omega arith) (omega arith) in
      (b', rw (inside, printed, e) refl, g.valid, g.size, omega (arith, g.into))
