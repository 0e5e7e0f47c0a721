-- ===== src/Client/Headers.antt =====
-- The room for headers over the life of a connection: what the parser is told by `num_headers`.
use jullop.Base.{ℕ, ◌≤◌, ◌≡◌, refl, ◌∙◌, arith, length, length-append, length-drop, drop}
use jullop.InputBuffer.{
  InputBuffer, ReadState, read_finish, read_busy, read_error, client_disconnect,
}
use jullop.HttpRequest.{HttpRequest, Parser, http_request_parse}
use jullop.RequestContext.{RequestContext, RequestResult, context_finalize_reset}
use jullop.Client.{parse_after}

module _ (parser : Parser) where
  -- What the handlers do with the request of a context: a parse of what a read left in the buffer, or
  -- the reset between two requests.
  pub data Use (r : RequestContext) : RequestContext → Type 0 where
    parses :
        (st : ReadState) (prev_len : ℕ) (b : InputBuffer)
        → Use r (parse_after parser st prev_len (record r { input_buffer = b })).1
    resets : (result : RequestResult) → Use r (context_finalize_reset r result)

  pub data Uses (r : RequestContext) : RequestContext → Type 0 where
    unused : Uses r r
    then_use : (r' r'' : RequestContext) → Uses r r' → Use r' r'' → Uses r r''

  -- The array of headers stays as large as it is, and no more of it is in use than before.
  record FewerHeaders (before after : HttpRequest) : Type 0 where
    pub same_array : length after.headers ≡ length before.headers
    pub no_more : after.num_headers ≤ before.num_headers

  parse-FewerHeaders :
      (b : InputBuffer) (prev_len : ℕ) (request : HttpRequest)
      → request.num_headers ≤ length request.headers
      → FewerHeaders request (http_request_parse parser b prev_len request).1
  unfolding http_request_parse
  parse-FewerHeaders b prev_len request inside =
      let fit = parser.headers_fit b.buffer request.num_headers prev_len in
      let found = (parser.phr_parse_request b.buffer request.num_headers prev_len).1.headers in
      record {
        same_array = omega (
          arith,
          length-append found (drop (length found) request.headers),
          length-drop (length found) request.headers,
        );
        no_more = fit;
      }

  step-FewerHeaders :
      (r r' : RequestContext)
      → Use r r'
      → r.http_request.num_headers ≤ length r.http_request.headers
      → FewerHeaders r.http_request r'.http_request
  unfolding parse_after context_finalize_reset
  step-FewerHeaders r _ (parses read_finish prev_len b) inside =
      parse-FewerHeaders b prev_len r.http_request inside
  step-FewerHeaders r _ (parses read_busy prev_len b) inside =
      parse-FewerHeaders b prev_len r.http_request inside
  step-FewerHeaders r _ (parses read_error prev_len b) inside = record {
    same_array = refl;
    no_more = omega arith;
  }
  step-FewerHeaders r _ (parses client_disconnect prev_len b) inside = record {
    same_array = refl;
    no_more = omega arith;
  }
  step-FewerHeaders r _ (resets result) inside = record { same_array = refl; no_more = omega arith }

  -- Over any number of parses, complete or not, and of resets between requests, the array of headers
  -- keeps its size, `num_headers` stays inside it, and `num_headers` never grows again.
  pub headers_never_grow :
      (r r' : RequestContext)
      → Uses r r'
      → r.http_request.num_headers ≤ length r.http_request.headers
      → (length r'.http_request.headers ≡ length r.http_request.headers)
        × (r'.http_request.num_headers ≤ length r'.http_request.headers)
        × (r'.http_request.num_headers ≤ r.http_request.num_headers)
  headers_never_grow r _ unused inside = (refl, inside, omega arith)
  headers_never_grow r _ (then_use r' r'' before step) inside =
      let (same, fits, fewer) = headers_never_grow r r' before inside in
      let h = step-FewerHeaders r' r'' step fits in
      (h.same_array ∙ same, omega (arith, h.same_array, h.no_more), omega (arith, h.no_more))
