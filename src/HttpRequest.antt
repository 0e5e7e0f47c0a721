-- ===== src/HttpRequest.antt =====
-- src/http_request.c: the call of the parser. The parser is that of the picohttpparser project,
-- an interface here; a pointer that it stores into the buffer is taken for the bytes at it.

use jullop.Base.{ℕ, ◌≤◌, List, ◌++◌, length, drop}
use jullop.InputBuffer.{InputBuffer}

-- `struct phr_header`: the bytes of the name and of the value, whose lengths are name_len and
-- value_len.
pub record Header : Type 0 where
  pub name : List ℕ
  pub value : List ℕ

-- What phr_parse_request returns: the number of bytes consumed, -1, or -2.
pub data PhrResult : Type 0 where
  consumed : ℕ → PhrResult
  failed partial : PhrResult

-- What it stores; `headers` has as many entries as it leaves in num_headers, and an int is its word
-- modulo 2 ^ 32, so that -1 is 2 ^ 32 - 1.
pub record Parsed : Type 0 where
  pub method : List ℕ
  pub path : List ℕ
  pub minor_version : ℕ
  pub headers : List Header

-- phr_parse_request(buf, len, ..., num_headers, last_len). On entry num_headers is the number of
-- headers that there is room for. The path is a part of the buffer.
pub record Parser : Type 0 where
  pub phr_parse_request : List ℕ → ℕ → ℕ → PhrResult × Parsed
  pub headers_fit :
      (buf : List ℕ) (num_headers last_len : ℕ)
      → length (phr_parse_request buf num_headers last_len).1.headers ≤ num_headers
  pub path_inside :
      (buf : List ℕ) (num_headers last_len : ℕ)
      → length (phr_parse_request buf num_headers last_len).1.path ≤ length buf

abbrev pub num_headers_max : ℕ
num_headers_max = 100

-- `struct HttpRequest`; `headers` is the array, of which `num_headers` entries are in use.
pub record HttpRequest : Type 0 where
  pub method : List ℕ
  pub path : List ℕ
  pub minor_version : ℕ
  pub headers : List Header
  pub num_headers : ℕ

-- `enum ParseState`
pub data ParseState : Type 0 where
  parse_finish parse_error parse_incomplete : ParseState

-- The switch of `http_request_parse`.
abbrev pub parse_state : PhrResult → ParseState
parse_state (consumed n) = parse_finish
parse_state failed = parse_error
parse_state partial = parse_incomplete

module _ (parser : Parser) where
  -- The whole block of the buffer is parsed, not only the bytes read.
  unfoldable pub http_request_parse : InputBuffer → ℕ → HttpRequest → ParseState × HttpRequest
  http_request_parse buffer prev_len request =
      let (result, parsed) = parser.phr_parse_request buffer.buffer request.num_headers prev_len in
      (
        parse_state result,
        record {
          method = parsed.method;
          path = parsed.path;
          minor_version = parsed.minor_version;
          headers = parsed.headers ++ drop (length parsed.headers) request.headers;
          num_headers = length parsed.headers;
        },
      )
