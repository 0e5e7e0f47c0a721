-- ===== src/HttpResponse.antt =====
-- src/http_response.c: the text of a response, printed into an output buffer. A text is the list of
-- its bytes.
pub mod Text
pub mod Total
mod Examples
use Prim.Native.Char.{code}
use Prim.Native.String.{String}
use jullop.Base.{
  ℕ, zero, suc, ◌+◌, ◌/◌, ◌%◌, List, [], ◌∷◌, ◌++◌, ◌==◌, if◌then◌else◌, Outcome, done, ◌>>=◌,
}
use jullop.Kernel.{Memory}
use jullop.OutputBuffer.{OutputBuffer, output_buffer_append}

-- The switch of `get_reason`.
unfoldable pub get_reason : ℕ → String
get_reason status_code =
    if status_code == 100
    then "Continue"
    else if status_code == 101
    then "Switching Protocols"
    else if status_code == 200
    then "Ok"
    else if status_code == 201
    then "Created"
    else if status_code == 202
    then "Accepted"
    else if status_code == 203
    then "Non-Authoritative Information"
    else if status_code == 204
    then "No Content"
    else if status_code == 205
    then "Reset Content"
    else if status_code == 206
    then "Partial Content"
    else if status_code == 300
    then "Multiple Choices"
    else if status_code == 301
    then "Moved Permanently"
    else if status_code == 302
    then "Found"
    else if status_code == 303
    then "See Other"
    else if status_code == 304
    then "Not Modified"
    else if status_code == 305
    then "Use Proxy"
    else if status_code == 307
    then "Temporary Redirect"
    else if status_code == 400
    then "Bad Request"
    else if status_code == 401
    then "Unauthorized"
    else if status_code == 402
    then "Payment Required"
    else if status_code == 403
    then "Forbidden"
    else if status_code == 404
    then "Not Found"
    else if status_code == 405
    then "Method Not Allowed"
    else if status_code == 406
    then "Not Acceptable"
    else if status_code == 407
    then "Proxy Authentication Required"
    else if status_code == 408
    then "Request Time-out"
    else if status_code == 409
    then "Conflict"
    else if status_code == 410
    then "Gone"
    else if status_code == 500
    then "Internal Server Error"
    else if status_code == 501
    then "Not Implemented"
    else if status_code == 502
    then "Bad Gateway"
    else if status_code == 503
    then "Service Unavailable"
    else if status_code == 504
    then "Gateway Time-out"
    else if status_code == 505
    then "HTTP Version not supported"
    else "Other"

-- The bytes of a string literal.
abbrev pub text_of : String → List ℕ
text_of String.[] = []
text_of (String.◌∷◌ c s) = code c ∷ text_of s

-- What "%d" prints of a number that is not negative; its digits are the fuel's, which are enough for
-- an `int`.
abbrev pub digits_of : ℕ → ℕ → List ℕ
digits_of zero n = []
digits_of (suc fuel) n =
    let front = digits_of fuel (n / 10) in (if n / 10 == 0 then [] else front) ++ (48 + n % 10) ∷ []

abbrev pub decimal : ℕ → List ℕ
decimal n = digits_of 10 n

-- What "%.*s" prints of an array: its bytes up to a NUL.
abbrev pub until_nul : List ℕ → List ℕ
until_nul [] = []
until_nul (x ∷ xs) = if x == 0 then [] else x ∷ until_nul xs

-- `HttpHeader`: the bytes of the name and of the value, whose lengths are name_len and value_len.
pub record HttpHeader : Type 0 where
  pub name : List ℕ
  pub value : List ℕ

-- The texts of the three calls of `output_buffer_append`.
abbrev pub status_line : ℕ → List ℕ
status_line status_code =
    text_of "HTTP/1.1 "
    ++ decimal status_code
    ++ text_of " "
    ++ text_of (get_reason status_code)
    ++ 13 ∷ 10 ∷ []

-- The casts of the lengths to int keep them below 2 ^ 31 and are left out.
abbrev pub header_line : HttpHeader → List ℕ
header_line header = until_nul header.name ++ text_of ": " ++ until_nul header.value ++ 13 ∷ 10 ∷ []

abbrev pub body_text : List ℕ → List ℕ
body_text body = 13 ∷ 10 ∷ until_nul body

module _ (mem : Memory) (fuel : ℕ) where
  -- The loop over the headers.
  unfoldable pub append_headers : OutputBuffer → List HttpHeader → Outcome OutputBuffer
  append_headers b [] = done b
  append_headers b (header ∷ headers) =
      output_buffer_append mem fuel b (header_line header) >>= λ b'. append_headers b' headers

  -- `http_response_init`; `fuel` is that of each append.
  unfoldable pub http_response_init :
      OutputBuffer → ℕ → List HttpHeader → List ℕ → Outcome OutputBuffer
  http_response_init b status_code headers body =
      output_buffer_append mem fuel b (status_line status_code) >>= λ b'.
      append_headers b' headers >>= λ b''. output_buffer_append mem fuel b'' (body_text body)
