-- ===== src/RequestContext.antt =====
-- src/request_context.c: what belongs to one connection. The printing of the statistics is left out.
-- A free is a loss of the record in the code that calls `context_finalize_destroy`.
pub mod KeepAlive
mod Examples
use Prim.Native.String.{String}
use jullop.Base.{
  ℕ, zero, suc, Bool, true, false, not, List, [], ◌∷◌, length, take, Option, none, ◌==◌, ◌!=◌,
  if◌then◌else◌, replicate, Outcome, done, ◌>>=◌, ◌>>◌, check,
}
use jullop.Kernel.{Memory}
use jullop.HttpRequest.{Header, HttpRequest, num_headers_max}
use jullop.InputBuffer.{InputBuffer, input_buffer_init, input_buffer_reset}
use jullop.OutputBuffer.{OutputBuffer, output_buffer_init, output_buffer_reset}
use jullop.RequestStats.{PerRequestStats, epoch, per_request_clear_time}

-- "Connection"
abbrev pub connection : List ℕ
connection = 67 ∷ 111 ∷ 110 ∷ 110 ∷ 101 ∷ 99 ∷ 116 ∷ 105 ∷ 111 ∷ 110 ∷ []

-- "Keep-Alive"
abbrev pub keep_alive : List ℕ
keep_alive = 75 ∷ 101 ∷ 101 ∷ 112 ∷ 45 ∷ 65 ∷ 108 ∷ 105 ∷ 118 ∷ 101 ∷ []

-- `strncmp(a, b, n) != 0`: at most n bytes are compared, and none behind a NUL.
unfoldable pub strncmp_differs : List ℕ → List ℕ → ℕ → Bool
strncmp_differs a b zero = false
strncmp_differs [] [] (suc n) = false
strncmp_differs [] (y ∷ b) (suc n) = y != 0
strncmp_differs (x ∷ a) [] (suc n) = x != 0
strncmp_differs (x ∷ a) (y ∷ b) (suc n) =
    let rest = strncmp_differs a b n in if x != y then true else if x == 0 then false else rest

-- The loop of `context_keep_alive`, on the headers that it has still to look at.
unfoldable pub keep_alive_from : List Header → ℕ
keep_alive_from [] = 0
keep_alive_from (header ∷ headers) =
    let continue = keep_alive_from headers in
    if length header.name != 10
    then continue
    else if strncmp_differs header.name connection 10
    then continue
    else if length header.value != 10
    then continue
    else if strncmp_differs header.value keep_alive 10
    then continue
    else 1

-- `enum RequestResult`
pub data RequestResult : Type 0 where
  request_success request_epoll_error request_read_error : RequestResult
  request_client_error request_write_error : RequestResult

-- Its default branch is for values outside the enumeration.
pub request_result_name : RequestResult → String
request_result_name request_success = "SUCCESS"
request_result_name request_epoll_error = "EPOLL_ERROR"
request_result_name request_read_error = "READ_ERROR"
request_result_name request_client_error = "CLIENT_ERROR"
request_result_name request_write_error = "WRITE_ERROR"

-- `struct RequestContext`. `actor_id` is `none` for -1; `epoll_info` is the id of the IO worker whose
-- epoll instance the pointer is to.
pub record RequestContext : Type 0 where
  pub remote_host : List ℕ
  pub fd : ℕ
  pub actor_id : Option ℕ
  pub input_buffer : InputBuffer
  pub http_request : HttpRequest
  pub output_buffer : OutputBuffer
  pub time_stats : PerRequestStats
  pub epoll_info : ℕ

abbrev pub buf_size : ℕ
buf_size = 1024

-- What calloc leaves in the parts that `init_request_context` does not set.
abbrev pub zero_header : Header
zero_header = record { name = []; value = [] }

abbrev pub zero_stats : PerRequestStats
zero_stats = record { start = replicate 5 epoch; total_micros = replicate 5 0; is_time_set = 0 }

-- The Booleans say whether the allocations succeed: the context, and the struct of each buffer.
unfoldable pub init_request_context :
    Memory → Bool → Bool → Bool → ℕ → List ℕ → ℕ → Outcome RequestContext
init_request_context mem context_mem input_mem output_mem fd host_name epoll_info = do
  check (not context_mem)
  input ← input_buffer_init mem input_mem buf_size
  output ← output_buffer_init mem output_mem buf_size
  done (record {
    remote_host = host_name;
    fd = fd;
    actor_id = none;
    input_buffer = input;
    http_request = record {
      method = [];
      path = [];
      minor_version = 0;
      headers = replicate num_headers_max zero_header;
      num_headers = num_headers_max;
    };
    output_buffer = output;
    time_stats = per_request_clear_time zero_stats;
    epoll_info = epoll_info;
  })

unfoldable pub context_bytes_read : RequestContext → ℕ
context_bytes_read context = context.input_buffer.offset

unfoldable pub context_bytes_written : RequestContext → ℕ
context_bytes_written context = context.output_buffer.write_from_offset

unfoldable pub context_keep_alive : RequestContext → ℕ
context_keep_alive context =
    keep_alive_from (take context.http_request.num_headers context.http_request.headers)

-- The result is only printed.
unfoldable pub context_finalize_reset : RequestContext → RequestResult → RequestContext
context_finalize_reset context result = record context {
  actor_id = none;
  input_buffer = input_buffer_reset context.input_buffer;
  output_buffer = output_buffer_reset context.output_buffer;
  time_stats = per_request_clear_time context.time_stats;
}

-- `closed` is what close(2) returns.
unfoldable pub context_finalize_destroy : ℕ → RequestContext → RequestResult → Outcome (Unit {0})
context_finalize_destroy closed context result = check (closed != 0)
