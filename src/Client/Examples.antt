-- ===== src/Client/Examples.antt =====
-- A request without headers, and the room that it leaves for the next one.
use jullop.Base.{◌≤◌, ◌≡◌, arith, [], length, none, replicate}
use jullop.InputBuffer.{InputBuffer, read_finish}
use jullop.HttpRequest.{Parser, consumed, num_headers_max}
use jullop.RequestContext.{
  RequestContext, zero_header, zero_stats, request_success, context_finalize_reset,
}
use jullop.Client.{parse_after}
use jullop.Client.Headers.{unused, then_use, parses, resets, headers_never_grow}

abbrev bare_parser : Parser
bare_parser = record {
  phr_parse_request = λ buf num_headers last_len.
      (consumed 1, record { method = []; path = []; minor_version = 1; headers = [] });
  headers_fit = λ buf num_headers last_len. omega arith;
  path_inside = λ buf num_headers last_len. omega arith;
}

abbrev block : InputBuffer
block = record { buffer = []; length = 0; offset = 0; resize_count = 0 }

abbrev fresh : RequestContext
fresh = record {
  remote_host = [];
  fd = 9;
  actor_id = none;
  input_buffer = block;
  http_request = record {
    method = [];
    path = [];
    minor_version = 0;
    headers = replicate num_headers_max zero_header;
    num_headers = num_headers_max;
  };
  output_buffer = record {
    buffer = [];
    length = 0;
    write_from_offset = 0;
    write_into_offset = 0;
    resize_count = 0;
  };
  time_stats = zero_stats;
  epoll_info = 0;
}

abbrev parsed : RequestContext
parsed = (parse_after bare_parser read_finish 0 (record fresh { input_buffer = block })).1

headers_never_grow_example :
    (length (context_finalize_reset parsed request_success).http_request.headers ≡ 100)
    × ((context_finalize_reset parsed request_success).http_request.num_headers
        ≤ length (context_finalize_reset parsed request_success).http_request.headers)
    × ((context_finalize_reset parsed request_success).http_request.num_headers ≤ 100)
headers_never_grow_example =
    headers_never_grow bare_parser fresh (context_finalize_reset parsed request_success)
      (then_use parsed (context_finalize_reset parsed request_success)
        (then_use fresh parsed unused (parses read_finish 0 block)) (resets request_success))
      (omega arith)
