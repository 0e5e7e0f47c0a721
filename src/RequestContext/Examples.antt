-- ===== src/RequestContext/Examples.antt =====
-- Runs of `context_keep_alive` at concrete inputs.
use jullop.Base.{◌≡◌, ◌⊎◌, refl, List, [], ◌∷◌, none}
use jullop.HttpRequest.{Header}
use jullop.RequestContext.{
  RequestContext, connection, keep_alive, keep_alive_from, context_keep_alive, strncmp_differs,
  zero_stats,
}
use jullop.RequestContext.KeepAlive.{AsksKeepAlive, keep_alive_lem}

-- "Host: a", and the header that is looked for.
abbrev two_headers : List Header
two_headers =
    record { name = 72 ∷ 111 ∷ 115 ∷ 116 ∷ []; value = 97 ∷ [] }
    ∷ record { name = connection; value = keep_alive }
    ∷ []

abbrev parsed : RequestContext
parsed = record {
  remote_host = [];
  fd = 9;
  actor_id = none;
  input_buffer = record { buffer = []; length = 0; offset = 0; resize_count = 0 };
  http_request = record {
    method = [];
    path = [];
    minor_version = 1;
    headers = two_headers;
    num_headers = 2;
  };
  output_buffer = record {
    buffer = [];
    length = 0;
    write_from_offset = 0;
    write_into_offset = 0;
    resize_count = 0;
  };
  time_stats = zero_stats;
  epoll_info = 0;
}

found : context_keep_alive parsed ≡ 1
unfolding context_keep_alive keep_alive_from strncmp_differs
found = refl

keep_alive_lem_example :
    AsksKeepAlive two_headers × (context_keep_alive parsed ≡ 1)
    ⊎ (¬ AsksKeepAlive two_headers) × (context_keep_alive parsed ≡ 0)
keep_alive_lem_example = keep_alive_lem parsed
