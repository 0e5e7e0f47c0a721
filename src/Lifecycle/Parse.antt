-- ===== src/Lifecycle/Parse.antt =====
-- `try_parse_http_request`: it returns, and the request context stays sound.
use jullop.Base.{
  ℕ, suc, ◌+◌, ◌*◌, ◌≡◌, refl, arith, ap, Bool, length, length-append, length-take, done,
}
use jullop.Kernel.{Socket, Memory}
use jullop.InputBuffer.{
  InputBuffer, ReadState, read_finish, read_busy, read_error, client_disconnect,
}
use jullop.InputBuffer.Growth as Input
use jullop.InputBuffer.Reading.{HasRead, read_into_lem}
use jullop.HttpRequest.{Parser, http_request_parse}
use jullop.RequestContext.{RequestContext}
use jullop.Client.{parse_after, try_parse_http_request}
use jullop.Lifecycle.{stream_bound, IsSound}

-- The bytes read and those to come are together what they were.
counted :
    (mem : Memory) (sock : Socket) (b b' : InputBuffer) (s t : sock.State) (st : ReadState)
    → Input.IsValid b
    → HasRead mem sock b s st b' t
    → b'.offset + length (sock.incoming t) ≡ b.offset + length (sock.incoming s)
counted mem sock b b' s t st v h = omega (
  arith,
  ap length h.taken,
  length-append h.bytes (sock.incoming t),
  ap length h.stored,
  length-append (Input.contents b) h.bytes,
  length-take b.offset b.buffer,
  length-take b'.offset b'.buffer,
  v.sized,
  v.filled,
  h.valid.sized,
  h.valid.filled,
)

-- What a part of a handler leaves of the fields of a request context that it does not work on.
pub record Keeps (r r' : RequestContext) : Type 0 where
  pub same_fd : r'.fd ≡ r.fd
  pub same_timers : r'.time_stats ≡ r.time_stats
  pub same_output : r'.output_buffer ≡ r.output_buffer

module _ (sock : Socket) (parser : Parser) where
  -- Whatever the parser stores, the path lies in the buffer.
  parsed-IsSound :
      (prev_len : ℕ) (r : RequestContext) (peer : sock.State) (runs : ℕ → Bool)
      → IsSound sock r peer runs
      → let parsed = (http_request_parse parser r.input_buffer prev_len r.http_request).1 in
        IsSound sock (record r { http_request = parsed }) peer runs
        × Keeps r (record r { http_request = parsed })
  unfolding http_request_parse
  parsed-IsSound prev_len r peer runs h =
      let inside = parser.path_inside r.input_buffer.buffer r.http_request.num_headers prev_len in
      (
        record {
          input_valid = h.input_valid;
          input_small = h.input_small;
          stream = h.stream;
          output_valid = h.output_valid;
          output_small = h.output_small;
          path_small = omega (arith, inside, h.input_valid.sized, h.input_small);
          timers = h.timers;
        },
        record { same_fd = refl; same_timers = refl; same_output = refl },
      )

  parse_after-IsSound :
      (st : ReadState) (prev_len : ℕ) (r : RequestContext) (peer : sock.State) (runs : ℕ → Bool)
      → IsSound sock r peer runs
      → IsSound sock (parse_after parser st prev_len r).1 peer runs
        × Keeps r (parse_after parser st prev_len r).1
  unfolding parse_after
  parse_after-IsSound read_finish prev_len r peer runs h = parsed-IsSound prev_len r peer runs h
  parse_after-IsSound read_busy prev_len r peer runs h = parsed-IsSound prev_len r peer runs h
  parse_after-IsSound read_error prev_len r peer runs h =
      (h, record { same_fd = refl; same_timers = refl; same_output = refl })
  parse_after-IsSound client_disconnect prev_len r peer runs h =
      (h, record { same_fd = refl; same_timers = refl; same_output = refl })

  abbrev pub Parses : Memory → RequestContext → sock.State → (ℕ → Bool) → Type 0
  Parses mem r peer runs =
      (st : ReadState) × (r' : RequestContext) × (peer' : sock.State) × (try_parse_http_request mem
          sock parser (suc (length (sock.incoming peer))) r peer
        ≡ done (st, r', peer'))
      × IsSound sock r' peer' runs
      × Keeps r r'

  -- `try_parse_http_request` returns, and keeps a request context sound.
  pub try_parse_lem :
      (mem : Memory) (r : RequestContext) (peer : sock.State) (runs : ℕ → Bool)
      → Input.Serves mem (2 * stream_bound)
      → IsSound sock r peer runs
      → Parses mem r peer runs
  unfolding try_parse_http_request
  try_parse_lem mem r peer runs serves h =
      let (st, b, peer', e, read, size) =
        read_into_lem mem sock (2 * stream_bound) r.input_buffer peer (omega arith) serves
          h.input_valid h.input_small (omega (arith, h.stream)) in
      let sum = counted mem sock r.input_buffer b peer peer' st h.input_valid read in
      let now : IsSound sock (record r { input_buffer = b }) peer' runs = record {
        input_valid = read.valid;
        input_small = size;
        stream = omega (arith, sum, h.stream);
        output_valid = h.output_valid;
        output_small = h.output_small;
        path_small = h.path_small;
        timers = h.timers;
      } in
      let (sound, keeps) =
        parse_after-IsSound st r.input_buffer.offset (record r { input_buffer = b }) peer' runs
          now in
      (
        (parse_after parser st r.input_buffer.offset (record r { input_buffer = b })).0,
        (parse_after parser st r.input_buffer.offset (record r { input_buffer = b })).1,
        peer',
        rw e refl,
        sound,
        record {
          same_fd = keeps.same_fd;
          same_timers = keeps.same_timers;
          same_output = keeps.same_output;
        },
      )
