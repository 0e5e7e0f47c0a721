-- ===== src/Actor.antt =====
-- src/actor.c: the thread that answers requests.
pub mod Answer
pub mod Drain
use jullop.Base.{
  ℕ, zero, suc, Bool, true, false, not, List, [], ◌∷◌, Option, none, some, length, leb, ◌==◌,
  if◌then◌else◌, Outcome, done, fault, unfinished, ◌>>=◌, ◌>>◌, check,
}
use jullop.Kernel.{Socket, Memory, Epoll, EventFd}
use jullop.Ring.Api.{null}
use jullop.RequestStats.{actor_time, queue_time, per_request_record_start, per_request_record_end}
use jullop.MrmwQueue.{Queue, Mutex, queue_pop}
use jullop.EpollInfo.{EpollInfo, add_input_epoll_event, add_output_epoll_event}
use jullop.HttpResponse.{HttpHeader, text_of, digits_of, http_response_init}
use jullop.RequestContext.{RequestContext, context_keep_alive}
use jullop.Server.{World, Connection, SocketContext, client_write, client_error, Env, deref}

-- sprintf(content_length_value, "%zu", n) into ten bytes, with the final NUL: undefined where they
-- are too few.
unfoldable pub print_length : ℕ → Outcome (List ℕ)
print_length n =
    let digits = digits_of 20 n in if leb 10 (length digits) then fault else done digits

abbrev pub connection_value : ℕ → List ℕ
connection_value keep = if keep == 1 then text_of "keep-alive" else text_of "close"

-- The two headers of a response.
abbrev pub response_headers : List ℕ → ℕ → List HttpHeader
response_headers size keep =
    record { name = text_of "Content-Length"; value = size }
    ∷ record { name = text_of "Connection"; value = connection_value keep }
    ∷ []

module _ (mem : Memory) (fuel : ℕ) where
  unfoldable pub handle_request : RequestContext → Outcome RequestContext
  handle_request context = do
    let request = context.http_request
    size ← print_length (length request.path)
    check (leb (length size) 0)
    output ←
        http_response_init mem fuel context.output_buffer 200
          (response_headers size (context_keep_alive context)) request.path
    done (record context { output_buffer = output })

-- The body of the `for` loop of `process_epoll_event` behind the NULL test, for a request that was
-- popped. The arguments say whether the allocation of the socket context succeeds, and where it lies.
module _ (mem : Memory) (ep : Epoll) {Q S : Type 0} (env : Env) (fuel : ℕ) where
  unfoldable pub answer_request :
      Bool → ℕ → ℕ → World ep.State Q → Connection S → Outcome (World ep.State Q × Connection S)
  answer_request context_mem address actor_id w c = do
    request ← deref c.request
    waited ← per_request_record_end request.time_stats queue_time (env.now 0)
    started ← per_request_record_start waited actor_time (env.now 1)
    answered ←
        handle_request mem fuel (record request { actor_id = some actor_id; time_stats = started })
    ended ← per_request_record_end answered.time_stats actor_time (env.now 2)
    check (not context_mem)
    epoll ← add_output_epoll_event ep w.epoll answered.fd address
    done (
      record w { epoll = epoll },
      record c {
        request = some (record answered { time_stats = ended });
        context_address = address;
        context = some (record {
          input_handler = none;
          output_handler = some client_write;
          error_handler = some client_error;
        });
      },
    )

-- The early return where a call gave -1.
abbrev pub unless_none : {A B : Type 0} → Option A → B → (A → B) → B
unless_none none b f = b
unless_none (some a) b f = f a

module _ (efd : EventFd) (m : Mutex) {S : Type 0} (answer : ℕ → S → Outcome S) where
  -- The `for` loop, with the number of rounds left; `answer` is its body behind the NULL test, which
  -- System/Drain makes of `answer_request`. The Boolean says that the loop ended, and not the function.
  unfoldable pub pop_rounds : ℕ → Queue efd.State → S → Outcome (Bool × Queue efd.State × S)
  pop_rounds zero q s = done (true, q, s)
  pop_rounds (suc left) q s = queue_pop efd m q >>= λ p.
      if p.0 == null then done (false, p.1, s) else answer p.0 s >>= λ s'. pop_rounds left p.1 s'

  -- `process_epoll_event`, for at most so many rounds of its outer loop.
  unfoldable pub process_epoll_event : ℕ → Queue efd.State → S → Outcome (Queue efd.State × S)
  process_epoll_event zero q s = unfinished
  process_epoll_event (suc fuel) q s =
      unless_none (efd.read q.add_event) (done (q, s)) (λ (num_to_read, event).
        if num_to_read == 0
        then done (record q { add_event = event }, s)
        else pop_rounds num_to_read (record q { add_event = event }) s >>= λ r.
            if r.0 then process_epoll_event fuel r.1 r.2 else done (r.1, r.2))

module _ (ep : Epoll) where
  -- The loop of `run_actor` that registers the queues, each with its event descriptor and its address.
  unfoldable pub register_queues : EpollInfo ep.State → List (ℕ × ℕ) → Outcome (EpollInfo ep.State)
  register_queues epoll_info [] = done epoll_info
  register_queues epoll_info ((event_fd, queue) ∷ queues) =
      add_input_epoll_event ep epoll_info event_fd queue >>= λ e. register_queues e queues
