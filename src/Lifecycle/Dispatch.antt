-- ===== src/Lifecycle/Dispatch.antt =====
-- `dispatch_event`: which handlers an event calls.
use jullop.Base.{◌≡◌, refl, Bool, false, true, ◌||◌, some, Outcome, done, exit_failure}
use jullop.Kernel.{Interest, input_events, output_events}
use jullop.Server.{SocketContext, Handler, ErrorHandler}
use jullop.IoWorker.{Events, dispatch_event}

-- Some flag of `events` stands for an error.
abbrev pub has_error : Events → Bool
has_error events = events.epollerr || (events.epollrdhup || (events.epollhup || events.epollpri))

-- The flags that epoll_wait can report for a registration.
abbrev pub Within : Events → Interest → Type 0
Within events input_events = events.epollout ≡ false
Within events output_events = events.epollin ≡ false

module _ {S : Type 0} (socket_context : S → Outcome SocketContext) (call : Handler → S → Outcome S)
    (call_error : ErrorHandler → S → Outcome S) where
  -- With EPOLLIN only, the handler for input is called, and nothing after it.
  pub input_called :
      (events : Events) (s s' : S) (k : SocketContext) (h : Handler)
      → has_error events ≡ false
      → events.epollin ≡ true
      → events.epollout ≡ false
      → socket_context s ≡ done k
      → k.input_handler ≡ some h
      → call h s ≡ done s'
      → dispatch_event socket_context call call_error events s ≡ done s'
  unfolding dispatch_event
  input_called events s s' k h error input output context handler ran =
      rw (error, input, output, context, handler, ran) refl

  pub input_exits :
      (events : Events) (s : S) (k : SocketContext) (h : Handler)
      → has_error events ≡ false
      → events.epollin ≡ true
      → socket_context s ≡ done k
      → k.input_handler ≡ some h
      → call h s ≡ exit_failure
      → dispatch_event socket_context call call_error events s ≡ exit_failure
  unfolding dispatch_event
  input_exits events s k h error input context handler ran =
      rw (error, input, context, handler, ran) refl

  pub output_called :
      (events : Events) (s s' : S) (k : SocketContext) (h : Handler)
      → has_error events ≡ false
      → events.epollin ≡ false
      → events.epollout ≡ true
      → socket_context s ≡ done k
      → k.output_handler ≡ some h
      → call h s ≡ done s'
      → dispatch_event socket_context call call_error events s ≡ done s'
  unfolding dispatch_event
  output_called events s s' k h error input output context handler ran =
      rw (error, input, output, context, handler, ran) refl
