-- ===== src/Lib.antt =====
-- Verification of jullop, an HTTP server in C: IO workers accept connections and read requests,
-- put them on the queues of actors, and write the responses that the actors print.
--
-- The parts, by file of src/ of the repository:
--   Base           sizes (size_t, written out modulo 2 ^ 64), lists as arrays, blocks of bytes,
--                  and `Outcome`, the ways in which a C call ends. A CHECK of logging.h that fires is
--                  `exit_failure`; an access out of range is `fault`
--   Kernel         eventfd(2), sockets, epoll_ctl(2) and the allocator: interfaces with the documented
--                  laws, and a counter, a pipe and a table that meet them
--   Ring           what the two queues share: `enum QueueResult` of queue.h, and the bounded
--                  first-in first-out queue that they are compared with
--   MrmwQueue      mrmw_queue.c, the queue that the server is linked with, under any sequence of
--                  calls (Run), and between its writers and the loop of actor.c (Wakeup)
--   SrswQueue      srsw_queue.c, from its beginning (Init) on, run alone (Refine, Sizes, Overflow) and with
--                  its two threads interleaved at each access to shared memory (Threads, Steps, Wakeup)
--   InputBuffer    input_buffer.c: growth and the loop over read(2)
--   OutputBuffer   output_buffer.c: the loop over vsnprintf and the loop over write(2)
--   RequestStats   request_stats.c: the timers of a request and the time between two readings
--   ServerStats    server_stats.c: the counters that the threads share
--   HttpRequest    http_request.c: the call of the parser. picohttpparser is an interface (`Parser`),
--                  which says that what it stores fits
--   RequestContext request_context.c: what belongs to one connection, and the search for
--                  `Connection: Keep-Alive`
--   EpollInfo      epoll_info.c: the registration of descriptors
--   Server         server.h and io_worker.h: what the threads share, the callbacks, and the memory of
--                  one connection, in which `none` is what was freed: a use of it is a `fault`
--   Client         client.c: the handlers of a connection (Headers: the room for headers)
--   Actor          actor.c: the answer to a request (Answer) and the drain of a queue (Drain)
--   IoWorker       io_worker.c: the beginning of a worker, the acceptance of connections and the
--                  dispatch of an event
--   Lifecycle      the life of a connection through these three: the phases that it is in between two
--                  calls, and what accept, read, answer, write, reset and close make of them; Turn
--                  is one turn of the event loop, and Full what a full queue does
--   System         all connections of one IO worker, interleaved with the actors that answer them: a
--                  step is one accept, one turn of io_event_loop for a connection, or one turn of
--                  process_epoll_event (Safety, Progress, Liveness), from the beginning of the program
--                  on (Startup); and a whole call of process_epoll_event (Drain)
--   StatsThread    stats_thread.c: the number of requests that wait
--   Main           main.c: the actors and their queues, the IO workers and their listening sockets,
--                  the names of the threads, the barrier and `main` itself (Startup, Starting)
--   MessagePassing message_passing.c: a pointer as bytes, the loops that resume a transfer, and the blocking ones
--   HttpResponse   http_response.c: the text of a response
-- The operations bear the names of the C functions. A loop whose length depends on the kernel takes
-- fuel, one unit a round; a call that runs out of it is `unfinished`, and the theorems give the fuel
-- that is enough: one round more than there are bytes to read or write in the buffers, one for each
-- byte in message_passing.c, and two for an append.
--
-- A pointer is a number and NULL is 0. A mutex serialises the calls of mrmw_queue.c, so that each is
-- one step. The accesses of srsw_queue.c are interleaved as if memory were sequentially consistent:
-- its weaker atomics are not modelled. A queue that queue_init makes there has fewer slots than its mask
-- has offsets; an access behind the allocation is a `fault`, and no step of Threads. The counter of an event descriptor is taken not to overflow
-- where a theorem says so. System interleaves whole
-- turns: the handlers of one worker are run one after the other, and an actor works on a request that
-- no handler can reach, its descriptor being unregistered. The other IO workers share with this one
-- only the counters and are left out there. A new connection is at an address and on a descriptor
-- that are not in use; a client sends less than 2 ^ 28 bytes before a reset, which bounds its
-- buffers. `Env` gives the readings of the clock, the results of the mutex and that of close(2);
-- eventfd(2), whose result the program does not test, is taken to succeed.
--
-- Not modelled: logging and what is only printed, the functions that free what lives as long as the
-- program, and server_stats_get_time, which divides doubles. The endless epoll_wait loops are the steps
-- of System; the arguments of the program are taken to be no negative numbers. picohttpparser is
-- another project, and queue_test.c a test program.
pub mod Base
pub mod Kernel
pub mod Ring
pub mod MrmwQueue
pub mod SrswQueue
pub mod InputBuffer
pub mod OutputBuffer
pub mod RequestStats
pub mod ServerStats
pub mod MessagePassing
pub mod HttpResponse
pub mod HttpRequest
pub mod RequestContext
pub mod EpollInfo
pub mod Server
pub mod Client
pub mod Actor
pub mod IoWorker
pub mod Lifecycle
pub mod System
pub mod StatsThread
pub mod Main
