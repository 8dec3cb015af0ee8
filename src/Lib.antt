-- ===== src/Lib.antt =====
-- PulseCore: a framed request protocol over TCP, and an epoll server that reads requests, has a pool
-- of worker threads answer them, and writes the responses back in order.
--
-- How the parts interact: a `Connection` reads bytes from its socket into a `FrameDecoder`, which hands
-- out messages. The server gives each message a sequence number and submits it to the `WorkerPool`,
-- whose threads take items from a `BoundedQueue` and answer them by the request handler. A result comes
-- back to the server, which keeps it in the connection's flow until its turn, and queues it for output
-- in the `Connection`, which writes it when the socket is ready. The `ConnectionRegistry` owns the
-- connections and gives out their identifiers.
--
-- The files, and the code that each models:
--   Codec         src/protocol/codec.cpp and include/pulsecore/protocol/codec.hpp. `encode_message`,
--                 `try_decode_frame` and the decoder's `append`, `next`, `compact_if_needed`. Codec/Words
--                 and Codec/Format are about the header's words, Codec/Decode about the decoder's
--                 answers, Codec/Stream about the buffer.
--   Sockets       the parameter for `recv` and `send`, and the documented behaviour of a stream socket.
--   Connection    src/network/connection.cpp and include/pulsecore/network/connection.hpp. One function
--                 per method; the loops' rounds are `drain_step`, `after_drain`, `after_recv` and
--                 `after_send`. Connection/Drain, Chunks, Output, Write and Read are about one method each.
--   Handler       src/core/handler.cpp and include/pulsecore/core/handler.hpp.
--   BoundedQueue  include/pulsecore/core/bounded_queue.hpp. A method runs under the mutex: one step.
--   Registry      src/network/connection_registry.cpp and its header.
--   WorkerPool    src/network/worker_pool.cpp and its header. WorkerPool/Delivery has the step relation
--                 of the reactor and the threads, WorkerPool/Results what a result should be.
--   Server        src/network/epoll_echo_server.cpp and its header: `SubmitWork`, the loop of
--                 `FlushReadyResponses`, `ShouldCloseAfterFlush` and `HandleCompletedWork` on one
--                 connection's flow; Server/Interest is `UpdateInterest` and Server/Removal is
--                 `RemoveConnection`, both over `epoll_ctl` as a parameter. Server/Kernel is the parameter
--                 for the system calls and Server/Effects the methods: they pass on the server's state and
--                 the kernel's, and may throw. Server/Accept, Events and Run are the handlers, `Run`, `Stop`
--                 and `StoreCompletedWork`; Server/Handlers is what they share, and Server/Setup the tests of the
--                 options by the constructor. Server/Consistent says how
--                 connections, flows and the kernel's descriptors belong together, and the children of
--                 Handlers, Accept, Events and Run look at each method in its light.
--   UniqueFd      src/common/unique_fd.cpp and include/pulsecore/common/unique_fd.hpp.
--   BlockingTcp   src/network/blocking_tcp.cpp and its header: `SendAll`, `SendMessage`, `ReadMessage`,
--                 `ServeClient` and, in BlockingTcp/Exchange, `SendRequestAndReadResponse`.
--   Apps          the command lines of apps/epoll_server/main.cpp (Apps/EpollServer) and
--                 apps/client/main.cpp (Apps/Client), and `ParsePort`, which apps/server/main.cpp has too.
--                 `std::stoul` and `std::stoull` are written out for a 64-bit unsigned long.
--   Base          names and lemmas that the parts share; Base/Maps is the standard maps.
--
-- Bounds and fuel: bytes are numbers below 256, and the words of 16, 32 and 64 bits have their wrap-
-- around written out. `DrainDecoder` and `FlushReadyResponses` run on fuel that their definitions
-- give: a message takes a byte at least, and a round of the flush erases a response, so that one round
-- more than there are bytes or responses is enough. `ReadAvailable`, `WriteAvailable` and the blocking
-- functions take their fuel as arguments, since the number of interrupted calls is the kernel's: a
-- bound on those calls and on the bytes is enough. The handlers of the server pass their fuel on to
-- those, and use it for the other calls that may be interrupted. `stuck` and the `none` of these loops
-- stand for fuel that ran out.
--
-- Not modelled: the server's set-up by system calls, its signal mask; the blocking server's and
-- client's sockets before they are connected; thread creation and joining; memory exhaustion; what the
-- applications print, and the benchmark.
pub mod Base
pub mod Codec
pub mod Sockets
pub mod Connection
pub mod Handler
pub mod BoundedQueue
pub mod Registry
pub mod WorkerPool
pub mod Server
pub mod UniqueFd
pub mod BlockingTcp
pub mod Apps
