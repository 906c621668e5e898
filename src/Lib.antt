-- ===== src/Lib.antt =====
-- NetPulse: a server that takes length-prefixed messages from many clients over non-blocking TCP
-- sockets, has worker threads process them, and sends the answers back. One thread runs the event loop
-- on epoll; the workers hand their results to it through a list and an eventfd.
--
-- The parts, the files that model them, and the code:
--   Base           shared names, Boolean tests, lists, integers
--   Os             what the kernel does, as interfaces: `Sockets` (send, recv), `Descriptors`
--                  (epoll, eventfd, fcntl, accept4, close) and `Startup` (socket, bind, listen,
--                  connect and what else makes a descriptor or configures it). The laws that the
--                  theorems use are records beside them; Os/Scripted is a kernel that has
--                  SendLaws, RecvLaws, EventFdLaws and AcceptLaws, Tests/Interest one that has
--                  EpollLaws and ErrnoLaws, Tests/Simulator and Tests/Starting have those of
--                  Startup
--   Network        Io (src/network/io.cpp: sendAll, receiveExact), Socket (src/network/socket.cpp),
--                  Epoll (src/network/epoll.cpp), EventFd (src/network/event_fd.cpp), NonBlocking
--                  (src/network/nonblocking.cpp), and their headers in include/netpulse/network;
--                  Ownership has what their destructors do to the table of descriptors
--   Protocol       Wire (the header of a frame), Frame (src/protocol/frame.cpp: sendFrame,
--                  receiveFrame), FrameDecoder (src/protocol/frame_decoder.cpp), FrameWriteBuffer
--                  (src/protocol/frame_write_buffer.cpp)
--   Concurrency    BoundedQueue (include/netpulse/concurrency/bounded_queue.hpp), ThreadPool
--                  (src/concurrency/thread_pool.cpp) and ThreadPool/System, its threads
--   Server         Connection (src/server/connection.cpp), Processing (src/server/processing.cpp),
--                  Dispatcher (src/server/processing_dispatcher.cpp), Clients and EventLoop
--                  (src/server/event_loop.cpp), with the handlers in EventLoop/Handlers
--                  and `run` in EventLoop/Run;
--                  Dispatcher/System is the dispatcher as steps of the workers and of the loop,
--                  and Wiring puts the loop over its dispatcher: the members of the class in
--                  include/netpulse/server/event_loop.hpp, their construction and destruction
--   Apps           Server (apps/server/main.cpp) and Simulator
--                  (tools/device_simulator/main.cpp)
--   Tests          concrete inputs
--
-- Names are those of the code in lower case with underscores: `read_available` is
-- `Connection::readAvailable`. An object is a record, and an operation that changes it returns the new
-- one. `W` is the world outside: the kernel's state, which each call takes and returns. A helper
-- `after_x` is the code behind the call of `x`; its argument `again` is the `continue` of the loop. A
-- byte is a number, and `IsBytes` says that the numbers of a list are below 256; a descriptor is an
-- integer; `size_t` is ℕ without a bound, with the wrap-around written out where the code can reach it
-- (the offsets of the decoder, the 32-bit length of a frame, the 64-bit counter of connection ids).
--
-- A loop around a call of the system takes fuel, and `none` says that it ran out. Enough fuel is
-- the number of bytes that are to go through plus the number of signals that may interrupt a call,
-- for the loop of an eventfd the signals alone, for `acceptReadyClients` the clients and signals.
-- The inner loop of
-- `readAvailable` has one round for each byte that the decoder holds and one more.
--
-- The threads of the pool are interleaved steps: what a thread does while it holds a mutex, one
-- notification, or the run of one task. A condition variable is two counts, of the threads that sleep
-- in it and of those that have been woken and have not yet tested the predicate again; a notification
-- that the code still has to make is a count, too, so it can come late. Any thread may wake with no
-- notification. A task is a value: what it does is not seen, only that it ends, by return or by an
-- exception.
--
-- The programs take the lines that they print as values. The event loop is written over an
-- interface `Dispatch`, which Wiring fills with the dispatcher. In Apps/Server a parameter
-- `workers` stands for what the threads of the pool do to the dispatcher and to the kernel
-- between two calls of the loop; the threads themselves are those of ThreadPool/System and of Dispatcher/System.
--
-- Not modelled: what the event loop logs, the texts of error numbers, failure of memory allocation
-- or of the start of a thread.
pub mod Base
pub mod Os
pub mod Network
pub mod Protocol
pub mod Concurrency
pub mod Server
pub mod Apps
mod Tests
