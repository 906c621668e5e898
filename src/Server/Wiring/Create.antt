-- ===== src/Server/Wiring/Create.antt =====
-- The construction and the destruction of an event loop with its members, as src/server/event_loop.cpp
-- and include/netpulse/server/event_loop.hpp order them.
use net_pulse.Base.{ℕ, [], ◌∷◌}
use net_pulse.Os.Sockets.{Sockets}
use net_pulse.Os.Descriptors.{Descriptors}
use net_pulse.Os.Startup.{Startup}
use net_pulse.Network.Socket
use net_pulse.Network.Socket.{Socket}
use net_pulse.Network.Epoll
use net_pulse.Network.Epoll.{Epoll}
use net_pulse.Network.EventFd
use net_pulse.Network.EventFd.{EventFd}
use net_pulse.Concurrency.ThreadPool
use net_pulse.Concurrency.ThreadPool.{ConstructError, Constructed}
use net_pulse.Server.Clients.{Clients}
use net_pulse.Server.Processing.{ProcessingTask}
use net_pulse.Server.Dispatcher
use net_pulse.Server.Dispatcher.{Dispatcher}
use net_pulse.Server.EventLoop.{EventLoop}
use net_pulse.Server.EventLoop.Handlers
use net_pulse.Server.Wiring.{env_of}

pub data Created : Type 0 where
  throws : ConstructError → Created
  made : EventLoop → Dispatcher → Created

module _ {K : Type 0} (startup : Startup K) (sockets : Sockets K) (os : Descriptors K)
    (fuel : ℕ) where
  -- The pool is the last member: when its constructor throws, the members before it are destroyed.
  abbrev pub after_pool : K → Socket → Epoll → EventFd → Constructed ProcessingTask → Created × K
  after_pool w listener epoll notifier (Constructed.throws e) = (
    throws e,
    Socket.destroy os.close (Epoll.destroy os (EventFd.destroy os w notifier) epoll) listener,
  )
  after_pool w listener epoll notifier (Constructed.made pool) =
      let (l, (d, w')) =
        Handlers.init (env_of sockets os fuel notifier.fd) (Dispatcher.init notifier pool, w)
          listener epoll (startup.errno w) in
      (made l d, w')

  -- The constructor. The workers of the new pool wait: they have no task before the first event.
  unfoldable pub create : K → Socket → ℕ → ℕ → Created × K
  create w listener worker_count task_queue_capacity =
      let (epoll, w1) = Epoll.init startup w in
      let (notifier, w2) = EventFd.init os w1 0 in
      after_pool w2 listener epoll notifier
        (ThreadPool.construct ProcessingTask worker_count task_queue_capacity)

  unfoldable pub close_clients : K → Clients → K
  close_clients w [] = w
  close_clients w ((fd, s) ∷ m) = close_clients (Socket.destroy os.close w s.connection.socket) m

  -- The destructors of the members, the last one first. The workers have been joined before.
  unfoldable pub destroy : K → EventLoop → Dispatcher → K
  destroy w l d =
      let w1 = EventFd.destroy os w (Dispatcher.stop d).notifier in
      let w2 = close_clients w1 l.connections in
      Socket.destroy os.close (Epoll.destroy os w2 l.epoll) l.listener
