-- ===== src/Tests/Requests.antt =====
-- A readable event for a client that has sent two frames, over a dispatcher whose queue has room for them.
use net_pulse.Base.{
  ℕ, pos, ◌+◌, ◌≤◌, ◌≡◌, ◌≢◌, ◌⊎◌, refl, List, [], ◌∷◌, ◌++◌, map, true, some, length, arith,
}
use net_pulse.Os.Errno.{epollin}
use net_pulse.Os.Scripted.{World, sockets, descriptors, send_laws, recv_laws}
use net_pulse.Network.EventFd
use net_pulse.Protocol.Wire.{frame}
use net_pulse.Server.Clients.{find}
use net_pulse.Server.Connection.{Connection, ConnectionReadResult, read_available}
use net_pulse.Server.Dispatcher
use net_pulse.Server.EventLoop.{EventLoop}
use net_pulse.Server.EventLoop.Handlers.{handle_client_event}
use net_pulse.Server.EventLoop.Serving.{IsServing}
use net_pulse.Server.Wiring.{env_of, sockets_of}
use net_pulse.Server.Wiring.Submit.{task_of, with_tasks}
use net_pulse.Server.Wiring.Requests.{handle_client_event-queues}
use net_pulse.Tests.Serving.{only, loop, loop-IsServing}
use net_pulse.Tests.Wiring.{dispatcher}

abbrev world : World
world = record {
  sent = [];
  to_read = 0 ∷ 0 ∷ 0 ∷ 1 ∷ 7 ∷ 0 ∷ 0 ∷ 0 ∷ 0 ∷ [];
  interrupts = 1;
  count = 0;
  waiting = 0;
}

abbrev payloads : List (List ℕ)
payloads = (7 ∷ []) ∷ [] ∷ []

handle_client_event-queues_example :
    (l' : EventLoop) × (k' : World) × (k1 : World) × (sent : List (List ℕ)) × (refused : List
      (List ℕ))
    × (unread : List (List ℕ)) × (handle_client_event
          (env_of sockets descriptors 3 (pos 9))
          12
          (dispatcher, world)
          loop
          (pos 5)
          epollin
        ≡ some (l', (with_tasks dispatcher (map (task_of (pos 5) 3) sent), k')))
    × IsServing l'
    × (payloads ≡ sent ++ refused ++ unread)
    × ((refused ≡ [])
        ⊎ (dispatcher.pool.tasks.is_closed ≡ true)
        ⊎ (dispatcher.pool.tasks.limit ≤ length dispatcher.pool.tasks.queue + length sent))
    × ((r : ConnectionReadResult) × (c : Connection) × (read_available
            (sockets_of sockets)
            12
            (dispatcher, world)
            only.connection
          ≡ some (r, c, (dispatcher, k1)))
        × ((unread ≡ []) ⊎ (k1.to_read ≢ [])))
unfolding Dispatcher.valid EventFd.valid find frame
handle_client_event-queues_example =
    handle_client_event-queues sockets descriptors 3 (pos 9) recv_laws send_laws (λ k. refl) 12
      world dispatcher loop (pos 5) only epollin payloads refl loop-IsServing refl refl refl refl
      (omega arith) (omega arith) refl (omega arith) (omega arith)
