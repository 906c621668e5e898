-- ===== src/Tests/Wiring.antt =====
-- The event loop over a dispatcher with a result for its client, and room for two more tasks.
use net_pulse.Base.{
  ℕ, pos, ◌+◌, ◌≤◌, ◌≡◌, ◌⊎◌, refl, List, [], ◌∷◌, ◌++◌, map, true, false, length, arith,
}
use net_pulse.Os.Scripted.{World, sockets, descriptors}
use net_pulse.Network.EventFd
use net_pulse.Server.Clients.{ClientState}
use net_pulse.Server.Processing.{ack_response}
use net_pulse.Server.Dispatcher
use net_pulse.Server.Dispatcher.{Dispatcher}
use net_pulse.Server.EventLoop.{EventLoop, submit_frames}
use net_pulse.Server.Wiring.{env_of}
use net_pulse.Server.Wiring.Submit.{task_of, with_tasks, none_left, submit_frames-queues}

abbrev world : World
world = record { sent = []; to_read = []; interrupts = 1; count = 1; waiting = 0 }

abbrev pub dispatcher : Dispatcher
dispatcher = record {
  notifier = record { fd = pos 9; error_number = 0 };
  completed = record { client_fd = pos 5; connection_id = 3; response = ack_response } ∷ [];
  error_number = 0;
  pool = record {
    tasks = record { limit = 3; queue = task_of (pos 6) 2 [] ∷ []; is_closed = false };
    workers = 2;
    is_stopped = false;
  };
}

abbrev only : ClientState
only = record {
  id = 3;
  connection = record {
    socket = record { fd = pos 5 };
    decoder = record { buffer = []; read_offset = 0 };
    write_buffer = record { buffer = []; write_offset = 0 };
  };
}

abbrev loop : EventLoop
loop = record {
  listener = record { fd = pos 3 };
  epoll = record { fd = pos 4 };
  connections = (pos 5, only) ∷ [];
  next_connection_id = 4;
  error_number = 0;
  initialized = true;
}

-- There is room for two of these.
abbrev frames : List (List ℕ)
frames = (1 ∷ []) ∷ [] ∷ (2 ∷ 3 ∷ []) ∷ []

submit_frames-queues_example :
    (sent : List (List ℕ)) × (later : List (List ℕ)) × (frames ≡ sent ++ later)
    × (submit_frames (env_of sockets descriptors 3 (pos 9)) (dispatcher, world) (pos 5) 3 frames
        ≡ (none_left later, (with_tasks dispatcher (map (task_of (pos 5) 3) sent), world)))
    × ((later ≡ [])
        ⊎ (dispatcher.pool.tasks.is_closed ≡ true)
        ⊎ (dispatcher.pool.tasks.limit ≤ length dispatcher.pool.tasks.queue + length sent))
unfolding Dispatcher.valid EventFd.valid
submit_frames-queues_example =
    submit_frames-queues sockets descriptors 3 (pos 9) world dispatcher (pos 5) 3 frames refl
      (omega arith) refl
