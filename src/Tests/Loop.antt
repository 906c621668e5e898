-- ===== src/Tests/Loop.antt =====
-- The event loop with two connections and a batch of results.
use net_pulse.Base.{ℤ, pos, ◌≡◌, refl, [], ◌∷◌, true, none, some, arith, ==ℤ_iff, ap}
use net_pulse.Os.Scripted.{World, sockets, descriptors}
use net_pulse.Concurrency.ThreadPool.{SubmitStatus}
use net_pulse.Server.Connection.{Connection}
use net_pulse.Server.Processing.{ProcessingResult, ack_response}
use net_pulse.Server.Clients.{ClientState, find}
use net_pulse.Server.EventLoop.{EventLoop, Env, Dispatch, accept_client, accept_ready_clients}
use net_pulse.Server.EventLoop.Handlers.{handle_results}
use net_pulse.Server.EventLoop.Connections.{client}
use net_pulse.Server.EventLoop.Reuse.{handle_results-reused}
use net_pulse.Protocol.FrameDecoder
use net_pulse.Protocol.FrameWriteBuffer
use net_pulse.Network.Socket
use net_pulse.Server.EventLoop.Delivery.{responses_for, Sent, handle_results-delivers}
use net_pulse.Server.EventLoop.Ids.{IsValid, Enters, accept_client-Enters}
use net_pulse.Server.EventLoop.Accept.{Accepts, accept_ready_clients-total}
use net_pulse.Os.Scripted.{accept_laws}
use net_pulse.Base.{Bool}
use mathlib.Core.Option
use net_pulse.Server.EventLoop.{connection_count}
use net_pulse.Server.Clients.{emplace}
use net_pulse.Server.Connection
use net_pulse.Network.Epoll

abbrev world : World
world = record { sent = []; to_read = []; interrupts = 0; count = 0; waiting = 2 }

abbrev dispatch : Dispatch World
dispatch = record {
  notification_fd = pos 9;
  dispatcher_valid = λ w. true;
  dispatcher_error = λ w. 0;
  try_submit = λ w task. (SubmitStatus.success, w);
  consume_notifications = λ w. none;
  take_completed = λ w. ([], w);
}

abbrev env : Env World
env = record { sockets = sockets; descriptors = descriptors; dispatch = dispatch }

abbrev connection : ℤ → Connection
connection fd = record {
  socket = record { fd = fd };
  decoder = record { buffer = []; read_offset = 0 };
  write_buffer = record { buffer = []; write_offset = 0 };
}

abbrev first : ClientState
first = record { id = 3; connection = connection (pos 5) }

abbrev loop : EventLoop
loop = record {
  listener = record { fd = pos 3 };
  epoll = record { fd = pos 4 };
  connections = (pos 5, first) ∷ [];
  next_connection_id = 4;
  error_number = 0;
  initialized = true;
}

-- One for the connection; one for an earlier connection at the same descriptor.
abbrev result : ProcessingResult
result = record { client_fd = pos 5; connection_id = 3; response = ack_response }

abbrev stale : ProcessingResult
stale = record { client_fd = pos 5; connection_id = 1; response = ack_response }

found : client loop (pos 5) ≡ some first
unfolding find
found = refl

at_first : (fd : ℤ) (s : ClientState) → client loop fd ≡ some s → (fd ≡ pos 5) × (s ≡ first)
unfolding find
at_first fd s e = ground (arith, ==ℤ_iff (pos 5) fd)

loop-IsValid : IsValid loop
loop-IsValid = record {
  keyed = λ fd s e. let (at_fd, same) = at_first fd s e in cc;
  issued = λ fd s e. let (at_fd, same) = at_first fd s e in omega (arith, ap (λ x. x.id) same);
  distinct = λ a b s t e f same. let (p, _) = at_first a s e in let (q, _) = at_first b t f in cc;
  positive = omega arith;
}

handle_results-delivers_example :
    Sent env loop
      (handle_results env world loop (stale ∷ result ∷ [])).0
      (pos 5)
      first
      (responses_for (pos 5) 3 (stale ∷ result ∷ []))
handle_results-delivers_example =
    handle_results-delivers env world loop (stale ∷ result ∷ []) (pos 5) first found (omega arith)

-- For a connection that used descriptor 11 before.
abbrev earlier : ProcessingResult
earlier = record { client_fd = pos 11; connection_id = 2; response = ack_response }

abbrev newcomer : ClientState
newcomer = record { id = 4; connection = connection (pos 11) }

entered : client (accept_client env world loop (pos 11)).0 (pos 11) ≡ some newcomer
unfolding accept_client find emplace Connection.init FrameDecoder.fresh FrameWriteBuffer.fresh
    Socket.of_fd Epoll.add Epoll.guarded Epoll.valid Epoll.control_epoll
entered = refl

handle_results-reused_example :
    let (l', w') = accept_client env world loop (pos 11) in
    client (handle_results env w' l' (earlier ∷ result ∷ [])).0 (pos 11) ≡ some newcomer
unfolding find
handle_results-reused_example =
    handle_results-reused env world loop (pos 11) (earlier ∷ result ∷ []) newcomer refl
      (omega arith) (omega arith) entered

accept_client-Enters_example : Enters loop (accept_client env world loop (pos 6)).0 (pos 6)
accept_client-Enters_example = accept_client-Enters env world loop (pos 6) (omega arith)

accept_ready_clients-total_example :
    (ok : Bool) × (l' : EventLoop) × (w' : World) × (accept_ready_clients env 3 world loop
      ≡ some (ok, l', w'))
    × IsValid l'
    × Accepts loop l'
accept_ready_clients-total_example =
    accept_ready_clients-total env accept_laws 3 world loop loop-IsValid (omega arith) (omega arith)

-- Both waiting clients are entered.
accepts_two :
    Option.map (λ x. connection_count x.1) (accept_ready_clients env 3 world loop) ≡ some 3
unfolding accept_ready_clients accept_client connection_count find emplace Connection.init Epoll.add
    Epoll.guarded Epoll.valid Epoll.control_epoll
accepts_two = refl
