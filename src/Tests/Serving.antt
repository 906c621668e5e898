-- ===== src/Tests/Serving.antt =====
-- An event for a client that has sent a frame and half of another, and still has bytes to be sent.
use net_pulse.Base.{
  ℤ, pos, ◌≡◌, refl, [], ◌∷◌, Bool, true, false, some, arith, ==ℤ_iff, ap, subst, sym,
}
use net_pulse.Os.Errno.{eagain, epollin}
use net_pulse.Os.Descriptors.{Event}
use net_pulse.Network.EventFd.{consumed}
use net_pulse.Server.EventLoop.Events.{handle_event-IsServing}
use net_pulse.Os.Scripted.{World, sockets, descriptors, send_laws, recv_laws, accept_laws}
use net_pulse.Protocol.FrameDecoder.View
use net_pulse.Concurrency.ThreadPool.{SubmitStatus}
use net_pulse.Server.Clients.{ClientState, find}
use net_pulse.Server.EventLoop.{EventLoop, Env}
use net_pulse.Server.EventLoop.Handlers.{handle_client_event}
use net_pulse.Server.EventLoop.Run.{handle_event}
use net_pulse.Server.EventLoop.Connections.{client, Touches}
use net_pulse.Server.EventLoop.Serve.{OneCount, handle_client_event-total}
use net_pulse.Server.EventLoop.Serving.{IsServing, IsWhole}

abbrev world : World
world = record {
  sent = [];
  to_read = 0 ∷ 0 ∷ 0 ∷ 1 ∷ 7 ∷ 0 ∷ 0 ∷ [];
  interrupts = 2;
  count = 0;
  waiting = 0;
}

abbrev env : Env World
env = record {
  sockets = sockets;
  descriptors = descriptors;
  dispatch = record {
    notification_fd = pos 9;
    dispatcher_valid = λ w. true;
    dispatcher_error = λ w. 0;
    try_submit = λ w task. (SubmitStatus.success, w);
    consume_notifications = λ w. some (consumed false 0 eagain, w);
    take_completed = λ w. ([], w);
  };
}

one_count : OneCount env recv_laws send_laws
one_count = record { same_signals = λ w. refl; submit_calm = λ w task. omega arith }

abbrev pub only : ClientState
only = record {
  id = 3;
  connection = record {
    socket = record { fd = pos 5 };
    decoder = record { buffer = 1 ∷ []; read_offset = 1 };
    write_buffer = record { buffer = 0 ∷ 0 ∷ 0 ∷ 0 ∷ []; write_offset = 1 };
  };
}

abbrev pub loop : EventLoop
loop = record {
  listener = record { fd = pos 3 };
  epoll = record { fd = pos 4 };
  connections = (pos 5, only) ∷ [];
  next_connection_id = 4;
  error_number = 0;
  initialized = true;
}

at_only : (fd : ℤ) (s : ClientState) → client loop fd ≡ some s → (fd ≡ pos 5) × (s ≡ only)
unfolding find
at_only fd s e = ground (arith, ==ℤ_iff (pos 5) fd)

only_idle : View.next_frame (View.pending only.connection.decoder) ≡ View.incomplete
unfolding View.next_frame
only_idle = refl

pub loop-IsServing : IsServing loop
loop-IsServing = record {
  ids = record {
    keyed = λ fd s e. let (at_fd, same) = at_only fd s e in cc;
    issued = λ fd s e. let (at_fd, same) = at_only fd s e in omega (arith, ap (λ x. x.id) same);
    distinct = λ a b s t e f same. let (p, _) = at_only a s e in let (q, _) = at_only b t f in cc;
    positive = omega arith;
  };
  whole = λ fd s e.
      let (at_fd, same) = at_only fd s e in
      subst (λ x. IsWhole x.connection) (sym same)
        (record { idle = (omega arith, only_idle); bytes = tt; buffer = omega arith });
}

handle_client_event-total_example :
    (l' : EventLoop) × (w' : World) × (handle_client_event env 10 world loop (pos 5) epollin
      ≡ some (l', w'))
    × Touches loop l' (pos 5)
    × IsServing l'
unfolding find
handle_client_event-total_example =
    handle_client_event-total env recv_laws send_laws one_count 10 world loop (pos 5) epollin
      loop-IsServing (omega arith) (omega arith) (omega arith)

abbrev readable : Event
readable = record { events = epollin; ready_fd = pos 5 }

handle_event-IsServing_example :
    (ok : Bool) × (l' : EventLoop) × (w' : World) × (handle_event env 10 world loop readable
      ≡ some (ok, l', w'))
    × IsServing l'
unfolding find
handle_event-IsServing_example =
    handle_event-IsServing env recv_laws send_laws one_count accept_laws 10 world loop readable
      loop-IsServing (omega arith) (omega arith) (consumed false 0 eagain) world refl (omega arith)
      (omega arith) (omega arith)
