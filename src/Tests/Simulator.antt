-- ===== src/Tests/Simulator.antt =====
-- The device simulator over a kernel with a table of descriptors, whose peer answers "ok".
use net_pulse.Base.{
  ℕ, ℤ, pos, ◌≤◌, ◌≡◌, refl, sym, ap, List, [], ◌∷◌, ◌++◌, some, arith, ◌==ℤ◌, ==ℤ_refl,
  if◌then◌else◌,
}
use net_pulse.Os.Sockets.{
  Sockets, SendLaws, RecvLaws, SysResult, done, failed, RecvResult, received, recv_failed,
}
use net_pulse.Os.Errno.{eintr, emfile}
use net_pulse.Os.Startup.{Startup, TableLaws, PeerLaws}
use net_pulse.Os.Scripted
use net_pulse.Os.Scripted.{World}
use net_pulse.Protocol.Wire.{frame, ntohl}
use net_pulse.Network.Socket
use net_pulse.Network.Io.{send_all, receive_exact, send_loop, recv_loop, after_send, after_recv}
use net_pulse.Protocol.Frame.{
  to_frame_status, send_frame, receive_frame, send_payload, receive_payload, after_header,
}
use net_pulse.Apps.Simulator.{
  Ended, main, ended, starting, connected, telemetry_sent, telemetry, response,
}
use net_pulse.Apps.Simulator.Exchange.{main-exchanges}
use net_pulse.Apps.Simulator.Ends.{Ends}

abbrev ok : List ℕ
ok = b'o' ∷ b'k' ∷ []

record Kernel : Type 0 where
  world : World
  held : List ℤ

abbrev with_world {ℓ} : {R : Type ℓ} → Kernel → R × World → R × Kernel
with_world w (r, world) = (r, record w { world = world })

abbrev remove_first : ℤ → List ℤ → List ℤ
remove_first fd [] = []
remove_first fd (a ∷ rest) =
    let others = remove_first fd rest in if a ==ℤ fd then rest else a ∷ others

abbrev close : Kernel → ℤ → Kernel
close w fd = record w { held = remove_first fd w.held }

abbrev startup : Startup Kernel
startup = record {
  socket = λ w domain kind protocol. (done 5, record w { held = pos 5 ∷ w.held });
  setsockopt = λ w fd level option value. (done 0, w);
  bind = λ w fd a. (done 0, w);
  listen = λ w fd backlog. (done 0, w);
  connect = λ w fd a.
      (done 0, record w { world = record w.world { sent = []; to_read = frame ok ++ [] } });
  epoll_create1 = λ w flags. (failed emfile, w);
  errno = λ w. emfile;
  inet_pton = λ family text. some (127 ∷ 0 ∷ 0 ∷ 1 ∷ []);
}

abbrev sockets : Sockets Kernel
sockets = record {
  send = λ w fd bytes. with_world w (Scripted.send w.world fd bytes);
  recv = λ w fd size. with_world w (Scripted.recv w.world fd size);
}

inner-send :
    (w w' : Kernel) (fd : ℤ) (bytes : List ℕ) (r : SysResult)
    → sockets.send w fd bytes ≡ (r, w')
    → Scripted.send w.world fd bytes ≡ (r, w'.world)
inner-send w w' fd bytes r e = ap (λ x. (x.0, x.1.world)) e

inner-recv :
    (w w' : Kernel) (fd : ℤ) (size : ℕ) (r : RecvResult)
    → sockets.recv w fd size ≡ (r, w')
    → Scripted.recv w.world fd size ≡ (r, w'.world)
inner-recv w w' fd size r e = ap (λ x. (x.0, x.1.world)) e

abbrev sending : SendLaws sockets
sending = record {
  wire = λ w fd. w.world.sent;
  signals = λ w. w.world.interrupts;
  send_done = λ w w' fd bytes n e.
      Scripted.send-done w.world w'.world fd bytes n (inner-send w w' fd bytes (done n) e);
  send_failed = λ w w' fd bytes n e.
      Scripted.send-failed w.world w'.world fd bytes n (inner-send w w' fd bytes (failed n) e);
  send_interrupted = λ w w' fd bytes e.
      Scripted.send-interrupted w.world w'.world fd bytes
        (inner-send w w' fd bytes (failed eintr) e);
}

abbrev receiving : RecvLaws sockets
receiving = record {
  inbound = λ w fd. w.world.to_read;
  signals = λ w. w.world.interrupts;
  recv_received = λ w w' fd size bytes e.
      Scripted.recv-received w.world w'.world fd size bytes
        (inner-recv w w' fd size (received bytes) e);
  recv_fails = λ w w' fd size n e.
      Scripted.recv-fails w.world w'.world fd size n (inner-recv w w' fd size (recv_failed n) e);
  recv_interrupted = λ w w' fd size e.
      Scripted.recv-interrupted w.world w'.world fd size
        (inner-recv w w' fd size (recv_failed eintr) e);
}

closes : (w : Kernel) (fd : ℤ) (rest : List ℤ) → w.held ≡ fd ∷ rest → remove_first fd w.held ≡ rest
closes w fd rest e = rw (e, ==ℤ_refl fd) refl

abbrev table : TableLaws startup close
table = record {
  held = λ w. w.held;
  socket_done = λ w w' domain kind protocol n e. ground arith;
  socket_fails = λ w w' domain kind protocol n e. ground arith;
  setsockopt_keeps = λ w fd level option value. refl;
  bind_keeps = λ w fd a. refl;
  listen_keeps = λ w fd backlog. refl;
  connect_keeps = λ w fd a. refl;
  close_closes = closes;
}

send-keeps :
    (w : World) (fd : ℤ) (bytes : List ℕ)
    → let w' = (Scripted.send w fd bytes).1 in
      (w'.to_read ≡ w.to_read) × (w'.interrupts ≤ w.interrupts)
send-keeps w fd bytes = ground arith

recv-keeps : (w : World) (fd : ℤ) (size : ℕ) → (Scripted.recv w fd size).1.sent ≡ w.sent
recv-keeps w fd size = ground arith

abbrev peer : PeerLaws startup close sockets table sending receiving
peer = record {
  socket_calm = λ w domain kind protocol. (omega arith, omega arith);
  connect_calm = λ w fd a. (omega arith, omega arith);
  connect_done = λ w w' fd a n e. ap (λ x. x.1.world.sent) (sym e);
  send_keeps = λ w fd b bytes. let (read, calm) = send-keeps w.world fd bytes in (refl, read, calm);
  recv_keeps = λ w fd b size. (refl, recv-keeps w.world fd size);
  close_keeps = λ w fd b. refl;
}

abbrev start : Kernel
start = record {
  world = record { sent = 9 ∷ []; to_read = []; interrupts = 2; count = 0; waiting = 0 };
  held = pos 0 ∷ [];
}

answered :
    main startup close sockets 80 start
    ≡ some (
      ended 0 (starting ∷ connected ∷ telemetry_sent telemetry ∷ response ok ∷ []) [],
      record {
        world = record start.world { sent = frame telemetry; to_read = []; interrupts = 0 };
        held = pos 0 ∷ [];
      },
    )
unfolding main frame send_frame receive_frame send_payload receive_payload after_header send_all
    receive_exact send_loop recv_loop after_send after_recv to_frame_status Socket.destroy
    Socket.reset Socket.valid Socket.of_fd ntohl
answered = refl

main-exchanges_example :
    (e : Ended) × (w' : Kernel) × (main startup close sockets 80 start ≡ some (e, w'))
    × Ends table sending ok start e w'
unfolding frame
main-exchanges_example =
    main-exchanges startup close sockets table sending receiving peer 80 ok [] start (omega arith)
      (λ w1 w2 fd a m e. ap (λ x. x.1.world.to_read) (sym e)) (omega arith) (omega arith)
