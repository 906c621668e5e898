-- ===== src/Server/EventLoop.antt =====
-- include/netpulse/server/event_loop.hpp and src/server/event_loop.cpp. `W` is all that is outside the I/O
-- thread: the kernel, and the dispatcher with its workers. `none` means that the fuel of a loop ran out.
-- The handlers are in EventLoop/Handlers.antt, `run` in EventLoop/Run.antt.
pub mod Handlers
pub mod Run
pub mod Connections
pub mod Results
pub mod Delivery
pub mod Ids
pub mod Accept
pub mod Interest
pub mod Reuse
pub mod Serving
pub mod Serve
pub mod Tend
pub mod Calls
pub mod Events
pub mod Init
use net_pulse.Base.{
  ℕ, ℤ, pos, negsuc, zero, suc, ◌+◌, ◌%◌, ◌^◌, bit_and, bit_or, List, [], ◌∷◌, Bool, true, false,
  not, ◌||◌, ◌&&◌, Option, none, some, length, nonneg, ◌==◌, ◌==ℤ◌, if◌then◌else◌,
}
use net_pulse.Os.Errno.{eintr, ebadf, eio, epollin, epollout, epollerr, epollhup, epollrdhup}
use net_pulse.Os.Sockets.{Sockets, SysResult, done, failed}
use net_pulse.Os.Descriptors.{Descriptors, Event}
use net_pulse.Network.Io.{blocks}
use net_pulse.Network.Socket
use net_pulse.Network.Socket.{Socket}
use net_pulse.Network.Epoll
use net_pulse.Network.Epoll.{Epoll, EpollOperationResult, EpollWaitResult}
use net_pulse.Network.EventFd.{EventFdReadResult}
use net_pulse.Network.NonBlocking
use net_pulse.Network.NonBlocking.{NonBlockingResult}
use net_pulse.Protocol.FrameWriteBuffer.{
  FrameQueueStatus, queued, FrameFlushStatus, FrameFlushResult,
}
use net_pulse.Protocol.FrameWriteBuffer
use net_pulse.Concurrency.ThreadPool.{SubmitStatus}
use net_pulse.Server.Connection
use net_pulse.Server.Connection.{
  Connection, ConnectionReadStatus, ConnectionReadResult, queue_frame, wants_write, read_available,
  flush_writes,
}
use net_pulse.Server.Processing.{ProcessingTask, ProcessingResult}
use net_pulse.Server.Clients.{ClientState, Clients, find, erase, store, emplace}

-- What the loop calls of its dispatcher, whose state the workers change between the calls.
pub record Dispatch (W : Type 0) : Type 0 where
  pub notification_fd : ℤ
  pub dispatcher_valid : W → Bool
  pub dispatcher_error : W → ℕ
  pub try_submit : W → ProcessingTask → SubmitStatus × W
  pub consume_notifications : W → Option (EventFdReadResult × W)
  pub take_completed : W → List ProcessingResult × W

pub record Env (W : Type 0) : Type 0 where
  pub sockets : Sockets W
  pub descriptors : Descriptors W
  pub dispatch : Dispatch W

pub record EventLoop : Type 0 where
  pub listener : Socket
  pub epoll : Epoll
  pub connections : Clients
  pub next_connection_id : ℕ
  pub error_number : ℕ
  pub initialized : Bool

abbrev pub max_events : ℕ
max_events = 64

-- EPOLLIN | EPOLLRDHUP
abbrev pub client_events : ℕ
client_events = bit_or epollin epollrdhup

-- `(events & mask) != 0`
abbrev pub has_any : ℕ → ℕ → Bool
has_any events mask = not (bit_and events mask == 0)

unfoldable pub connection_count : EventLoop → ℕ
connection_count l = length l.connections

-- The mask that the loop asks for.
abbrev pub wanted_events : Connection → ℕ
wanted_events c = if wants_write c then bit_or client_events epollout else client_events

abbrev pub with_connection : EventLoop → ℤ → ℕ → Connection → EventLoop
with_connection l fd id c = record l {
  connections = store fd (record { id = id; connection = c }) l.connections;
}

module _ {W : Type 0} (env : Env W) where
  open env use {sockets, descriptors, dispatch}

  -- The erased entry's `Connection` is destroyed, and closes its descriptor.
  unfoldable pub erase_client : W → EventLoop → ℤ → ClientState → EventLoop × W
  erase_client w l fd s = (
    record l { connections = erase fd l.connections },
    Socket.destroy descriptors.close w s.connection.socket,
  )

  abbrev pub close_found : W → EventLoop → ℤ → Option ClientState → EventLoop × W
  close_found w l fd none = (l, w)
  close_found w l fd (some s) =
      let (remove_result, w') = Epoll.remove descriptors w l.epoll fd in erase_client w' l fd s

  unfoldable pub close_connection : W → EventLoop → ℤ → EventLoop × W
  close_connection w l fd = close_found w l fd (find fd l.connections)

  unfoldable pub update_interest : W → EventLoop → Connection → Bool × W
  update_interest w l c =
      let (modify_result, w') =
        Epoll.modify descriptors w l.epoll (Connection.fd c) (wanted_events c) in
      (modify_result.success, w')

  -- `updateInterest`, and `closeConnection` if it fails.
  unfoldable pub update_or_close : W → EventLoop → ℤ → Connection → EventLoop × W
  update_or_close w l fd c =
      let (updated, w') = update_interest w l c in
      if updated then (l, w') else close_connection w' l fd

  abbrev pub is_success : SubmitStatus → Bool
  is_success SubmitStatus.success = true
  is_success SubmitStatus.queue_full = false
  is_success SubmitStatus.stopped = false
  is_success SubmitStatus.invalid_task = false

  unfoldable pub submit_frame : W → ℤ → ℕ → List ℕ → Bool × W
  submit_frame w client_fd connection_id payload =
      let (status, w') =
        dispatch.try_submit w
          (record { client_fd = client_fd; connection_id = connection_id; payload = payload }) in
      (is_success status, w')

  -- The loop over the frames that were read: whether all were submitted.
  unfoldable pub submit_frames : W → ℤ → ℕ → List (List ℕ) → Bool × W
  submit_frames w client_fd connection_id [] = (true, w)
  submit_frames w client_fd connection_id (frame ∷ frames) =
      let (submitted, w') = submit_frame w client_fd connection_id frame in
      let rest = submit_frames w' client_fd connection_id frames in
      if submitted then rest else (false, w')

  -- A new client: it is entered, and registered with the epoll.
  abbrev pub after_add : EventLoop → ℤ → ClientState → EpollOperationResult × W → EventLoop × W
  after_add l fd s (r, w) = if r.success then (l, w) else erase_client w l fd s

  abbrev pub enter_client : W → EventLoop → ℤ → ℕ → Option ClientState → EventLoop × W
  enter_client w l client_fd id (some old) =
      -- not inserted: the socket is destroyed at the end of the round
      (l, Socket.destroy descriptors.close w (Socket.of_fd client_fd))
  enter_client w l client_fd id none =
      let s : ClientState = record {
        id = id;
        connection = Connection.init (Socket.of_fd client_fd);
      } in
      after_add (record l { connections = emplace client_fd s l.connections }) client_fd s
        (Epoll.add descriptors w l.epoll client_fd client_events)

  unfoldable pub accept_client : W → EventLoop → ℤ → EventLoop × W
  accept_client w l client_fd =
      enter_client w (record l { next_connection_id = (l.next_connection_id + 1) % 2 ^ 64 })
        client_fd l.next_connection_id (find client_fd l.connections)

  abbrev pub after_accept :
      (EventLoop × W → Option (Bool × EventLoop × W))
      → EventLoop
      → SysResult × W
      → Option (Bool × EventLoop × W)
  after_accept again l (done n, w) = again (accept_client w l (pos n))
  after_accept again l (failed e, w) =
      if e == eintr
      then again (l, w)
      else if blocks e
      then some (true, l, w)
      else some (false, record l { error_number = e }, w)

  unfoldable pub accept_ready_clients : ℕ → W → EventLoop → Option (Bool × EventLoop × W)
  accept_ready_clients zero w l = none
  accept_ready_clients (suc fuel) w l =
      let again = λ (r : EventLoop × W). accept_ready_clients fuel r.1 r.0 in
      after_accept again l (descriptors.accept4 w (Socket.fd l.listener))
