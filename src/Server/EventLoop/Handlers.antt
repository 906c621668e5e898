-- ===== src/Server/EventLoop/Handlers.antt =====
-- src/server/event_loop.cpp: the constructor and the handlers of events and of results.
use net_pulse.Base.{
  ℕ, ℤ, bit_or, List, [], ◌∷◌, Bool, true, false, not, ◌||◌, Option, none, some, ◌==◌,
  if◌then◌else◌,
}
use net_pulse.Os.Errno.{ebadf, epollin, epollerr, epollhup, epollrdhup}
use net_pulse.Network.Io.{blocks}
use net_pulse.Network.Socket
use net_pulse.Network.Socket.{Socket}
use net_pulse.Network.Epoll
use net_pulse.Network.Epoll.{Epoll, EpollOperationResult, EpollWaitResult}
use net_pulse.Network.EventFd.{EventFdReadResult}
use net_pulse.Network.NonBlocking
use net_pulse.Network.NonBlocking.{NonBlockingResult}
use net_pulse.Protocol.FrameWriteBuffer.{
  FrameQueueStatus, queued, FrameFlushStatus, FrameFlushResult, drained, would_block, error,
}
use net_pulse.Server.Connection.{
  Connection, ConnectionReadStatus, ConnectionReadResult, ready, peer_closed, protocol_error,
  io_error, queue_frame, wants_write, read_available, flush_writes,
}
use net_pulse.Server.Processing.{ProcessingResult}
use net_pulse.Server.Clients.{ClientState, find}
use net_pulse.Server.EventLoop.{
  EventLoop, Env, has_any, with_connection, close_connection, update_or_close, submit_frames,
}

abbrev pub flush_failed : FrameFlushStatus → Bool
flush_failed error = true
flush_failed drained = false
flush_failed would_block = false

abbrev pub read_failed : ConnectionReadStatus → Bool
read_failed ready = false
read_failed peer_closed = true
read_failed protocol_error = true
read_failed io_error = true

abbrev pub was_queued : FrameQueueStatus → Bool
was_queued queued = true
was_queued FrameQueueStatus.payload_too_large = false

module _ {W : Type 0} (env : Env W) where
  open env use {sockets, descriptors, dispatch}

  -- `epoll_.add(fd, EPOLLIN)` as a step of the constructor: an error is kept, and what follows is
  -- left out.
  abbrev pub after_add : EventLoop → (W → EventLoop × W) → EpollOperationResult × W → EventLoop × W
  after_add l then_do (r, w) =
      if r.success then then_do w else (record l { error_number = r.error_number }, w)

  abbrev pub after_set : EventLoop → (W → EventLoop × W) → NonBlockingResult × W → EventLoop × W
  after_set l then_do (r, w) =
      if r.success then then_do w else (record l { error_number = r.error_number }, w)

  -- The constructor, with the listener, the epoll and the dispatcher that its members are, and
  -- `errno` as the construction of the members has left it.
  unfoldable pub init : W → Socket → Epoll → ℕ → EventLoop × W
  init w listener epoll errno =
      let l : EventLoop = record {
        listener = listener;
        epoll = epoll;
        connections = [];
        next_connection_id = 1;
        error_number = 0;
        initialized = false;
      } in
      if not (Socket.valid listener)
      then (record l { error_number = ebadf }, w)
      else if not (Epoll.valid epoll)
      then (record l { error_number = errno }, w)
      else if not (dispatch.dispatcher_valid w)
      then (record l { error_number = dispatch.dispatcher_error w }, w)
      else after_set l
          (λ w1.
            after_add l
              (λ w2.
                after_add l (λ w3. (record l { initialized = true }, w3))
                  (Epoll.add descriptors w2 epoll dispatch.notification_fd epollin))
              (Epoll.add descriptors w1 epoll (Socket.fd listener) epollin))
          (NonBlocking.set_non_blocking descriptors w (Socket.fd listener))

  abbrev pub after_flush :
      EventLoop → ℤ → ℕ → Option (FrameFlushResult × Connection × W) → Option (EventLoop × W)
  after_flush l client_fd id none = none
  after_flush l client_fd id (some (r, c, w)) =
      if flush_failed r.status
      then some (close_connection env w (with_connection l client_fd id c) client_fd)
      else some (update_or_close env w (with_connection l client_fd id c) client_fd c)

  -- The part of `handleClientEvent` below the reading.
  unfoldable pub write_stage : ℕ → W → EventLoop → ℤ → ℕ → Connection → Option (EventLoop × W)
  write_stage fuel w l client_fd id c =
      if wants_write c
      then after_flush l client_fd id (flush_writes sockets fuel w c)
      else some (update_or_close env w l client_fd c)

  -- Behind `readAvailable`: the frames are submitted, then the status is looked at.
  abbrev pub after_submit :
      ℕ → EventLoop → ℤ → ℕ → ConnectionReadStatus → Connection → Bool × W → Option (EventLoop × W)
  after_submit fuel l client_fd id status c (submitted, w) =
      if not submitted || read_failed status
      then some (close_connection env w l client_fd)
      else write_stage fuel w l client_fd id c

  abbrev pub after_read :
      ℕ
      → EventLoop
      → ℤ
      → ℕ
      → Option (ConnectionReadResult × Connection × W)
      → Option (EventLoop × W)
  after_read fuel l client_fd id none = none
  after_read fuel l client_fd id (some (r, c, w)) =
      after_submit fuel (with_connection l client_fd id c) client_fd id r.status c
        (submit_frames env w client_fd id r.frames)

  abbrev pub handle_found : ℕ → W → EventLoop → ℤ → ℕ → Option ClientState → Option (EventLoop × W)
  handle_found fuel w l client_fd events none = some (l, w)
  handle_found fuel w l client_fd events (some s) =
      if has_any events (bit_or epollerr epollhup)
      then some (close_connection env w l client_fd)
      else if has_any events (bit_or epollin epollrdhup)
      then after_read fuel l client_fd s.id (read_available sockets fuel w s.connection)
      else write_stage fuel w l client_fd s.id s.connection

  unfoldable pub handle_client_event : ℕ → W → EventLoop → ℤ → ℕ → Option (EventLoop × W)
  handle_client_event fuel w l client_fd events =
      handle_found fuel w l client_fd events (find client_fd l.connections)

  abbrev pub after_queue : W → EventLoop → ℤ → ℕ → FrameQueueStatus × Connection → EventLoop × W
  after_queue w l client_fd id (status, c) =
      if was_queued status
      then update_or_close env w (with_connection l client_fd id c) client_fd c
      else close_connection env w l client_fd

  abbrev pub answer : W → EventLoop → ProcessingResult → Option ClientState → EventLoop × W
  answer w l result none = (l, w)
  answer w l result (some s) =
      if not (s.id == result.connection_id)
      then (l, w)
      else after_queue w l result.client_fd s.id (queue_frame s.connection result.response)

  -- The body of the loop of `handleProcessingResults`.
  unfoldable pub handle_result : W → EventLoop → ProcessingResult → EventLoop × W
  handle_result w l result = answer w l result (find result.client_fd l.connections)

  unfoldable pub handle_results : W → EventLoop → List ProcessingResult → EventLoop × W
  handle_results w l [] = (l, w)
  handle_results w l (result ∷ results) =
      let (l', w') = handle_result w l result in handle_results w' l' results

  abbrev pub after_take : EventLoop → List ProcessingResult × W → Bool × EventLoop × W
  after_take l (results, w) = let (l', w') = handle_results w l results in (true, l', w')

  abbrev pub after_consume :
      EventLoop → Option (EventFdReadResult × W) → Option (Bool × EventLoop × W)
  after_consume l none = none
  after_consume l (some (notification, w)) =
      if not notification.success
      then (if blocks notification.error_number
          then some (true, l, w)
          else some (false, record l { error_number = notification.error_number }, w))
      else some (after_take l (dispatch.take_completed w))

  unfoldable pub handle_processing_results : W → EventLoop → Option (Bool × EventLoop × W)
  handle_processing_results w l = after_consume l (dispatch.consume_notifications w)
