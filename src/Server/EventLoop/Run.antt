-- ===== src/Server/EventLoop/Run.antt =====
-- src/server/event_loop.cpp: `run`, and which handler each event goes to.
use net_pulse.Base.{
  ℕ, negsuc, zero, suc, bit_or, List, [], ◌∷◌, Bool, true, false, not, Option, none, some, ◌==ℤ◌,
  if◌then◌else◌,
}
use net_pulse.Os.Errno.{eio, epollin, epollerr, epollhup}
use net_pulse.Os.Descriptors.{Event}
use net_pulse.Network.Socket.{Socket}
use net_pulse.Network.Epoll
use net_pulse.Network.Epoll.{Epoll, EpollOperationResult, EpollWaitResult}
use net_pulse.Server.EventLoop.{EventLoop, Env, has_any, max_events, accept_ready_clients}
use net_pulse.Server.EventLoop.Handlers.{handle_client_event, handle_processing_results}

module _ {W : Type 0} (env : Env W) where
  open env use {descriptors, dispatch}

  -- What one event leads to: `true` to go on, `false` for `return 1`.
  abbrev pub notifier_event : W → EventLoop → ℕ → Option (Bool × EventLoop × W)
  notifier_event w l events =
      if has_any events (bit_or epollerr epollhup)
      then some (false, record l { error_number = eio }, w)
      else if has_any events epollin
      then handle_processing_results env w l
      else some (true, l, w)

  abbrev pub after_accepts : ℕ → Option (Bool × EventLoop × W) → Option (Bool × EventLoop × W)
  after_accepts events none = none
  after_accepts events (some (accepted, l, w)) =
      if not accepted
      then some (false, l, w)
      else if has_any events (bit_or epollerr epollhup)
      then some (false, record l { error_number = eio }, w)
      else some (true, l, w)

  abbrev pub listener_event : ℕ → W → EventLoop → ℕ → Option (Bool × EventLoop × W)
  listener_event fuel w l events =
      if has_any events epollin
      then after_accepts events (accept_ready_clients env fuel w l)
      else after_accepts events (some (true, l, w))

  abbrev pub go_on : Option (EventLoop × W) → Option (Bool × EventLoop × W)
  go_on none = none
  go_on (some (l, w)) = some (true, l, w)

  unfoldable pub handle_event : ℕ → W → EventLoop → Event → Option (Bool × EventLoop × W)
  handle_event fuel w l event =
      if event.ready_fd ==ℤ dispatch.notification_fd
      then notifier_event w l event.events
      else if event.ready_fd ==ℤ Socket.fd l.listener
      then listener_event fuel w l event.events
      else go_on (handle_client_event env fuel w l event.ready_fd event.events)

  abbrev pub next_event :
      (W → EventLoop → Option (Bool × EventLoop × W))
      → Option (Bool × EventLoop × W)
      → Option (Bool × EventLoop × W)
  next_event rest none = none
  next_event rest (some (false, l, w)) = some (false, l, w)
  next_event rest (some (true, l, w)) = rest w l

  unfoldable pub handle_events : ℕ → W → EventLoop → List Event → Option (Bool × EventLoop × W)
  handle_events fuel w l [] = some (true, l, w)
  handle_events fuel w l (event ∷ events) =
      next_event (λ w' l'. handle_events fuel w' l' events) (handle_event fuel w l event)

  -- One round of `run`: a wait, and the events that it brings.
  abbrev pub after_wait :
      ℕ → EventLoop → Option (EpollWaitResult × W) → Option (Bool × EventLoop × W)
  after_wait fuel l none = none
  after_wait fuel l (some (r, w)) = elim r.events [
    | none ↦ some (false, record l { error_number = r.error_number }, w)
    | some events ↦ handle_events fuel w l events
  ]

  unfoldable pub turn : ℕ → W → EventLoop → Option (Bool × EventLoop × W)
  turn fuel w l = after_wait fuel l (Epoll.wait descriptors fuel w l.epoll max_events (negsuc 0))

  -- `run` for at most so many rounds: `none` if it is still running, and else its exit code. Each loop
  -- below has `fuel`.
  unfoldable pub run_loop : ℕ → ℕ → W → EventLoop → Option (ℕ × EventLoop × W)
  run_loop zero fuel w l = none
  run_loop (suc rounds) fuel w l = elim (turn fuel w l) [
    | none ↦ none
    | some (false, l', w') ↦ some (1, l', w')
    | some (true, l', w') ↦ run_loop rounds fuel w' l'
  ]

  unfoldable pub run : ℕ → ℕ → W → EventLoop → Option (ℕ × EventLoop × W)
  run rounds fuel w l = if not l.initialized then some (1, l, w) else run_loop rounds fuel w l
