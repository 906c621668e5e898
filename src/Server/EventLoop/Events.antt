-- ===== src/Server/EventLoop/Events.antt =====
-- One event of `run`, whichever descriptor it is for: its handler returns, and the loop goes on serving.
use net_pulse.Base.{
  ℕ, ◌+◌, ◌^◌, ◌<◌, ◌≡◌, inl, inr, refl, Bool, true, false, Option, some, length, ◌==ℤ◌, Bool-cases,
  bit_or,
}
use net_pulse.Os.Errno.{eio, epollin, epollerr, epollhup}
use net_pulse.Os.Sockets.{RecvLaws, SendLaws}
use net_pulse.Os.Descriptors.{Event, AcceptLaws}
use net_pulse.Network.Io.{blocks}
use net_pulse.Network.EventFd.{EventFdReadResult}
use net_pulse.Protocol.Wire.{IsBytes}
use net_pulse.Server.EventLoop.{EventLoop, Env, has_any}
use net_pulse.Server.EventLoop.Handlers.{after_consume, handle_results, handle_processing_results}
use net_pulse.Server.EventLoop.Run.{handle_event, notifier_event, listener_event, after_accepts}
use net_pulse.Server.EventLoop.Connections.{client}
use net_pulse.Server.EventLoop.Accept.{accept_ready_clients-keeps}
use net_pulse.Server.EventLoop.Serve.{OneCount, unsent, handle_client_event-total}
use net_pulse.Server.EventLoop.Serving.{IsServing}
use net_pulse.Server.EventLoop.Tend.{
  marked-IsServing, accept_client-IsServing, handle_results-IsServing,
}

module _ {W : Type 0} (env : Env W) where
  open env use {sockets, descriptors, dispatch}

  abbrev GoesOn : Option (Bool × EventLoop × W) → Type 0
  GoesOn o = (ok : Bool) × (l' : EventLoop) × (w' : W) × (o ≡ some (ok, l', w')) × IsServing l'

  after_consume-GoesOn :
      (l : EventLoop) (r : EventFdReadResult) (w : W)
      → IsServing l
      → GoesOn (after_consume env l (some (r, w)))
  after_consume-GoesOn l r w v = elim (Bool-cases r.success) [
    | inr failure ↦ elim (Bool-cases (blocks r.error_number)) [
      | inl nothing ↦ (true, l, w, rw (failure, nothing) refl, v)
      | inr broken ↦ (
        false,
        record l { error_number = r.error_number },
        w,
        rw (failure, broken) refl,
        marked-IsServing l r.error_number v,
      )
    ]
    | inl success ↦
        let taken = dispatch.take_completed w in
        let handled = handle_results env taken.1 l taken.0 in
        (
          true,
          handled.0,
          handled.1,
          rw success refl,
          handle_results-IsServing env taken.1 l taken.0 v,
        )
  ]

  notifier_event-GoesOn :
      (w : W) (l : EventLoop) (events : ℕ) (r : EventFdReadResult) (w1 : W)
      → IsServing l
      → dispatch.consume_notifications w ≡ some (r, w1)
      → GoesOn (notifier_event env w l events)
  unfolding handle_processing_results
  notifier_event-GoesOn w l events r w1 v e =
      elim (Bool-cases (has_any events (bit_or epollerr epollhup))) [
        | inl broken ↦
            (false, record l { error_number = eio }, w, rw broken refl, marked-IsServing l eio v)
        | inr sound ↦ elim (Bool-cases (has_any events epollin)) [
          | inr quiet ↦ (true, l, w, rw (sound, quiet) refl, v)
          | inl notified ↦
              let (ok, l', w', eq, v') = after_consume-GoesOn l r w1 v in
              (ok, l', w', rw (sound, notified, e) eq, v')
        ]
      ]

  after_accepts-GoesOn :
      (events : ℕ) (ok : Bool) (l : EventLoop) (w : W)
      → IsServing l
      → GoesOn (after_accepts env events (some (ok, l, w)))
  after_accepts-GoesOn events ok l w v = elim (Bool-cases ok) [
    | inr failure ↦ (false, l, w, rw failure refl, v)
    | inl accepted ↦ elim (Bool-cases (has_any events (bit_or epollerr epollhup))) [
      | inl broken ↦ (
        false,
        record l { error_number = eio },
        w,
        rw (accepted, broken) refl,
        marked-IsServing l eio v,
      )
      | inr sound ↦ (true, l, w, rw (accepted, sound) refl, v)
    ]
  ]

  module _ (recv_laws : RecvLaws sockets) (send_laws : SendLaws sockets)
      (count : OneCount env recv_laws send_laws) (accept_laws : AcceptLaws descriptors) where
    open recv_laws use {inbound}
    open accept_laws use {arrivals}

    listener_event-GoesOn :
        (fuel : ℕ) (w : W) (l : EventLoop) (events : ℕ)
        → IsServing l
        → l.next_connection_id + arrivals w < 2 ^ 64
        → arrivals w < fuel
        → GoesOn (listener_event env fuel w l events)
    listener_event-GoesOn fuel w l events v small enough =
        elim (Bool-cases (has_any events epollin)) [
          | inr quiet ↦
              let (ok, l', w', eq, v') = after_accepts-GoesOn events true l w v in
              (ok, l', w', rw quiet eq, v')
          | inl waiting ↦
              let (ok, l1, w1, e, v1, _) =
                accept_ready_clients-keeps env accept_laws IsServing (accept_client-IsServing env)
                  marked-IsServing fuel w l v small enough in
              let (ok', l', w', eq, v') = after_accepts-GoesOn events ok l1 w1 v1 in
              (ok', l', w', rw (waiting, e) eq, v')
        ]

    -- Let the loop be serving. Let the 64-bit counter not run out with the clients that can arrive, and
    -- let `consumeNotifications` return. Let the peer at the event's descriptor send only bytes, and let
    -- the fuel exceed the number of clients and signals that can arrive, and that of the bytes to
    -- read and of those unsent there, each with the signals that may interrupt a call. Then the
    -- handling of the event in `run` returns, whichever descriptor it is for and whatever its events
    -- are, and leaves the loop serving: ids distinct, positive and below the counter, each connection at its
    -- descriptor, with no whole frame in its decoder and the offset of its write buffer inside it.
    pub handle_event-IsServing :
        (fuel : ℕ) (w : W) (l : EventLoop) (event : Event)
        → IsServing l
        → l.next_connection_id + arrivals w < 2 ^ 64
        → arrivals w < fuel
        → (r : EventFdReadResult) (w1 : W) → dispatch.consume_notifications w ≡ some (r, w1)
        → IsBytes (inbound w event.ready_fd)
        → length (inbound w event.ready_fd) + recv_laws.signals w < fuel
        → unsent (client l event.ready_fd) + send_laws.signals w < fuel
        → (ok : Bool) × (l' : EventLoop) × (w' : W) × (handle_event env fuel w l event
            ≡ some (ok, l', w'))
          × IsServing l'
    unfolding handle_event
    handle_event-IsServing fuel w l event v small enough r w1 e ok enough_in enough_out =
        elim (Bool-cases (event.ready_fd ==ℤ dispatch.notification_fd)) [
          | inl notifier ↦
              let (ok', l', w', eq, v') = notifier_event-GoesOn w l event.events r w1 v e in
              (ok', l', w', rw notifier eq, v')
          | inr other ↦ elim (Bool-cases (event.ready_fd ==ℤ l.listener.fd)) [
            | inl listening ↦
                let (ok', l', w', eq, v') =
                  listener_event-GoesOn fuel w l event.events v small enough in
                (ok', l', w', rw (other, listening) eq, v')
            | inr peer ↦
                let (l', w', eq, _, v') =
                  handle_client_event-total env recv_laws send_laws count fuel w l event.ready_fd
                    event.events v ok enough_in enough_out in
                (true, l', w', rw (other, peer, eq) refl, v')
          ]
        ]
