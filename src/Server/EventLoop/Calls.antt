-- ===== src/Server/EventLoop/Calls.antt =====
-- The handling of a client's bytes to send calls `send`, `epoll_ctl` and `close`: it keeps what these keep.
use net_pulse.Base.{
  ℕ, ℤ, inl, inr, ◌||◌, not, nonneg, ◌==ℤ◌, none, some, Option, Bool-cases, Option-cases,
}
use net_pulse.Os.Sockets.{SysResult, done, failed}
use net_pulse.Os.Descriptors.{EpollOp}
use net_pulse.Network.Socket
use net_pulse.Network.Socket.{Socket}
use net_pulse.Network.Epoll
use net_pulse.Network.Epoll.{Epoll}
use net_pulse.Network.Io.Keeps.{Holds, KeptBySend}
use net_pulse.Protocol.FrameWriteBuffer.Queue
use net_pulse.Protocol.FrameWriteBuffer.{FrameFlushResult}
use net_pulse.Server.Connection.{Connection, wants_write, flush_writes}
use net_pulse.Server.Connection.Keeps.{flush_writes-keeps}
use net_pulse.Server.EventLoop.{
  EventLoop, Env, erase_client, close_connection, update_interest, update_or_close, with_connection,
}
use net_pulse.Server.EventLoop.Handlers.{flush_failed, after_flush, write_stage}
use net_pulse.Server.EventLoop.Connections.{client}

module _ {W : Type 0} (env : Env W) (P : W → Type 0) where
  open env use {sockets, descriptors}

  pub record KeptByCalls : Type 0 where
    pub send : KeptBySend sockets P
    pub close : (w : W) (fd : ℤ) → P w → P (descriptors.close w fd)
    pub ctl :
        (w : W) (epfd fd : ℤ) (op : EpollOp) (mask : Option ℕ)
        → P w
        → P (descriptors.epoll_ctl w epfd op fd mask).1

  module _ (kept : KeptByCalls) where
    ctl_result-keeps : (res : SysResult × W) → P res.1 → P (Epoll.ctl_result res).1
    ctl_result-keeps (done n, w) h = h
    ctl_result-keeps (failed e, w) h = h

    guarded-keeps :
        (w : W) (e : Epoll) (op : EpollOp) (fd : ℤ) (events : ℕ)
        → P w
        → P (Epoll.guarded descriptors w e op fd events).1
    unfolding Epoll.guarded Epoll.control_epoll
    guarded-keeps w e op fd events h = elim (Bool-cases (not (Epoll.valid e) || not (nonneg fd))) [
      | inl bad ↦ rw bad h
      | inr good ↦ rw good (
          ctl_result-keeps (descriptors.epoll_ctl w e.fd op fd (Epoll.event_pointer op events))
            (kept.ctl w e.fd fd op (Epoll.event_pointer op events) h))
    ]

    destroy-keeps : (w : W) (s : Socket) → P w → P (Socket.destroy descriptors.close w s)
    unfolding Socket.destroy Socket.reset
    destroy-keeps w s h = elim (Bool-cases (s.fd ==ℤ Socket.no_fd)) [
      | inl gone ↦ rw (gone, Socket.destroy, Socket.reset) h
      | inr held ↦ elim (Bool-cases (Socket.valid s)) [
        | inl real ↦ rw (held, real, Socket.destroy, Socket.reset) (kept.close w s.fd h)
        | inr bad ↦ rw (held, bad, Socket.destroy, Socket.reset) h
      ]
    ]

    pub close_connection-keeps :
        (w : W) (l : EventLoop) (fd : ℤ) → P w → P (close_connection env w l fd).1
    unfolding close_connection erase_client Epoll.remove
    close_connection-keeps w l fd h = elim (Option-cases (client l fd)) [
      | inl e ↦ rw e h
      | inr (s, e) ↦ rw e (
          destroy-keeps (Epoll.remove descriptors w l.epoll fd).1 s.connection.socket
            (guarded-keeps w l.epoll _ fd 0 h))
    ]

    update_or_close-keeps :
        (w : W) (l : EventLoop) (fd : ℤ) (c : Connection) → P w → P (update_or_close env w l fd c).1
    unfolding update_or_close update_interest Epoll.modify
    update_or_close-keeps w l fd c h =
        let h' = guarded-keeps w l.epoll _ _ _ h in
        elim (Bool-cases (update_interest env w l c).0) [
          | inl e ↦ rw e h'
          | inr e ↦ rw e (close_connection-keeps _ l fd h')
        ]

    after_flush-keeps :
        (l : EventLoop) (fd : ℤ) (id : ℕ) (o : Option (FrameFlushResult × Connection × W))
        → Holds (λ out. P out.2) o
        → Holds (λ out. P out.1) (after_flush env l fd id o)
    after_flush-keeps l fd id none h = tt
    after_flush-keeps l fd id (some (r, c, w)) h = elim (Bool-cases (flush_failed r.status)) [
      | inl broken ↦ rw broken (close_connection-keeps w (with_connection l fd id c) fd h)
      | inr fine ↦ rw fine (update_or_close-keeps w (with_connection l fd id c) fd c h)
    ]

    pub write_stage-keeps :
        (fuel : ℕ) (w : W) (l : EventLoop) (fd : ℤ) (id : ℕ) (c : Connection)
        → Queue.IsValid c.write_buffer
        → P w
        → Holds (λ out. P out.1) (write_stage env fuel w l fd id c)
    unfolding write_stage
    write_stage-keeps fuel w l fd id c v h = elim (Bool-cases (wants_write c)) [
      | inl some_left ↦ rw some_left (
          after_flush-keeps l fd id (flush_writes sockets fuel w c)
            (flush_writes-keeps sockets P kept.send fuel w c v h))
      | inr nothing ↦ rw nothing (update_or_close-keeps w l fd c h)
    ]
