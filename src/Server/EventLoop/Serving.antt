-- ===== src/Server/EventLoop/Serving.antt =====
-- The loop between two events, and what an event of one client may do to it.
use net_pulse.Base.{ℤ, ◌≡◌, inl, inr, sym, ap, ◌∙◌, false, some, ◌==ℤ◌, ==ℤ_iff, Bool-cases}
use net_pulse.Protocol.Wire.{IsBytes}
use net_pulse.Protocol.FrameDecoder.View
use net_pulse.Protocol.FrameWriteBuffer.Queue
use net_pulse.Server.Connection.{Connection}
use net_pulse.Protocol.FrameDecoder.{FrameDecoder}
use net_pulse.Server.Connection.{ConnectionReadResult}
use net_pulse.Server.Connection.Reading.{IsIdle, ReadEnds}
use net_pulse.Server.Clients.{ClientState}
use net_pulse.Server.EventLoop.{EventLoop}
use net_pulse.Server.EventLoop.Handlers.{read_failed}
use net_pulse.Server.EventLoop.Connections.{client, Touches}
use net_pulse.Server.EventLoop.Ids.{IsValid, Touches-IsValid}

-- A connection between two events: its decoder holds no whole frame, only bytes, and the offset of its
-- write buffer lies inside the buffer.
pub record IsWhole (c : Connection) : Type 0 where
  pub idle : IsIdle c.decoder
  pub bytes : IsBytes (View.pending c.decoder)
  pub buffer : Queue.IsValid c.write_buffer

-- A loop between two events.
pub record IsServing (l : EventLoop) : Type 0 where
  pub ids : IsValid l
  pub whole : (b : ℤ) (s : ClientState) → client l b ≡ some s → IsWhole s.connection

-- A read that has not failed leaves no whole frame.
pub ready-IsIdle :
    (r : ConnectionReadResult) (d : FrameDecoder)
    → View.IsValid d
    → read_failed r.status ≡ false
    → ReadEnds r d
    → IsIdle d
ready-IsIdle r d v ok (inl (s, _, _)) = cc
ready-IsIdle r d v ok (inr (inl (_, e, _))) = (v, e)
ready-IsIdle r d v ok (inr (inr (inl (s, _, _)))) = cc
ready-IsIdle r d v ok (inr (inr (inr (s, _, _, _)))) = cc

-- What an event of the client at `fd` may do.
pub record Serves (l l' : EventLoop) (fd : ℤ) : Type 0 where
  pub touches : Touches l l' fd
  pub here : (s : ClientState) → client l' fd ≡ some s → IsWhole s.connection

pub Serves-IsServing : {l l' : EventLoop} {fd : ℤ} → Serves l l' fd → IsServing l → IsServing l'
Serves-IsServing {l} {l'} {fd} t v = record {
  ids = Touches-IsValid t.touches v.ids;
  whole = λ b s e. elim (Bool-cases (fd ==ℤ b)) [
    | inl at_fd ↦ t.here s (ap (client l') ((==ℤ_iff fd b).0 at_fd) ∙ e)
    | inr elsewhere ↦ v.whole b s (sym (t.touches.others b (λ h. cc ((==ℤ_iff fd b).1 h))) ∙ e)
  ];
}
