-- ===== src/Server/EventLoop/Tend.antt =====
-- What the other handlers leave of a serving loop: new clients, and results.
use net_pulse.Base.{
  ℕ, ℤ, ◌+◌, ◌^◌, ◌<◌, ◌≡◌, inl, inr, refl, sym, ap, subst, ◌∙◌, List, [], ◌∷◌, some, arith, ◌==◌,
  ==_iff, Bool-cases, Option-cases,
}
use net_pulse.Network.Socket
use net_pulse.Protocol.Wire.{IsBytes}
use net_pulse.Protocol.FrameDecoder.View
use net_pulse.Protocol.FrameDecoder.View.{next_frame}
use net_pulse.Server.Connection
use net_pulse.Server.Connection.Reading.{IsIdle}
use net_pulse.Server.Processing.{ProcessingResult}
use net_pulse.Server.Clients.{ClientState}
use net_pulse.Server.EventLoop.{EventLoop, Env, accept_client}
use net_pulse.Server.EventLoop.Handlers.{handle_result, handle_results}
use net_pulse.Server.EventLoop.Connections.{client}
use net_pulse.Server.EventLoop.Ids.{Enters, Enters-IsValid, accept_client-Enters, same_state}
use net_pulse.Server.EventLoop.Results.{handle_result-stale, handle_result-delivers}
use net_pulse.Server.EventLoop.Delivery.{handle_result-Touches}
use net_pulse.Server.EventLoop.Serving.{IsWhole, IsServing, Serves-IsServing}

pub init-IsWhole : (fd : ℤ) → IsWhole (Connection.init (Socket.of_fd fd))
unfolding Connection.init next_frame
init-IsWhole fd = record { idle = (omega arith, refl); bytes = tt; buffer = omega arith }

pub Enters-IsServing : {l l' : EventLoop} {fd : ℤ} → Enters l l' fd → IsServing l → IsServing l'
Enters-IsServing {l} {l'} {fd} n v = record {
  ids = Enters-IsValid n v.ids;
  whole = λ b s e. elim (n.new b s e) [
    | inl f ↦ v.whole b s f
    | inr (_, _, _, made) ↦ subst IsWhole (sym made) (init-IsWhole fd)
  ];
}

-- An error number is no part of it.
pub marked-IsServing :
    (l : EventLoop) (e : ℕ) → IsServing l → IsServing (record l { error_number = e })
marked-IsServing l e v = record {
  ids = record {
    keyed = v.ids.keyed;
    issued = v.ids.issued;
    distinct = v.ids.distinct;
    positive = v.ids.positive;
  };
  whole = v.whole;
}

module _ {W : Type 0} (env : Env W) where
  pub accept_client-IsServing :
      (w : W) (l : EventLoop) (fd : ℤ)
      → l.next_connection_id + 1 < 2 ^ 64
      → IsServing l
      → IsServing (accept_client env w l fd).0
  accept_client-IsServing w l fd small v =
      Enters-IsServing (accept_client-Enters env w l fd small) v

  unchanged-whole :
      (w : W) (l : EventLoop) (r : ProcessingResult)
      → IsServing l
      → handle_result env w l r ≡ (l, w)
      → (s' : ClientState) → client (handle_result env w l r).0 r.client_fd ≡ some s'
      → IsWhole s'.connection
  unchanged-whole w l r v same s' e =
      v.whole r.client_fd s' (sym (ap (λ x. client x.0 r.client_fd) same) ∙ e)

  delivered-whole :
      (w : W) (l : EventLoop) (r : ProcessingResult) (s : ClientState)
      → IsServing l
      → client l r.client_fd ≡ some s
      → s.id ≡ r.connection_id
      → (s' : ClientState) → client (handle_result env w l r).0 r.client_fd ≡ some s'
      → IsWhole s'.connection
  delivered-whole w l r s v e same s' e' =
      let whole = v.whole r.client_fd s e in
      elim ((handle_result-delivers env w l r s e same whole.buffer).1) [
        | inl (gone, _) ↦ cc
        | inr (t, f, _, _, decoder, valid, _) ↦
            subst (λ x. IsWhole x.connection) (same_state t s' (sym f ∙ e'))
              (record {
                idle = subst IsIdle (sym decoder) whole.idle;
                bytes = subst (λ d. IsBytes (View.pending d)) (sym decoder) whole.bytes;
                buffer = valid;
              })
      ]

  handle_result-IsServing :
      (w : W) (l : EventLoop) (r : ProcessingResult)
      → IsServing l
      → IsServing (handle_result env w l r).0
  handle_result-IsServing w l r v =
      Serves-IsServing
        (record {
          touches = handle_result-Touches env w l r;
          here = elim (Option-cases (client l r.client_fd)) [
            | inl e ↦ unchanged-whole w l r v (handle_result-stale env w l r (inl e))
            | inr (s, e) ↦ elim (Bool-cases (s.id == r.connection_id)) [
              | inl meant ↦ delivered-whole w l r s v e ((==_iff _ _).0 meant)
              | inr other ↦ unchanged-whole w l r v (
                  handle_result-stale env w l r
                    (inr (s, e, λ h. cc ((==_iff s.id r.connection_id).1 h))))
            ]
          ];
        })
        v

  pub handle_results-IsServing :
      (w : W) (l : EventLoop) (rs : List ProcessingResult)
      → IsServing l
      → IsServing (handle_results env w l rs).0
  unfolding handle_results
  handle_results-IsServing w l [] v = v
  handle_results-IsServing w l (r ∷ rs) v =
      handle_results-IsServing (handle_result env w l r).1 (handle_result env w l r).0 rs
        (handle_result-IsServing w l r v)
