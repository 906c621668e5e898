-- ===== src/Server/Processing.antt =====
-- include/netpulse/server/processing.hpp and src/server/processing.cpp.
use net_pulse.Base.{ℕ, ℤ, List, [], ◌∷◌}

pub record ProcessingTask : Type 0 where
  pub client_fd : ℤ
  pub connection_id : ℕ
  pub payload : List ℕ

pub record ProcessingResult : Type 0 where
  pub client_fd : ℤ
  pub connection_id : ℕ
  pub response : List ℕ

-- The bytes of "ACK from NetPulse!".
abbrev pub ack_response : List ℕ
ack_response =
    b'A' ∷ b'C' ∷ b'K' ∷ b' ' ∷ b'f' ∷ b'r' ∷ b'o' ∷ b'm' ∷ b' ' ∷ b'N' ∷ b'e' ∷ b't' ∷ b'P' ∷ b'u'
    ∷ b'l' ∷ b's' ∷ b'e' ∷ b'!' ∷ []

unfoldable pub process_frame : ProcessingTask → ProcessingResult
process_frame task = record {
  client_fd = task.client_fd;
  connection_id = task.connection_id;
  response = ack_response;
}
