-- ===== src/Apps/Simulator.antt =====
-- tools/device_simulator/main.cpp: a client that sends one frame and prints the answer. A line that
-- `main` writes to `std::cout` or to `std::cerr` is a value; `none` means that a loop of the frames
-- ran out of fuel.
pub mod Ends
pub mod Talk
pub mod Exchange
use net_pulse.Base.{ℕ, ℤ, pos, ◌≡◌, List, [], ◌∷◌, ◌++◌, Option, none, some, not, if◌then◌else◌}
use net_pulse.Os.Sockets.{Sockets, SysResult, done, failed}
use net_pulse.Os.Startup.{Startup, Address, af_inet, sock_stream, htons}
use net_pulse.Network.Socket
use net_pulse.Network.Socket.{Socket, no_fd}
use net_pulse.Protocol.Frame.{
  SendFrameResult, ReceiveFrameResult, frame_completed, send_frame, receive_frame,
}

abbrev pub server_port : ℕ
server_port = 9000

-- "127.0.0.1"
abbrev pub server_address : List ℕ
server_address = b'1' ∷ b'2' ∷ b'7' ∷ b'.' ∷ b'0' ∷ b'.' ∷ b'0' ∷ b'.' ∷ b'1' ∷ []

-- {"device_id":"sensor-001",
abbrev telemetry_device : List ℕ
telemetry_device =
    b'{' ∷ b'"' ∷ b'd' ∷ b'e' ∷ b'v' ∷ b'i' ∷ b'c' ∷ b'e' ∷ b'_' ∷ b'i' ∷ b'd' ∷ b'"' ∷ b':' ∷ b'"'
    ∷ b's' ∷ b'e' ∷ b'n' ∷ b's' ∷ b'o' ∷ b'r' ∷ b'-' ∷ b'0' ∷ b'0' ∷ b'1' ∷ b'"' ∷ b',' ∷ []

-- "temperature":25.4,
abbrev telemetry_temperature : List ℕ
telemetry_temperature =
    b'"' ∷ b't' ∷ b'e' ∷ b'm' ∷ b'p' ∷ b'e' ∷ b'r' ∷ b'a' ∷ b't' ∷ b'u' ∷ b'r' ∷ b'e' ∷ b'"' ∷ b':'
    ∷ b'2' ∷ b'5' ∷ b'.' ∷ b'4' ∷ b',' ∷ []

-- "humidity":61}
abbrev telemetry_humidity : List ℕ
telemetry_humidity =
    b'"' ∷ b'h' ∷ b'u' ∷ b'm' ∷ b'i' ∷ b'd' ∷ b'i' ∷ b't' ∷ b'y' ∷ b'"' ∷ b':' ∷ b'6' ∷ b'1' ∷ b'}'
    ∷ []

abbrev pub telemetry : List ℕ
telemetry = telemetry_device ++ telemetry_temperature ++ telemetry_humidity

-- A line of `std::cout`; `response` has the bytes that are written behind "Server response: ".
pub data Line : Type 0 where
  starting connected : Line
  telemetry_sent : List ℕ → Line
  response : List ℕ → Line

-- A line of `std::cerr`, with the error numbers and the counts in it.
pub data Failure : Type 0 where
  no_socket : ℕ → Failure
  invalid_address : Failure
  not_connected : ℕ → Failure
  not_sent not_received : ℕ → ℕ → Failure

pub record Ended : Type 0 where
  pub code : ℕ
  pub out : List Line
  pub err : List Failure

abbrev pub ended : ℕ → List Line → List Failure → Ended
ended code out err = record { code = code; out = out; err = err }

module _ {W : Type 0} (os : Startup W) (close : W → ℤ → W) (sockets : Sockets W) (fuel : ℕ) where
  -- A `return`, which destroys the connection.
  abbrev pub returns : Socket → Ended → W → Option (Ended × W)
  returns connection e w = some (e, Socket.destroy close w connection)

  abbrev pub after_receive : Socket → Option (ReceiveFrameResult × W) → Option (Ended × W)
  after_receive connection none = none
  after_receive connection (some (r, w)) =
      if not (frame_completed r.status)
      then returns connection
          (ended 1 (starting ∷ connected ∷ telemetry_sent telemetry ∷ [])
            (not_received r.bytes_transferred r.error_number ∷ []))
          w
      else returns connection
          (ended 0 (starting ∷ connected ∷ telemetry_sent telemetry ∷ response r.payload ∷ []) []) w

  abbrev pub after_send : Socket → Option (SendFrameResult × W) → Option (Ended × W)
  after_send connection none = none
  after_send connection (some (r, w)) =
      if not (frame_completed r.status)
      then returns connection
          (ended 1 (starting ∷ connected ∷ []) (not_sent r.bytes_transferred r.error_number ∷ [])) w
      else after_receive connection (receive_frame sockets fuel w (Socket.fd connection))

  abbrev pub after_connect : Socket → SysResult × W → Option (Ended × W)
  after_connect connection (failed e, w) =
      returns connection (ended 1 (starting ∷ []) (not_connected e ∷ [])) w
  after_connect connection (done n, w) =
      after_send connection (send_frame sockets fuel w (Socket.fd connection) telemetry)

  abbrev pub after_pton : W → Socket → Option (List ℕ) → Option (Ended × W)
  after_pton w connection none =
      returns connection (ended 1 (starting ∷ []) (invalid_address ∷ [])) w
  after_pton w connection (some address) = after_connect connection (
      os.connect w (Socket.fd connection)
        (record { sin_family = af_inet; sin_port = htons server_port; sin_addr = address }))

  abbrev pub after_socket : SysResult × W → Option (Ended × W)
  after_socket (failed e, w) =
      returns (Socket.of_fd no_fd) (ended 1 (starting ∷ []) (no_socket e ∷ [])) w
  after_socket (done n, w) =
      after_pton w (Socket.of_fd (pos n)) (os.inet_pton af_inet server_address)

  unfoldable pub main : W → Option (Ended × W)
  main w = after_socket (os.socket w af_inet sock_stream 0)
