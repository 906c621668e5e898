-- ===== src/Tests/Connections.antt =====
-- A connection over a scripted system whose peer sends two frames in pieces of three bytes.
use net_pulse.Base.{ℕ, pos, ◌≤◌, ◌≡◌, ◌≢◌, ◌⊎◌, refl, List, [], ◌∷◌, ◌++◌, some, arith}
use net_pulse.Base.{length, ◌+◌, ◌*◌}
use net_pulse.Protocol.Wire.{max_payload_size}
use net_pulse.Protocol.FrameDecoder.Bounds.{IsTight}
use net_pulse.Server.Connection.Bounds.{read_available-bounded}
use net_pulse.Os.Scripted.{World, sockets, recv_laws}
use net_pulse.Protocol.Wire.{frame, ntohl}
use net_pulse.Protocol.FrameDecoder
use net_pulse.Protocol.FrameDecoder.{take_frame, decode_next, buffered_bytes}
use net_pulse.Protocol.FrameDecoder.View.{IsValid, pending, next_frame}
use net_pulse.Server.Connection
use net_pulse.Server.Connection.{
  Connection, ConnectionReadResult, read_result, ready, protocol_error, fd, decode_loop,
  after_decode, after_frames, read_loop, read_available,
}
use net_pulse.Server.Connection.Decode.{encode, AllLegal}
use net_pulse.Server.Connection.Read.{read_available-total}
use net_pulse.Server.Connection.Reading.{IsIdle, ReadEnds}
use net_pulse.Server.Connection.Deliver.{read_available-delivers}

abbrev frames : List (List ℕ)
frames = (104 ∷ 105 ∷ []) ∷ [] ∷ []

-- The frames of "hi" and of "".
abbrev world : World
world = record {
  sent = [];
  to_read = 0 ∷ 0 ∷ 0 ∷ 2 ∷ 104 ∷ 105 ∷ 0 ∷ 0 ∷ 0 ∷ 0 ∷ [];
  interrupts = 1;
  count = 0;
  waiting = 0;
}

abbrev connection : Connection
connection = record {
  socket = record { fd = pos 5 };
  decoder = record { buffer = []; read_offset = 0 };
  write_buffer = record { buffer = []; write_offset = 0 };
}

connection-IsIdle : IsIdle connection.decoder
unfolding next_frame
connection-IsIdle = (omega arith, refl)

read_two :
    read_available sockets 12 world connection
    ≡ some (read_result ready frames 0, connection, record world { to_read = []; interrupts = 0 })
unfolding read_available read_loop Connection.after_recv after_frames decode_loop after_decode
    decode_next take_frame FrameDecoder.compact FrameDecoder.append buffered_bytes ntohl
read_two = refl

read_available-total_example :
    (r : ConnectionReadResult) × (c' : Connection) × (w' : World) × (got : List ℕ) × (read_available
        sockets 12 world connection
      ≡ some (r, c', w'))
    × (world.to_read ≡ got ++ w'.to_read)
    × ([] ++ got ≡ encode r.frames ++ pending c'.decoder)
    × AllLegal r.frames
    × IsValid c'.decoder
    × (c'.socket ≡ connection.socket)
    × (c'.write_buffer ≡ connection.write_buffer)
    × (w'.interrupts ≤ 1)
    × ReadEnds r c'.decoder
read_available-total_example =
    read_available-total sockets recv_laws 12 world connection connection-IsIdle tt (omega arith)
      (omega arith)

read_available-delivers_example :
    (r : ConnectionReadResult) × (c' : Connection) × (w' : World) × (later : List (List ℕ))
    × (read_available sockets 12 world connection ≡ some (r, c', w'))
    × (frames ≡ r.frames ++ later)
    × (pending c'.decoder ++ w'.to_read ≡ encode later)
    × AllLegal later
    × IsIdle c'.decoder
    × (r.status ≢ protocol_error)
    × ((later ≡ []) ⊎ (w'.to_read ≢ []))
unfolding frame
read_available-delivers_example =
    read_available-delivers sockets recv_laws 12 world connection frames connection-IsIdle tt
      (omega arith) (omega arith) refl (omega arith)

read_available-bounded_example :
    (r : ConnectionReadResult) × (c' : Connection) × (w' : World) × (read_available sockets 12 world
        connection
      ≡ some (r, c', w'))
    × IsTight c'.decoder
    × ((r.status ≡ protocol_error) ⊎ (length c'.decoder.buffer ≤ 2 * (4 + max_payload_size) + 4096))
read_available-bounded_example =
    read_available-bounded sockets recv_laws 12 world connection connection-IsIdle (omega arith) tt
      (omega arith) (omega arith)
