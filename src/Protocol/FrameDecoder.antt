-- ===== src/Protocol/FrameDecoder.antt =====
-- include/netpulse/protocol/frame_decoder.hpp and src/protocol/frame_decoder.cpp.
pub mod View
pub mod NextFrame
pub mod Frames
pub mod Bounds
use net_pulse.Base.{
  ℕ, ◌+◌, ◌-◌, ◌/◌, ◌^◌, List, [], ◌++◌, ◌&&◌, length, take, drop, ltb, leb, ◌==◌, if◌then◌else◌,
}
use net_pulse.Protocol.Wire.{max_payload_size, header_size, ntohl}

pub data FrameDecodeStatus : Type 0 where
  need_more_data frame_ready payload_too_large : FrameDecodeStatus

pub record FrameDecodeResult : Type 0 where
  pub status : FrameDecodeStatus
  pub payload : List ℕ

pub record FrameDecoder : Type 0 where
  pub buffer : List ℕ
  pub read_offset : ℕ

-- A decoder as it is constructed.
unfoldable pub fresh : FrameDecoder
fresh = record { buffer = []; read_offset = 0 }

-- `size_t` subtraction wraps.
abbrev pub sub_size : ℕ → ℕ → ℕ
sub_size a b = if leb b a then a - b else a + 2 ^ 64 - b

abbrev pub compaction_threshold : ℕ
compaction_threshold = 4096

unfoldable pub append : FrameDecoder → List ℕ → FrameDecoder
append d bytes = record d { buffer = d.buffer ++ bytes }

unfoldable pub buffered_bytes : FrameDecoder → ℕ
buffered_bytes d = sub_size (length d.buffer) d.read_offset

unfoldable pub clear : FrameDecoder → FrameDecoder
clear d = record { buffer = []; read_offset = 0 }

unfoldable pub compact : FrameDecoder → FrameDecoder
compact d =
    if d.read_offset == 0
    then d
    else if d.read_offset == length d.buffer
    then record { buffer = []; read_offset = 0 }
    else if leb compaction_threshold d.read_offset && leb (length d.buffer / 2) d.read_offset
    then record { buffer = drop d.read_offset d.buffer; read_offset = 0 }
    else d

abbrev pub waiting : FrameDecodeResult
waiting = record { status = need_more_data; payload = [] }

abbrev pub oversized : FrameDecodeResult
oversized = record { status = payload_too_large; payload = [] }

abbrev pub ready : List ℕ → FrameDecodeResult
ready payload = record { status = frame_ready; payload = payload }

-- The part of `decodeNext` below the two tests that need no complete frame.
unfoldable pub take_frame : FrameDecoder → ℕ → FrameDecodeResult × FrameDecoder
take_frame d payload_size =
    let complete_frame_size = header_size + payload_size in
    if ltb (buffered_bytes d) complete_frame_size then (waiting, d) else (
      ready (take payload_size (drop (d.read_offset + header_size) d.buffer)),
      compact (record d { read_offset = d.read_offset + complete_frame_size }),
    )

unfoldable pub decode_next : FrameDecoder → FrameDecodeResult × FrameDecoder
decode_next d =
    if ltb (buffered_bytes d) header_size
    then (waiting, d)
    else let payload_size = ntohl (drop d.read_offset d.buffer) in
      if ltb max_payload_size payload_size then (oversized, d) else take_frame d payload_size
