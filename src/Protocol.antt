-- ===== src/Protocol.antt =====
-- include/netpulse/protocol and src/protocol: length-prefixed frames.
pub mod Wire
pub mod Frame
pub mod FrameDecoder
pub mod FrameWriteBuffer
