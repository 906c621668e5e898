-- ===== src/Server/Wiring/Deliver.antt =====
-- `handleProcessingResults` over the dispatcher: what is completed is taken and handed out.
use net_pulse.Os.Sockets.{Sockets}
use net_pulse.Os.Descriptors.{Descriptors}
use net_pulse.Network.EventFd
use net_pulse.Protocol.FrameWriteBuffer.Queue
use net_pulse.Server.Dispatcher
use net_pulse.Server.Dispatcher.{Dispatcher}
use net_pulse.Server.EventLoop.{EventLoop}
