-- ===== src/Server.antt =====
-- include/netpulse/server and src/server.
pub mod Connection
pub mod Processing
pub mod Dispatcher
pub mod Clients
pub mod EventLoop
pub mod Wiring
