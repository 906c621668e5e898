-- ===== src/Network.antt =====
-- include/netpulse/network and src/network.
pub mod Io
pub mod Socket
pub mod Epoll
pub mod EventFd
pub mod NonBlocking
pub mod Ownership
