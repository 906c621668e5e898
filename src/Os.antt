-- ===== src/Os.antt =====
-- The operating system as the program sees it: parameters, with what its manual pages promise. `W`
-- is the state of the world outside the program. No file of the repository implements any of it.
pub mod Errno
pub mod Sockets
pub mod Descriptors
pub mod Startup
pub mod Scripted
