-- ===== src/Concurrency.antt =====
-- include/netpulse/concurrency and src/concurrency.
pub mod BoundedQueue
pub mod ThreadPool
