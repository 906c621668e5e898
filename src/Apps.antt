-- ===== src/Apps.antt =====
-- The programs: apps/server/main.cpp and tools/device_simulator/main.cpp.
pub mod Simulator
pub mod Server
