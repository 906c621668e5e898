-- ===== src/Tests.antt =====
-- Runs of the definitions on small inputs, and the theorems at inputs that meet their hypotheses.
mod Decoding
mod Streams
mod Connections
mod Pool
mod Loop
mod Dispatching
mod Interest
mod Simulator
mod Serving
mod Publishing
mod Wiring
mod Starting
mod Requests
