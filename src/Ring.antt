-- ===== src/Ring.antt =====
-- The ring protocol, components/ring_proto: one module for each of its C files.
pub mod Crc
pub mod Cobs
pub mod Frame
pub mod Route
pub mod Dup
pub mod Tracker
pub mod Chunks
pub mod Telemetry
pub mod Heartbeat
pub mod Health
