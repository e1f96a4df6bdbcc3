-- ===== src/Telemetry.antt =====
-- go-agent/telemetry/telemetry.go: what the collector computes from what it reads. The reading of files and of
-- programs is a parameter; times are in nanoseconds.
pub mod Collect
pub mod Traffic
pub mod Shaper
pub mod Clients
pub mod Radios
pub mod Proc
pub mod Wan
mod Tests
