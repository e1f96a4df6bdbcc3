-- ===== src/Executor.antt =====
-- go-agent/executor/executor.go: the actions that remediate a fault, by the commands that they run.
pub mod Effects
pub mod Request
pub mod Wifi
pub mod Network
pub mod Tuning
pub mod Dispatch
pub mod Programs
pub mod Guards
mod Tests
