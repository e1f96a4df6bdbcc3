-- ===== src/Config.antt =====
-- go-agent/config: what the agent reads from its configuration. `Settings` has the fields of `Config`, EnvFile the
-- file, Load the environment and the keys, System what the agent asks of the machine.
pub mod Intents
pub mod Settings
pub mod EnvFile
pub mod Load
mod Tests
