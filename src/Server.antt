-- ===== src/Server.antt =====
-- go-agent/cmd/main.go: the server of the agent. Ip has the addresses, Access who may do what, Limits the
-- counters of requests, Endpoints the handlers that change something.
pub mod Ip
pub mod Access
pub mod Limits
pub mod Endpoints
mod Tests
