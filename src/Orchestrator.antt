-- ===== src/Orchestrator.antt =====
-- go-agent/orchestrator: the writer queue, the event bus, and the state machine that they drive.
pub mod WriterQueue
pub mod EventBus
pub mod Machine
