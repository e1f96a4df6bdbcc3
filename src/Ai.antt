-- ===== src/Ai.antt =====
-- go-agent/ai: the client of the cloud model, behind its budget, its token bucket and its breaker.
pub mod Breaker
pub mod Client
