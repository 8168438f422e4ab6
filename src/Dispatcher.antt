-- ===== src/Dispatcher.antt =====
-- services/orchestrator/dispatcher: the calls of remote agents and what protects them.
pub mod Breaker
pub mod Retry
pub mod Response
pub mod Stream
pub mod Dispatch
