-- ===== src/Harness.antt =====
-- pkg/runtime/harness: the run budget that the orchestrator and the agents share.
pub mod Budget
