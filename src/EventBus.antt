-- ===== src/EventBus.antt =====
-- pkg/runtime/eventbus: the bus that carries run events to their consumers.
pub mod Envelope
pub mod Memory
