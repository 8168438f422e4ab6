-- ===== src/Gateway.antt =====
-- services/gateway: conversations and their messages, and the projection of runs into them.
pub mod Store
pub mod Projection
pub mod Live
mod Tests
