-- ===== src/Coordinator.antt =====
-- The coordinator's event handling and health checks (coordinator/internal).
pub mod Model
pub mod Events
pub mod Health
pub mod Cleanup
mod Tests
pub mod Reactions
