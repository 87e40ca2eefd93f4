-- ===== src/Manager.antt =====
-- The worker's connections and the reports of channels that fail to connect
-- (worker/internal/manager.go).
pub mod Model
pub mod Bounds
pub mod Orphans
pub mod Backoff
mod Tests
