-- ===== src/Collection.antt =====
-- A worker's authority to collect a channel's donations (worker/internal/collection.go).
pub mod Model
pub mod Exclusive
mod Tests
