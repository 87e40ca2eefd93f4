-- ===== src/Assigner.antt =====
-- The coordinator's assigner (coordinator/internal/assigner.go).
pub mod Model
pub mod Select
pub mod Rounds
mod Tests
