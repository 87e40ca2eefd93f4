-- ===== src/Batches.antt =====
-- The ClickHouse batch writer (shared/store/ch_batch_writer.go).
pub mod Model
pub mod Safety
pub mod Closing
mod Tests
