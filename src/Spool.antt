-- ===== src/Spool.antt =====
-- The worker's donation spool (worker/internal/pipeline/spool.go): a directory of fsynced records
-- that are handed to the journal in order.
pub mod Model
pub mod Save
pub mod Drain
pub mod Durable
pub mod Handover
pub mod Tests
