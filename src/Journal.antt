-- ===== src/Journal.antt =====
-- The donation journal of shared/store.
pub mod Model
pub mod Grants
pub mod Donations
pub mod Consumers
pub mod Maintenance
pub mod Invariant
pub mod Preserve
pub mod Retained
pub mod Append
pub mod Steps
pub mod Channels
pub mod Reading
pub mod Batch
pub mod Retention
pub mod Delivery
pub mod Writing
pub mod Ownership
pub mod Requests
pub mod Outboxes
pub mod Expiry
pub mod Tests
