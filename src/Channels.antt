-- ===== src/Channels.antt =====
-- The tables live_channels and workers (shared/store/postgres.go, shared/store/postgres_history.go).
pub mod Model
pub mod Changes
pub mod Upserting
pub mod Queries
mod Laws
mod Sound
mod Preserve
mod Operations
mod Steps
mod Continuing
mod Evolution
mod Keys
mod Deduping
mod Found
mod Rows
mod Listing
mod Waiting
mod Serving
mod Reclaiming
mod Tests
