-- ===== src/Leader.antt =====
-- Leader leases (shared/store/redis.go) and the discover service's leader election
-- (discover/internal/leader.go).
pub mod Redis
pub mod Election
mod Fencing
mod Turns
mod Worlds
mod Holding
mod Tests
