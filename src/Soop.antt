-- ===== src/Soop.antt =====
-- The SOOP connector of the worker (worker/internal/connector/soop.go): its packets, and the
-- connection from the login to the messages.
pub mod Bytes
pub mod Packet
pub mod RoundTrip
pub mod Texts
pub mod Model
pub mod Convert
pub mod Connector
pub mod Safety
pub mod Runs
pub mod Balloons
mod Tests
pub mod Malformed
