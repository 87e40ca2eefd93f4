-- ===== src/Discovery.antt =====
-- Discovery of live channels (discover/internal/discover.go) and the history of their broadcasts
-- (discover/internal/history/emitter.go).
pub mod Model
pub mod Emitter
pub mod Cycle
pub mod Grace
pub mod Spared
pub mod Ended
pub mod Marks
pub mod Triggers
pub mod Tidy
pub mod Histories
mod Tests
