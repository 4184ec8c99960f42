-- ===== src/Jobs.antt =====
-- The package jobs: the manager with its workers' decisions, the backoff
-- and the in-process queue.
pub mod Manager
pub mod Backoff
pub mod Attempts
pub mod Queue
mod Tests
