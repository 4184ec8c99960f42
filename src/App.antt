-- ===== src/App.antt =====
-- The package torge itself: the application's route table, its dispatch of requests and its life
-- cycle (app.go, group.go).
pub mod Routes
pub mod Location
pub mod Dispatch
pub mod Lifecycle
mod Tests
