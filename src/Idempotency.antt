-- ===== src/Idempotency.antt =====
-- The package idempotency: its store over the cache, and the middleware.
pub mod Store
pub mod Middleware
pub mod Laws
mod Tests
