-- ===== src/Cache.antt =====
-- The package cache: the in-process store and namespaces.
pub mod Memory
mod Tests
