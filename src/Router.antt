-- ===== src/Router.antt =====
-- router.go: the route trie of an application.
pub mod Pattern
pub mod Trie
pub mod Table
mod Tests
