-- ===== src/Store.antt =====
-- internal/store/memstore: the repositories in memory.
pub mod Sessions
pub mod Tokens
