-- ===== src/Query.antt =====
-- internal/query: the read model behind the cache.
pub mod Documents
pub mod CachedRepo
pub mod Service
