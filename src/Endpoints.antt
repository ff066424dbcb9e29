-- ===== src/Endpoints.antt =====
-- The RTMP endpoints that users store, and the cache before them.
pub mod Store
pub mod Service
pub mod Cached
mod Tests
