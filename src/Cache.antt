-- ===== src/Cache.antt =====
-- How values reach Redis and come back (app/config/redis_config.py).
pub mod Value
pub mod Codec
pub mod Through
mod Tests
