-- ===== src/Connections.antt =====
-- The tokens of streaming platforms that users have connected.
pub mod Store
pub mod Service
pub mod Refresh
mod Tests
pub mod Calls
