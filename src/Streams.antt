-- ===== src/Streams.antt =====
-- Broadcasts: which streams of a user are running, and how one is started and stopped.
pub mod Tracker
pub mod Broadcast
pub mod Usage
mod Tests
