-- ===== src/Events.antt =====
-- Events and their channels.
pub mod Store
pub mod Channels
pub mod Forms
pub mod Meetings
pub mod Service
pub mod Queries
pub mod Cached
pub mod Routes
mod Tests
