-- ===== src/Notifications.antt =====
-- Notifications: the service that stores and sends them, the retries of a delivery, and reminders.
pub mod Store
pub mod Delivery
pub mod Service
pub mod Inbox
pub mod Background
pub mod Calls
pub mod Reminders
mod Tests
