-- ===== src/Billing.antt =====
-- Subscriptions and payments.
pub mod Plan
pub mod Store
pub mod Guard
pub mod Stripe
pub mod Service
pub mod Rows
pub mod Webhook
pub mod Sync
pub mod Reconcile
mod Tests
