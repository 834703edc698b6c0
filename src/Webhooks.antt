-- ===== src/Webhooks.antt =====
-- The webhook deliveries of backend/src/modules/webhooks: `Retry` is the retry policy, `Dispatch` the
-- attempts of a delivery on the database.
pub mod Retry
pub mod Dispatch
mod Tests
