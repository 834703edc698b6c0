-- ===== src/Developer.antt =====
-- The developer API of backend/src/modules/developer.
pub mod Idempotency
mod Tests
