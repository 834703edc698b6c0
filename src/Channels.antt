-- ===== src/Channels.antt =====
-- The telephone channel of backend/src/modules/channels.
pub mod Batches
mod Tests
