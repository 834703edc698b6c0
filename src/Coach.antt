-- ===== src/Coach.antt =====
-- The learner memory of backend/src/modules/coach.
pub mod Memory
mod Tests
