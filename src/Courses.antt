-- ===== src/Courses.antt =====
-- The courses of backend/src/modules/courses.
pub mod Progress
pub mod Attempt
mod Tests
