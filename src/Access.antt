-- ===== src/Access.antt =====
-- Who may start a session by a share link, of backend/src/modules/access.
pub mod Identity
pub mod Links
pub mod Start
mod Tests
