-- ===== src/Knowledge.antt =====
-- The knowledge base of backend/src/modules/knowledge.
pub mod Chunking
mod Tests
