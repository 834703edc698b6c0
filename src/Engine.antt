-- ===== src/Engine.antt =====
-- The live session engine of backend/src/modules/runtime/engine/session-engine.ts, one module for
-- each group of its methods, and below each the proofs about it.
pub mod State
pub mod Exec
pub mod Guarantee
pub mod Ledger
pub mod Transition
pub mod Turns
pub mod Speech
pub mod Ending
pub mod Control
pub mod Connection
pub mod Participant
pub mod Timer
pub mod Tasks
mod Tests
