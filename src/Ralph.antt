-- ===== src/Ralph.antt =====
-- The deterministic parts of the Ralph runtime (free-claude-code/core/ralph).
pub mod LoopGuard
pub mod RunTable
mod Tests
