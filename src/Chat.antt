-- ===== src/Chat.antt =====
-- The OpenAI-compatible stream driver, free-claude-code/providers/openai_compat.py.
pub mod Aliases
pub mod State
pub mod ToolCalls
pub mod Stream
pub mod Kept
pub mod Quiet
pub mod ToolDeltas
pub mod TaskDeltas
pub mod CallsKept
pub mod WritesKept
pub mod ChunksKept
pub mod FlushKept
pub mod TaskFlush
pub mod Ending
pub mod Report
pub mod Safe
mod Tests
