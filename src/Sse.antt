-- ===== src/Sse.antt =====
-- Streaming to the client in Anthropic's event format (free-claude-code/core/anthropic).
pub mod Event
pub mod Generator
pub mod Blocks
pub mod TaskArgs
pub mod Builder
pub mod Tokens
pub mod Seen
pub mod Contract
pub mod Sync
pub mod Message
pub mod Tracker
mod Tests
