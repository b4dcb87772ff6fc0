-- ===== src/Limits.antt =====
-- Rate limits (free-claude-code/core/rate_limit.py) and the queue of messaging tasks
-- (free-claude-code/messaging/limiter.py).
pub mod Window
pub mod Strict
pub mod Queue
mod Tests
