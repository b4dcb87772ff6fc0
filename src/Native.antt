-- ===== src/Native.antt =====
-- The native block policy, free-claude-code/core/anthropic/native_sse_block_policy.py.
pub mod Policy
pub mod Inverse
pub mod CloseOthers
pub mod InStep
pub mod Starts
pub mod Stops
pub mod Reopen
pub mod Deltas
pub mod Laws
pub mod Contract
pub mod Plain
pub mod Hidden
mod Tests
