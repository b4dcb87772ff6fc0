-- ===== src/AgentTable.antt =====
-- The agent table of copilot-ralph-mode/ralph_mode/agent_table.
pub mod Fsm
mod Tests
pub mod Consensus
