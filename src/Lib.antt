-- ===== src/Lib.antt =====
-- The core logic of vega_claude, two Python programs in one repository: free-claude-code, a proxy
-- that speaks Anthropic's streaming protocol in front of other providers, with an agent loop
-- (core/ralph), and copilot-ralph-mode, whose agent table lets three agents deliberate.
--
-- How the parts meet. The driver of an OpenAI-compatible provider cuts the provider's stream by the
-- think-tag parser into text and thinking, and writes it and the tool calls to the client by the SSE
-- builder, which numbers and closes the content blocks. Whatever the client receives must pass the
-- checks of the stream contract. A native stream passes the block policy, which renumbers its blocks
-- and lets none overlap a new one; when it breaks off, the tracker that read along closes what is open
-- and appends an error. Requests pass the sliding-window limiter first, as do the messages to chat
-- platforms, which wait in a queue that merges updates of one message. The agent loop asks the loop
-- guard after each round; the agent table moves between its phases by a state machine, and its votes
-- go to the consensus engine.
--
-- Which file models what (paths from the repository's root):
--   Sse/Event, Sse/Contract    free-claude-code/core/anthropic/stream_contracts.py
--     The events are decoded; a field that is missing or ill-typed is `none`. A failed assertion is
--     a `Violation`.
--   Sse/Blocks, Sse/TaskArgs, Sse/Builder    free-claude-code/core/anthropic/sse.py
--     A method that yields events is a `Generator` (Sse/Generator): the events yielded, the state,
--     and whether it ends or raises. What was yielded before an exception stays. The `json` module
--     is a parameter (Json), with the exceptions of `loads` and the recursion limit.
--   Sse/Tracker    free-claude-code/core/anthropic/emitted_sse_tracker.py, and the end of a stream
--     that breaks off in providers/anthropic_messages.py
--   Sse/Tokens    estimate_output_tokens of sse.py; the encoder is a parameter, which
--     may refuse a text.
--   Chat    free-claude-code/providers/openai_compat.py, the driver of a provider's stream
--     Chat/Aliases, Chat/State, Chat/ToolCalls and Chat/Stream hold the code, on a state that is the
--     builder, the think-tag parser, the heuristic parser and the alias buffers. The chunks that the
--     provider sends and its failure are given (Upstream); the heuristic parser is a record of
--     operations, `uuid4` a field of the part that asks for it. `json.dumps` is taken to raise
--     nothing on the input of a tool call that was found in the text (`dumps_input`).
--   Think    free-claude-code/core/anthropic/thinking.py
--     `feed` runs its loop on fuel, one more than the length of the buffer; every round that goes
--     on shortens the buffer, so that is enough, which `feed-Reads` includes.
--   Native/Policy    free-claude-code/core/anthropic/native_sse_block_policy.py
--     The events are decoded; what comes out for one event is a list of events.
--   Limits/Window    free-claude-code/core/rate_limit.py
--     The clock is an argument of each round, in whole ticks; a run is a sequence of rounds
--     (Limits/Strict), since the lock lets one round through at a time.
--   Limits/Queue    the queue of free-claude-code/messaging/limiter.py
--     A run is a sequence of operations, since each holds the lock; futures are numbers.
--   Ralph/LoopGuard    free-claude-code/core/ralph/loop_guard.py
--   Ralph/RunTable    free-claude-code/core/ralph/run_table.py, and the marks of run_lifecycle.py
--   AgentTable/Fsm    copilot-ralph-mode/ralph_mode/agent_table/fsm.py
--     The context is a type `C`, callbacks are functions on it. The search of `reachable_states`
--     (Fsm/Reachable) runs on fuel, one more than the number of transitions; each visit uses up the
--     transitions of its state, so that is enough, which `reachable_states-Leads` includes.
--
--   AgentTable/Fsm/Protocol    build_protocol_fsm of the same file
--     Protocol/Phases holds the table of phases that the machine refines.
--   AgentTable/Consensus    copilot-ralph-mode/ralph_mode/agent_table/consensus.py
--     Weights count halves, scores quarters; a vote's reason is left out.
--
-- Numbers are native natural numbers; block indices are integers (Prelude/Int), since -1 stands for
-- no block. Prelude carries association lists (Maps), equality tests (Equality) and lists (Lists).
-- The modules under Sse/Sync, Sse/Tracker, Think, Limits and AgentTable hold the proofs: Sse/Sync
-- relates the builder's blocks to what the contract's loop has seen, Sse/Message runs a whole
-- message, Sse/Tracker/Tracks relates the tracker to the contract's loop. In Chat the files from
-- Kept to Safe hold the proofs: Kept is what holds between two events, Quiet to FlushKept keep it
-- step by step, Ending and Safe put the message together.
-- In Native, InStep relates the policy's state to what the contract's loop has seen on either side.
--
-- Not modelled: the JSON texts of the events and their parsing, logging, HTTP,
-- messaging platforms and files, which are input and output; the creation of a provider's stream,
-- the requests, message trees, the rest of core/ralph and the rest of the agent table.
pub mod Prelude
pub mod Sse
pub mod AgentTable
pub mod Json
pub mod Limits
pub mod Ralph
pub mod Chat
pub mod Native
pub mod Think
