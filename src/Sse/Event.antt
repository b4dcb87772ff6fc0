-- ===== src/Sse/Event.antt =====
-- The events of an Anthropic stream, with the `data` object decoded: free-claude-code/core/anthropic
-- `sse.py` writes them by `format_sse_event` and `stream_contracts.py` reads them as `SSEEvent`.
-- `none` stands for a field that is missing or has another type than the code asks for.
use vega_claude.Prelude.{ℕ, String, Option, Bool, true, false}
use vega_claude.Prelude.Int.{ℤ}

-- `content_block`, by its `type`.
pub data Block : Type 0 where
  text : String → Block
  thinking : String → Block
  tool_use : String → String → Block
  redacted_thinking server_tool_use web_search_tool_result web_fetch_tool_result : Block
  unknown : String → Block

-- `delta`, by its `type`.
pub data Delta : Type 0 where
  text_delta : String → Delta
  thinking_delta : String → Delta
  signature_delta : String → Delta
  input_json_delta : String → Delta
  unknown : String → Delta

pub data Event : Type 0 where
  message_start : String → String → ℕ → Event
  message_delta : String → ℕ → ℕ → Event
  message_stop : Event
  content_block_start : Option ℤ → Option Block → Event
  content_block_delta : Option ℤ → Option Delta → Event
  content_block_stop : Option ℤ → Event
  error : String → Event
  other : String → Event

-- `event.event == "message_start"`, and so on.
abbrev pub is_message_start : Event → Bool
is_message_start (message_start _ _ _) = true
is_message_start _ = false

abbrev pub is_message_stop : Event → Bool
is_message_stop message_stop = true
is_message_stop _ = false
