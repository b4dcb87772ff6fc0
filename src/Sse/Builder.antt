-- ===== src/Sse/Builder.antt =====
-- `SSEBuilder` of free-claude-code/core/anthropic/sse.py, method by method.
use vega_claude.Prelude.{
  ℕ, String, Option, none, some, true, false, List, [], ◌∷◌, ◌++◌, Dict, get, nat_eq, if◌then◌else◌,
  string_eq, ◌==◌,
}
use vega_claude.Prelude.Int.{ℤ}
use vega_claude.Sse.Event.{
  Event, Block, Delta, text, thinking, tool_use, text_delta, thinking_delta, input_json_delta,
  message_start, message_delta, message_stop, content_block_start, content_block_delta,
  content_block_stop, error,
}
use vega_claude.Sse.Generator.{Generator, ◌>>◌, skip, emit, raise, done, key_error}
use vega_claude.Sse.Blocks.{
  ToolCallState, ContentBlockManager, new_tool_state, new_blocks, allocate_index, put_tool,
}

pub record SseBuilder : Type 0 where
  pub message_id : String
  pub model : String
  pub input_tokens : ℕ
  pub blocks : ContentBlockManager
  pub accumulated_text : List String
  pub accumulated_reasoning : List String

-- `none` and the empty text are no reason.
unfoldable pub map_stop_reason : Option String → String
map_stop_reason none = "end_turn"
map_stop_reason (some reason) =
    if reason == "length"
    then "max_tokens"
    else if reason == "tool_calls"
    then "tool_use"
    else "end_turn"

unfoldable pub new_builder : String → String → ℕ → SseBuilder
new_builder message_id model input_tokens = record {
  message_id = message_id;
  model = model;
  input_tokens = input_tokens;
  blocks = new_blocks;
  accumulated_text = [];
  accumulated_reasoning = [];
}

abbrev pub start_event : ℤ → Block → Event
start_event index block = content_block_start (some index) (some block)

abbrev pub delta_event : ℤ → Delta → Event
delta_event index delta = content_block_delta (some index) (some delta)

abbrev pub stop_event : ℤ → Event
stop_event index = content_block_stop (some index)

unfoldable pub emit_message_start : Generator SseBuilder
emit_message_start s = emit s (message_start s.message_id s.model s.input_tokens)

unfoldable pub emit_message_delta : String → ℕ → Generator SseBuilder
emit_message_delta stop_reason output_tokens s =
    emit s (message_delta stop_reason s.input_tokens output_tokens)

unfoldable pub emit_message_stop : Generator SseBuilder
emit_message_stop s = emit s message_stop

unfoldable pub start_thinking_block : Generator SseBuilder
unfolding allocate_index
start_thinking_block s =
    let (i, b) = allocate_index s.blocks in
    emit (record s { blocks = record b { thinking_index = i; thinking_started = true } })
      (start_event i (thinking ""))

unfoldable pub emit_thinking_delta : String → Generator SseBuilder
emit_thinking_delta content s =
    emit (record s { accumulated_reasoning = s.accumulated_reasoning ++ content ∷ [] })
      (delta_event s.blocks.thinking_index (thinking_delta content))

unfoldable pub stop_thinking_block : Generator SseBuilder
stop_thinking_block s =
    emit (record s { blocks = record (s.blocks) { thinking_started = false } })
      (stop_event s.blocks.thinking_index)

unfoldable pub start_text_block : Generator SseBuilder
unfolding allocate_index
start_text_block s =
    let (i, b) = allocate_index s.blocks in
    emit (record s { blocks = record b { text_index = i; text_started = true } })
      (start_event i (text ""))

unfoldable pub emit_text_delta : String → Generator SseBuilder
emit_text_delta content s =
    emit (record s { accumulated_text = s.accumulated_text ++ content ∷ [] })
      (delta_event s.blocks.text_index (text_delta content))

unfoldable pub stop_text_block : Generator SseBuilder
stop_text_block s =
    emit (record s { blocks = record (s.blocks) { text_started = false } })
      (stop_event s.blocks.text_index)

-- The tool state that `start_tool_block` leaves.
unfoldable pub start_state : ℤ → String → String → Option ToolCallState → ToolCallState
start_state i tool_id name none = new_tool_state i tool_id name true
start_state i tool_id name (some state) = record state {
  block_index = i;
  tool_id = tool_id;
  started = true;
}

unfoldable pub start_tool_block : ℕ → String → String → Generator SseBuilder
unfolding allocate_index start_state
start_tool_block tool_index tool_id name s =
    let (i, b) = allocate_index s.blocks in
    emit
      (record s {
        blocks = put_tool tool_index (start_state i tool_id name (get tool_index b.tool_states)) b;
      })
      (start_event i (tool_use tool_id name))

tool_delta_in : ℕ → String → Option ToolCallState → Generator SseBuilder
tool_delta_in tool_index partial_json none s = raise key_error s
tool_delta_in tool_index partial_json (some state) s =
    emit
      (record s {
        blocks =
            put_tool tool_index (record state { contents = state.contents ++ partial_json ∷ [] })
              s.blocks;
      })
      (delta_event state.block_index (input_json_delta partial_json))

unfoldable pub emit_tool_delta : ℕ → String → Generator SseBuilder
unfolding tool_delta_in
emit_tool_delta tool_index partial_json s =
    tool_delta_in tool_index partial_json (get tool_index s.blocks.tool_states) s

tool_stop_in : Option ToolCallState → Generator SseBuilder
tool_stop_in none s = raise key_error s
tool_stop_in (some state) s = emit s (stop_event state.block_index)

unfoldable pub stop_tool_block : ℕ → Generator SseBuilder
unfolding tool_stop_in
stop_tool_block tool_index s = tool_stop_in (get tool_index s.blocks.tool_states) s

-- `if self.blocks.text_started: yield self.stop_text_block()`, and the like.
unfoldable pub stop_text_if : Generator SseBuilder
unfolding stop_text_block
stop_text_if s = if s.blocks.text_started then stop_text_block s else skip s

unfoldable pub stop_thinking_if : Generator SseBuilder
unfolding stop_thinking_block
stop_thinking_if s = if s.blocks.thinking_started then stop_thinking_block s else skip s

unfoldable pub start_text_if : Generator SseBuilder
unfolding start_text_block
start_text_if s = if s.blocks.text_started then skip s else start_text_block s

unfoldable pub start_thinking_if : Generator SseBuilder
unfolding start_thinking_block
start_thinking_if s = if s.blocks.thinking_started then skip s else start_thinking_block s

unfoldable pub ensure_thinking_block : Generator SseBuilder
unfolding ◌>>◌ stop_text_if start_thinking_if
ensure_thinking_block = stop_text_if >> start_thinking_if

unfoldable pub ensure_text_block : Generator SseBuilder
unfolding ◌>>◌ stop_thinking_if start_text_if
ensure_text_block = stop_thinking_if >> start_text_if

unfoldable pub close_content_blocks : Generator SseBuilder
unfolding ◌>>◌ stop_thinking_if stop_text_if
close_content_blocks = stop_thinking_if >> stop_text_if

-- The loop over `tool_states.items()`.
unfoldable pub close_tools : Dict ℕ ToolCallState → Generator SseBuilder
close_tools [] = skip
close_tools ((tool_index, state) ∷ d) =
    (if state.started then stop_tool_block tool_index else skip) >> close_tools d

unfoldable pub close_all_blocks : Generator SseBuilder
close_all_blocks = close_content_blocks >> (λ s. close_tools s.blocks.tool_states s)

unfoldable pub emit_error : String → Generator SseBuilder
unfolding allocate_index
emit_error message s =
    let (i, b) = allocate_index s.blocks in
    record {
      exit = done;
      state = record s { blocks = b };
      events = start_event i (text "") ∷ delta_event i (text_delta message) ∷ stop_event i ∷ [];
    }

unfoldable pub emit_top_level_error : String → Generator SseBuilder
emit_top_level_error message s = emit s (error message)
