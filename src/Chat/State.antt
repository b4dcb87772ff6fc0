-- ===== src/Chat/State.antt =====
-- What `_stream_response_impl` of free-claude-code/providers/openai_compat.py reads and keeps.
use vega_claude.Prelude.{ℕ, ◌⊎◌, String, Option, List, Dict}
use vega_claude.Prelude.Int.{ℤ}
use vega_claude.Json.{Value}
use vega_claude.Sse.Generator.{Exception, Generator}
use vega_claude.Sse.Builder.{SseBuilder}
use vega_claude.Think.{ThinkTagParser}

-- A tool call that the heuristic parser finds in the text.
pub record ToolUse : Type 0 where
  pub id : String
  pub name : String
  pub input : Value

-- `HeuristicToolParser`, by what the driver calls of it.
pub record HeuristicParser : Type 1 where
  pub State : Type 0
  pub new : State
  -- An exception if `json.loads` raised one that it does not catch, on JSON in the text.
  pub feed : String → State → Exception ⊎ (String × List ToolUse × State)
  pub flush : State → List ToolUse

pub record ToolFunction : Type 0 where
  pub name : Option String
  pub arguments : Option String

-- A part of a native tool call, as the provider sends it; `uuid` is what `uuid.uuid4()` gives if the
-- call asks for it.
pub record ToolCallDelta : Type 0 where
  pub index : ℤ
  pub id : Option String
  pub function : Option ToolFunction
  pub uuid : String

-- The same as `_process_tool_call` gets it.
pub record ToolCallPart : Type 0 where
  pub index : ℤ
  pub id : Option String
  pub name : Option String
  pub arguments : Option String
  pub uuid : String

pub record ChunkDelta : Type 0 where
  pub reasoning_content : Option String
  pub content : Option String
  pub tool_calls : List ToolCallDelta

pub record Choice : Type 0 where
  pub delta : Option ChunkDelta
  pub finish_reason : Option String

-- `usage` is there with its `completion_tokens`, if that is an int; `choice` is `choices[0]`.
pub record Chunk : Type 0 where
  pub usage : Option (Option ℕ)
  pub choice : Option Choice

-- What comes from the provider: the stream, and the message of the exception that ends it, if one
-- does; an exception on its creation leaves no chunks.
pub record Upstream : Type 0 where
  pub aliases : Dict String (Dict String String)
  pub chunks : List Chunk
  pub failure : Option String

pub record Driver (H : Type 0) : Type 0 where
  pub sse : SseBuilder
  pub think_parser : ThinkTagParser
  pub heuristic_parser : H
  pub finish_reason : Option String
  pub usage_info : Option (Option ℕ)
  pub alias_buffers : Dict ℕ String

-- A method of the builder, run on the driver's one.
abbrev pub on_sse : {H : Type 0} → Generator SseBuilder → Generator (Driver H)
on_sse m s =
    let r = m s.sse in
    record { exit = r.exit; state = record s { sse = r.state }; events = r.events }
