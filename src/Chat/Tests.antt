-- ===== src/Chat/Tests.antt =====
-- Runs of the driver.
use vega_claude.Prelude.{
  ◌≡◌, refl, inr, String, none, some, true, false, [], ◌∷◌, nat_eq, string_eq, if◌then◌else◌, ◌==◌,
}
use vega_claude.Prelude.Int.{pos}
use vega_claude.Json.{Json, loaded, malformed, object, end}
use vega_claude.Sse.Generator.{◌>>◌}
use vega_claude.Sse.Builder.{ensure_thinking_block, new_builder, emit_thinking_delta}
use vega_claude.Sse.Contract.{Checker, fresh_checker, ok, check_events}
use vega_claude.Prelude.Text.{size}
use vega_claude.Sse.Tokens.{Encoder}
use vega_claude.Chat.State.{HeuristicParser, Chunk, Upstream}
use vega_claude.Chat.Stream.{
  stream_response, read_stream, write_chunk, write_choice, write_delta, write_reasoning,
  write_content, write_tool_calls, write_thinking,
}
use vega_claude.Chat.Safe.{Ends, Escapes, stream_response-safe, stream_response-clean}

abbrev no_json : Json
no_json = record {
  loads = λ s. if s == "{}" then loaded (object end) else malformed;
  dumps = λ v. some "{}";
  dumps_input = λ v. "{}";
}

-- It finds no tools in the text.
abbrev plain_parser : HeuristicParser
plain_parser = record { State = Unit {0}; new = tt; feed = λ t s. inr (t, [], s); flush = λ s. [] }

abbrev text_chunk : String → Chunk
text_chunk t = record {
  usage = none;
  choice = some (record {
    delta = some (record { reasoning_content = none; content = some t; tool_calls = [] });
    finish_reason = none;
  });
}

abbrev tool_chunk : String → String → Chunk
tool_chunk name args = record {
  usage = none;
  choice = some (record {
    delta = some (record {
      reasoning_content = some "why";
      content = none;
      tool_calls =
          record {
            index = pos 0;
            id = some "call_1";
            function = some (record { name = some name; arguments = some args });
            uuid = "tool_1";
          }
          ∷ [];
    });
    finish_reason = some "tool_calls";
  });
}

-- Text, then a Task whose arguments are not complete, then a failure of the provider.
abbrev broken_task : Upstream
broken_task = record {
  aliases = [];
  chunks = text_chunk "hello" ∷ tool_chunk "Task" "{" ∷ [];
  failure = some "overloaded";
}

abbrev thought : Chunk
thought = record {
  usage = some (some 12);
  choice = some (record {
    delta = some (record { reasoning_content = some "why"; content = none; tool_calls = [] });
    finish_reason = some "stop";
  });
}

-- Only reasoning.
abbrev thoughts : Upstream
thoughts = record { aliases = []; chunks = thought ∷ []; failure = none }

-- Reasoning, then a failure of the provider.
abbrev failed_thoughts : Upstream
failed_thoughts = record { aliases = []; chunks = thought ∷ []; failure = some "overloaded" }

-- It refuses the text of a special token.
abbrev encoder : Encoder
encoder = some (λ t. if t == "<|endoftext|>" then none else some (size t))

stream_response-safe_example :
    let r =
      stream_response no_json plain_parser true encoder "internal" "msg_1" "model" 3 broken_task in
    ((c : Checker) × (check_events true fresh_checker r.events ≡ ok c))
    × Ends true (Escapes no_json plain_parser true [] encoder) r
stream_response-safe_example =
    stream_response-safe no_json plain_parser true encoder "internal" "msg_1" "model" 3 broken_task

stream_response-clean_example :
    let r =
      stream_response no_json plain_parser true encoder "internal" "msg_1" "model" 3 thoughts in
    ((c : Checker) × (check_events false fresh_checker r.events ≡ ok c))
    × Ends false (Escapes no_json plain_parser true [] encoder) r
unfolding read_stream write_chunk write_choice write_delta write_reasoning write_content
    write_tool_calls write_thinking ◌>>◌ ensure_thinking_block new_builder emit_thinking_delta
stream_response-clean_example =
    stream_response-clean no_json plain_parser true encoder "internal" "msg_1" "model" 3 thoughts
      refl
