-- ===== src/Chat/Stream.antt =====
-- `_iter_heuristic_tool_use_sse` and `_stream_response_impl` of
-- free-claude-code/providers/openai_compat.py. The provider-specific hook for reasoning is the
-- default one, which yields nothing; logging and cancellation are left out.
use vega_claude.Prelude.{
  ℕ, String, Option, none, some, Bool, true, not, ◌&&◌, ◌||◌, List, [], ◌∷◌, Dict, is_empty, ◌⊎◌,
  inl, inr, string_eq, ◌==◌, if◌then◌else◌,
}
use vega_claude.Prelude.Int.{minus_one, int_eq}
use vega_claude.Prelude.Text.{is_null, is_blank}
use vega_claude.Json.{Value, object, Json}
use vega_claude.Think.{ContentType, ContentChunk, ThinkTagParser, new_parser, feed, flush}
use vega_claude.Sse.Event.{tool_use, input_json_delta}
use vega_claude.Sse.Generator.{
  done, raised, Exception, attribute_error, value_error, upstream, Run, Generator, ◌>>◌, resume,
  skip, raise,
}
use vega_claude.Sse.Blocks.{any_started, has_emitted_tool_block, allocate_index}
use vega_claude.Sse.TaskArgs.{normalize_fields}
use vega_claude.Sse.Builder.{
  SseBuilder, new_builder, map_stop_reason, start_event, delta_event, stop_event,
  emit_message_start, emit_message_delta, emit_message_stop, ensure_text_block,
  ensure_thinking_block, emit_text_delta, emit_thinking_delta, close_content_blocks,
  close_all_blocks, emit_error, emit_top_level_error,
}
use vega_claude.Sse.Tokens.{Encoder, join, estimate_output_tokens}
use vega_claude.Chat.State.{
  ToolUse, HeuristicParser, ToolCallDelta, ChunkDelta, Choice, Chunk, Upstream, Driver, on_sse,
}
use vega_claude.Chat.ToolCalls.{
  tools_of, or_empty, process_tool_call, flush_tool_argument_alias_buffers, flush_task_args,
}

-- One generator after the other, for each element.
abbrev pub for_each : {A S : Type 0} → (A → Generator S) → List A → Generator S
for_each f [] = skip
for_each f (x ∷ xs) = f x >> for_each f xs

abbrev task_input : Bool → Value → Value
task_input true (object d) = object (normalize_fields d)
task_input _ v = v

-- A whole tool block.
unfoldable pub heuristic_block : Json → ToolUse → Generator SseBuilder
unfolding allocate_index
heuristic_block json call s =
    let (i, b) = allocate_index s.blocks in
    let input = task_input (call.name == "Task") call.input in
    record {
      exit = done;
      state = record s { blocks = b };
      events =
          start_event i (tool_use call.id call.name)
          ∷ delta_event i (input_json_delta (json.dumps_input input))
          ∷ stop_event i
          ∷ [];
    }

unfoldable pub iter_heuristic_tool_use : Json → ToolUse → Generator SseBuilder
unfolding heuristic_block ◌>>◌
iter_heuristic_tool_use json call = close_content_blocks >> heuristic_block json call

unfoldable pub write_text : String → Generator SseBuilder
unfolding ◌>>◌
write_text t = ensure_text_block >> emit_text_delta t

unfoldable pub write_thinking : String → Generator SseBuilder
unfolding ◌>>◌
write_thinking t = ensure_thinking_block >> emit_thinking_delta t

unfoldable pub write_failure : String → Generator SseBuilder
unfolding has_emitted_tool_block
write_failure message s =
    if has_emitted_tool_block s.blocks then emit_top_level_error message s else emit_error message s

module _ (json : Json) (heuristic : HeuristicParser) (thinking_enabled : Bool) where
  abbrev pub State : Type 0
  State = Driver heuristic.State

  unfoldable pub write_if : String → Generator State
  unfolding write_text
  write_if t = if is_null t then skip else on_sse (write_text t)

  unfoldable pub write_tools : List ToolUse → Generator State
  unfolding iter_heuristic_tool_use
  write_tools = for_each (λ call. on_sse (iter_heuristic_tool_use json call))

  -- What the heuristic parser found.
  unfoldable pub write_found :
      Exception ⊎ (String × List ToolUse × heuristic.State) → Generator State
  unfolding write_if write_tools ◌>>◌
  write_found (inl x) s = raise x s
  write_found (inr (filtered, detected, h)) s =
      (write_if filtered >> write_tools detected) (record s { heuristic_parser = h })

  -- A part of the text, by its type.
  unfoldable pub write_part : ContentChunk → Generator State
  unfolding write_found
  write_part part s = elim part.type [
    | ContentType.thinking ↦
        if thinking_enabled then on_sse (write_thinking part.content) s else skip s
    | ContentType.text ↦ write_found (heuristic.feed part.content s.heuristic_parser) s
  ]

  unfoldable pub parts_of : Option (List ContentChunk × ThinkTagParser) → Generator State
  unfolding write_part ◌>>◌
  parts_of none s = skip s
  parts_of (some (parts, p)) s = for_each write_part parts (record s { think_parser = p })

  unfoldable pub write_content : String → Generator State
  unfolding parts_of feed
  write_content content s =
      if is_null content then skip s else parts_of (feed s.think_parser content) s

  unfoldable pub write_reasoning : String → Generator State
  unfolding write_thinking
  write_reasoning reasoning =
      if thinking_enabled && not (is_null reasoning)
      then on_sse (write_thinking reasoning)
      else skip

  -- `if choice.finish_reason`
  abbrev pub note_finish : Option String → State → State
  note_finish none s = s
  note_finish (some reason) s =
      if is_null reason then s else record s { finish_reason = some reason }

  abbrev pub note_usage : Option (Option ℕ) → State → State
  note_usage none s = s
  note_usage (some usage) s = record s { usage_info = some usage }

  -- What `has_content_blocks` and the test after it look for.
  abbrev pub has_content_blocks : State → Bool
  has_content_blocks s =
      not (s.sse.blocks.text_index == minus_one)
      || not (s.sse.blocks.thinking_index == minus_one)
      || any_started (tools_of s)

  abbrev pub needs_text : State → Bool
  needs_text s =
      not (any_started (tools_of s))
      && is_blank (join s.sse.accumulated_text)
      && not (is_blank (join s.sse.accumulated_reasoning))

  unfoldable pub fill_in : Generator State
  unfolding write_text
  fill_in s =
      if not (has_content_blocks s) || needs_text s then on_sse (write_text " ") s else skip s

  unfoldable pub write_rest : Option ContentChunk → Generator State
  unfolding write_text write_thinking
  write_rest none = skip
  write_rest (some part) = elim part.type [
    | ContentType.thinking ↦ if thinking_enabled then on_sse (write_thinking part.content) else skip
    | ContentType.text ↦ on_sse (write_text part.content)
  ]

  unfoldable pub flush_parser : Generator State
  unfolding write_rest flush
  flush_parser s =
      let (rest, p) = flush s.think_parser in write_rest rest (record s { think_parser = p })

  unfoldable pub flush_heuristic : Generator State
  unfolding write_tools
  flush_heuristic s = write_tools (heuristic.flush s.heuristic_parser) s

  -- The handler of the `try`.
  unfoldable pub report_error : String → Generator State
  unfolding write_failure ◌>>◌
  report_error message =
      on_sse close_all_blocks
      >> (on_sse (write_failure message)
          >> on_sse (emit_message_delta "end_turn" 1 >> emit_message_stop))

  module _ (aliases : Dict String (Dict String String)) where
    -- `tc.function.name` of a function that is None
    unfoldable pub write_tool_call : ToolCallDelta → Generator State
    unfolding process_tool_call
    write_tool_call tc s = elim tc.function [
      | none ↦ raise attribute_error s
      | some f ↦
          process_tool_call json aliases
            (record {
              index = tc.index;
              id = tc.id;
              name = f.name;
              arguments = f.arguments;
              uuid = tc.uuid;
            })
            s
    ]

    unfoldable pub write_tool_calls : List ToolCallDelta → Generator State
    unfolding write_tool_call ◌>>◌
    write_tool_calls tcs =
        if is_empty tcs then skip else (on_sse close_content_blocks >> for_each write_tool_call tcs)

    unfoldable pub write_delta : ChunkDelta → Generator State
    unfolding write_reasoning write_content write_tool_calls ◌>>◌
    write_delta delta =
        write_reasoning (or_empty delta.reasoning_content)
        >> write_content (or_empty delta.content)
        >> write_tool_calls delta.tool_calls

    unfoldable pub write_choice : Option Choice → Generator State
    unfolding write_delta
    write_choice none s = skip s
    write_choice (some choice) s = elim choice.delta [
      | none ↦ skip s
      | some delta ↦ write_delta delta (note_finish choice.finish_reason s)
    ]

    unfoldable pub write_chunk : Chunk → Generator State
    unfolding write_choice
    write_chunk chunk s = write_choice chunk.choice (note_usage chunk.usage s)

    -- The body of the `try`; it may end by the provider's exception.
    unfoldable pub read_stream : List Chunk → Option String → Generator State
    unfolding write_chunk ◌>>◌
    read_stream chunks none = for_each write_chunk chunks
    read_stream chunks (some message) = for_each write_chunk chunks >> raise upstream

    module _ (encoder : Encoder) where
      -- `none`: the encoder raised a `ValueError`.
      abbrev pub output_tokens : State → Option ℕ
      output_tokens s = elim s.usage_info [
        | some (some n) ↦ some n
        | some none ↦ estimate_output_tokens encoder s.sse
        | none ↦ estimate_output_tokens encoder s.sse
      ]

      unfoldable pub end_message : Generator State
      unfolding ◌>>◌
      end_message s = elim (output_tokens s) [
        | none ↦ raise value_error s
        | some n ↦
            on_sse (emit_message_delta (map_stop_reason s.finish_reason) n >> emit_message_stop) s
      ]

      -- From the end of the stream on.
      unfoldable pub finish : Generator State
      unfolding flush_parser flush_heuristic fill_in end_message ◌>>◌
      finish =
          flush_parser
          >> (flush_heuristic
              >> (fill_in
                  >> (flush_tool_argument_alias_buffers json aliases
                      >> (flush_task_args json >> (on_sse close_all_blocks >> end_message)))))

  -- `m`, and then `after`; if `m` raises an exception, `handler` on the state that it leaves.
  unfoldable pub try_or :
      Generator State → (Exception → Generator State) → Generator State → Generator State
  try_or m handler after s =
      let r = m s in
      elim r.exit [
        | done ↦ resume done r.events r.state after
        | raised x ↦ resume done r.events r.state (handler x)
      ]

  -- The text that the user sees: the provider's `failure`, or `internal` for another exception.
  abbrev pub error_text : Option String → String → Exception → String
  error_text (some message) internal upstream = message
  error_text _ internal _ = internal

  module _ (encoder : Encoder) (internal : String) where
    abbrev pub new_driver : String → String → ℕ → State
    new_driver message_id model input_tokens = record {
      sse = new_builder message_id model input_tokens;
      think_parser = new_parser;
      heuristic_parser = heuristic.new;
      finish_reason = none;
      usage_info = none;
      alias_buffers = [];
    }

    unfoldable pub stream_body : Upstream → Generator State
    unfolding try_or read_stream finish report_error
    stream_body u =
        try_or (read_stream u.aliases u.chunks u.failure)
          (λ x. report_error (error_text u.failure internal x)) (finish u.aliases encoder)

    unfoldable pub stream_response : String → String → ℕ → Upstream → Run State
    unfolding stream_body ◌>>◌
    stream_response message_id model input_tokens u =
        (on_sse emit_message_start >> stream_body u) (new_driver message_id model input_tokens)
