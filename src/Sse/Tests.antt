-- ===== src/Sse/Tests.antt =====
-- Runs of the builder, the contract and the tracker.
use vega_claude.Prelude.{
  ◌≡◌, refl, some, true, false, List, [], ◌∷◌, ◌++◌, arith, string_eq, nat_eq,
}
use vega_claude.Prelude.Int.{pos}
use vega_claude.Sse.Event.{
  Event, text, text_delta, message_start, content_block_start, content_block_delta,
}
use vega_claude.Sse.Generator.{done, ◌>>◌, Run}
use vega_claude.Sse.Builder.{
  SseBuilder, new_builder, ensure_text_block, emit_text_delta, start_tool_block, close_all_blocks,
}
use vega_claude.Sse.Contract.{
  Checker, Kind, fresh_checker, ok, check_events, check_event, assert_stream_contract,
}
use vega_claude.Sse.Message.{Call, Calls, message, message_contract}
use vega_claude.Sse.Tracker.{Tracker, new_tracker, observe_all, broken_stream_tail}
use vega_claude.Sse.Tracker.Tail.{midstream_tail_contract}

abbrev builder : SseBuilder
builder = new_builder "msg_1" "model" 3

abbrev wrote : Run SseBuilder
wrote = (ensure_text_block >> emit_text_delta "hello") builder

abbrev started : Run SseBuilder
started = start_tool_block 0 "toolu_1" "Read" wrote.state

abbrev hello_then_read : Calls builder (wrote.events ++ (started.events ++ [])) started.state
unfolding new_builder ensure_text_block emit_text_delta
hello_then_read =
    Calls.next (ensure_text_block >> emit_text_delta "hello") (Call.write_text "hello") (
      Calls.next (start_tool_block 0 "toolu_1" "Read") (Call.start_tool 0 "toolu_1" "Read" refl)
        (Calls.here started.state))

message_contract_example :
    (assert_stream_contract false
        (message builder (wrote.events ++ (started.events ++ [])) started.state "tool_use" 7)
      ≡ ok tt)
    × ((close_all_blocks started.state).exit ≡ done)
unfolding start_tool_block
message_contract_example =
    message_contract false "msg_1" "model" 3 started.state (wrote.events ++ (started.events ++ []))
      "tool_use" 7 hello_then_read (omega arith)

-- A text block, still open.
abbrev broken_off : List Event
broken_off =
    message_start "msg_1" "model" 3
    ∷ content_block_start (some (pos 0)) (some (text ""))
    ∷ content_block_delta (some (pos 0)) (some (text_delta "hel"))
    ∷ []

abbrev text_open : Checker
text_open = record fresh_checker { open_blocks = (pos 0, Kind.text) ∷ []; seen_blocks = pos 0 ∷ [] }

midstream_tail_contract_example :
    (t : Tracker) × (observe_all new_tracker broken_off ≡ some t)
    × (assert_stream_contract true
          (broken_off ++ broken_stream_tail t "timed out" "msg_x" "model" 3)
        ≡ ok tt)
unfolding check_events check_event
midstream_tail_contract_example =
    midstream_tail_contract true broken_off text_open "timed out" "msg_x" "model" 3 refl refl
