-- ===== src/Sse/Message.antt =====
-- A whole message, as a caller of `SSEBuilder` writes it: `message_start`, any calls that respect
-- the methods' preconditions, `close_all_blocks`, `message_delta` and `message_stop`.
use vega_claude.Prelude.{
  ℕ, ◌<◌, ◌≡◌, refl, String, none, some, Bool, true, false, List, [], ◌∷◌, ◌++◌, get, nat_eq,
  is_empty,
}
use vega_claude.Prelude.Int.{int_eq}
use vega_claude.Sse.Event.{Event}
use vega_claude.Sse.Generator.{done, Generator, ◌>>◌}
use vega_claude.Sse.Blocks.{ToolCallState}
use vega_claude.Sse.Builder.{
  SseBuilder, new_builder, emit_message_start, emit_message_delta, emit_message_stop,
  ensure_text_block, ensure_thinking_block, emit_text_delta, emit_thinking_delta, start_tool_block,
  emit_tool_delta, close_content_blocks, close_all_blocks, emit_error,
}
use vega_claude.Sse.Contract.{
  Checker, fresh_checker, ok, check_events, check_event, ends_with_stop, assert_stream_contract,
}
use vega_claude.Sse.Sync.{Sync, fresh-Sync}
use vega_claude.Sse.Sync.Ran.{Ran, Done, Ran-then, check_events-append, contract_of_check}
use vega_claude.Sse.Sync.Steps.{text_delta-Ran, thinking_delta-Ran, start_tool-Ran}
use vega_claude.Sse.Sync.Tools.{slot}
use vega_claude.Sse.Sync.Whole.{emit_error-Ran}
use vega_claude.Sse.Sync.Compound.{
  ensure_text-Ran, ensure_thinking-Ran, close_content-Ran, tool_delta-Ran, text_started-ensure_text,
  thinking_started-ensure_thinking,
}
use vega_claude.Sse.Sync.Close.{close_all-AllClosed}

-- One call: text and thinking come with their `ensure_*`; a tool is started once, and receives
-- arguments only while it is started.
pub data Call (s : SseBuilder) : Generator SseBuilder → Type 0 where
  write_text : (t : String) → Call s (ensure_text_block >> emit_text_delta t)
  write_thinking : (t : String) → Call s (ensure_thinking_block >> emit_thinking_delta t)
  close_content : Call s close_content_blocks
  start_tool :
      (i : ℕ) (tool_id name : String)
      → slot (get i s.blocks.tool_states) ≡ none
      → Call s (start_tool_block i tool_id name)
  write_tool :
      (i : ℕ) (t : String) (state : ToolCallState)
      → get i s.blocks.tool_states ≡ some state
      → state.started ≡ true
      → Call s (emit_tool_delta i t)
  write_error : (message : String) → Call s (emit_error message)

-- The calls from one state to another, with all that they yield.
pub data Calls : SseBuilder → List Event → SseBuilder → Type 0 where
  here : (s : SseBuilder) → Calls s [] s
  next :
      {s t : SseBuilder} {es : List Event} (m : Generator SseBuilder)
      → Call s m
      → Calls (m s).state es t
      → Calls s ((m s).events ++ es) t

Call-Ran :
    {allow : Bool} (s : SseBuilder) (c : Checker) (m : Generator SseBuilder)
    → Sync s.blocks c
    → Call s m
    → Ran allow Done c (m s)
Call-Ran s c m sync (write_text t) =
    Ran-then ensure_text_block (emit_text_delta t) s c (ensure_text-Ran s c sync)
      (λ c' _ h. text_delta-Ran (ensure_text_block s).state c' h t (text_started-ensure_text s))
Call-Ran s c m sync (write_thinking t) =
    Ran-then ensure_thinking_block (emit_thinking_delta t) s c (ensure_thinking-Ran s c sync)
      (λ c' _ h.
        thinking_delta-Ran (ensure_thinking_block s).state c' h t
          (thinking_started-ensure_thinking s))
Call-Ran s c m sync close_content = close_content-Ran s c sync
Call-Ran s c m sync (start_tool i tool_id name h) = start_tool-Ran s c sync i tool_id name h
Call-Ran s c m sync (write_tool i t state e h) = tool_delta-Ran i t state s c sync e h
Call-Ran {allow} s c m sync (write_error message) = emit_error-Ran allow message s c sync

record Reached (allow : Bool) (c : Checker) (es : List Event) (t : SseBuilder) : Type 0 where
  checker : Checker
  accepted : check_events allow c es ≡ ok checker
  sync : Sync t.blocks checker

Calls-Reached :
    {allow : Bool} {s t : SseBuilder} {es : List Event} (c : Checker)
    → Sync s.blocks c
    → Calls s es t
    → Reached allow c es t
unfolding check_events
Calls-Reached c sync (here s) = record { checker = c; accepted = refl; sync = sync }
Calls-Reached {allow} c sync (next {s} {t} {es} m call rest) =
    let r = Call-Ran {allow = allow} s c m sync call in
    let q = Calls-Reached {allow = allow} r.checker r.sync rest in
    record {
      checker = q.checker;
      accepted = rw (check_events-append allow c (m s).events es) (rw r.accepted q.accepted);
      sync = q.sync;
    }

tail_events : SseBuilder → String → ℕ → List Event
tail_events t stop_reason output_tokens =
    (emit_message_delta stop_reason output_tokens t).events ++ (emit_message_stop t).events

-- The message that a caller leaves: the state after the calls is `t`.
unfoldable pub message : SseBuilder → List Event → SseBuilder → String → ℕ → List Event
unfolding tail_events
message s es t stop_reason output_tokens =
    (emit_message_start s).events
    ++ (es ++ ((close_all_blocks t).events ++ tail_events t stop_reason output_tokens))

pub ends_with_stop-append :
    (xs ys : List Event)
    → is_empty ys ≡ false
    → ends_with_stop ys ≡ true
    → ends_with_stop (xs ++ ys) ≡ true
ends_with_stop-append [] ys ne h = h
ends_with_stop-append (x ∷ []) [] ne h = cc
ends_with_stop-append (x ∷ []) (y ∷ ys) ne h = h
ends_with_stop-append (x ∷ x' ∷ xs) ys ne h = ends_with_stop-append (x' ∷ xs) ys ne h

pub is_empty-append : (xs ys : List Event) → is_empty ys ≡ false → is_empty (xs ++ ys) ≡ false
is_empty-append [] ys h = h
is_empty-append (x ∷ xs) ys h = refl

module _ (allow : Bool) (s t : SseBuilder) (stop_reason : String) (output_tokens : ℕ) where
  check_tail : (c : Checker) → check_events allow c (tail_events t stop_reason output_tokens) ≡ ok c
  unfolding check_events check_event emit_message_delta emit_message_stop tail_events
  check_tail c = refl

  ends_with_stop-message :
      (es : List Event) → ends_with_stop (message s es t stop_reason output_tokens) ≡ true
  unfolding message emit_message_delta emit_message_stop emit_message_start
  ends_with_stop-message es =
      ends_with_stop-append ((emit_message_start s).events ++ es)
        ((close_all_blocks t).events ++ tail_events t stop_reason output_tokens)
        (is_empty-append (close_all_blocks t).events _ refl)
        (ends_with_stop-append (close_all_blocks t).events _ refl refl)

  -- The loop accepts the message, up to the checker's state at its end.
  check_message :
      (es : List Event) (c c' : Checker)
      → check_events allow fresh_checker es ≡ ok c
      → check_events allow c (close_all_blocks t).events ≡ ok c'
      → check_events allow fresh_checker (message s es t stop_reason output_tokens) ≡ ok c'
  unfolding message emit_message_start check_events check_event
  check_message es c c' h h' = rw (check_events-append allow fresh_checker es _) (
      rw h (rw (check_events-append allow c (close_all_blocks t).events _) (rw h' (check_tail c'))))

-- After `message_start`, any sequence of the calls of `Call`: a text or thinking delta behind its
-- ensure call, closing the content blocks, starting a tool block that is not started, a delta of a
-- tool block that is started, and `emit_error`. If one of them took a block index, then with the
-- blocks closed and the last two events the whole message meets the stream contract, with error
-- events allowed or not, and closing the blocks raises no exception.
pub message_contract :
    (allow : Bool) (message_id model : String) (input_tokens : ℕ) (t : SseBuilder) (es : List Event)
    (stop_reason : String) (output_tokens : ℕ)
    → Calls (new_builder message_id model input_tokens) es t
    → 0 < t.blocks.next_index
    → (assert_stream_contract allow
          (message (new_builder message_id model input_tokens) es t stop_reason output_tokens)
        ≡ ok tt)
      × ((close_all_blocks t).exit ≡ done)
unfolding new_builder message emit_message_start
message_contract allow message_id model input_tokens t es stop_reason output_tokens calls taken =
    let s : SseBuilder = new_builder message_id model input_tokens in
    let r = Calls-Reached {allow = allow} fresh_checker fresh-Sync calls in
    let q = close_all-AllClosed {allow = allow} t r.checker r.sync in
    (
      contract_of_check allow (message s es t stop_reason output_tokens) q.checker refl refl
          (ends_with_stop-message allow s t stop_reason output_tokens es)
          (check_message allow s t stop_reason output_tokens es r.checker q.checker r.accepted
            q.accepted)
          q.empty (q.seen taken),
      q.ends,
    )
