-- ===== src/Sse/Tracker.antt =====
-- `EmittedNativeSseTracker` of free-claude-code/core/anthropic/emitted_sse_tracker.py, over decoded
-- events: how `feed` cuts the text into frames is not modelled.
pub mod Tracks
pub mod Tail
use vega_claude.Prelude.{
  ℕ, String, Option, none, some, Bool, true, false, List, [], ◌∷◌, ◌++◌, map, contains, ◌==◌,
  if◌then◌else◌,
}
use vega_claude.Prelude.Int.{ℤ, minus_one, int_eq, max_int, next_int, to_nat}
use vega_claude.Prelude.Text.{is_null}
use vega_claude.Sse.Event.{
  Event, message_start, message_delta, message_stop, content_block_start, content_block_delta,
  content_block_stop, error, other,
}
use vega_claude.Sse.Generator.{Run, Generator, ◌>>◌}
use vega_claude.Sse.Builder.{
  SseBuilder, new_builder, stop_event, emit_error, emit_message_delta, emit_message_stop,
}

-- The top of the stack comes first.
pub record Tracker : Type 0 where
  pub open_stack : List ℤ
  pub max_index : ℤ
  pub message_id : Option String
  pub model : String

abbrev pub new_tracker : Tracker
new_tracker = record { open_stack = []; max_index = minus_one; message_id = none; model = "" }

-- `list.remove`: the occurrence nearest to the bottom.
unfoldable pub remove_bottom : ℤ → List ℤ → List ℤ
remove_bottom i [] = []
remove_bottom i (x ∷ xs) =
    let rest = remove_bottom i xs in
    if contains i xs then x ∷ rest else if x == i then xs else x ∷ xs

-- Pops the index if it is on top, and removes it elsewhere if it is there.
unfoldable pub close_index : ℤ → List ℤ → List ℤ
unfolding remove_bottom
close_index i [] = []
close_index i (x ∷ xs) = if x == i then xs else remove_bottom i (x ∷ xs)

-- `none` is the AssertionError of `event_index`.
unfoldable pub observe : Tracker → Event → Option Tracker
unfolding close_index
observe t (message_start mid model input_tokens) = some (record t {
  message_id = if is_null mid then t.message_id else some mid;
  model = if is_null model then t.model else model;
})
observe t (content_block_start none block) = none
observe t (content_block_start (some index) block) =
    some (record t { max_index = max_int t.max_index index; open_stack = index ∷ t.open_stack })
observe t (content_block_stop none) = none
observe t (content_block_stop (some index)) =
    some (record t { open_stack = close_index index t.open_stack })
observe t (content_block_delta _ _) = some t
observe t (message_delta _ _ _) = some t
observe t message_stop = some t
observe t (error _) = some t
observe t (other _) = some t

-- The events of the frames that were fed.
unfoldable pub observe_all : Tracker → List Event → Option Tracker
observe_all t [] = some t
observe_all t (e ∷ es) = elim (observe t e) [ none ↦ none | some t' ↦ observe_all t' es ]

unfoldable pub next_content_index : Tracker → ℤ
next_content_index t = next_int t.max_index

unfoldable pub close_unclosed_blocks : List ℤ → List Event
close_unclosed_blocks [] = []
close_unclosed_blocks (i ∷ stack) = stop_event i ∷ close_unclosed_blocks stack

abbrev or_text : Option String → String → String
or_text none fallback = fallback
or_text (some x) fallback = x

-- The builder that the tail is written with. `fallback_id` stands for the generated message id.
unfoldable pub tail_builder : Tracker → String → String → ℕ → SseBuilder
unfolding next_content_index new_builder
tail_builder t fallback_id request_model input_tokens =
    let s =
      new_builder (or_text t.message_id fallback_id)
        (if is_null t.model then request_model else t.model) input_tokens in
    record s { blocks = record (s.blocks) { next_index = to_nat (next_content_index t) } }

unfoldable pub midstream_error_tail : Tracker → String → String → String → ℕ → List Event
unfolding tail_builder
midstream_error_tail t error_message fallback_id request_model input_tokens =
    let s = tail_builder t fallback_id request_model input_tokens in
    let s' = (emit_error error_message s).state in
    (emit_error error_message s).events
    ++ ((emit_message_delta "end_turn" 1 s').events ++ (emit_message_stop s').events)

-- What a provider yields when a stream that has begun breaks off.
unfoldable pub broken_stream_tail : Tracker → String → String → String → ℕ → List Event
unfolding close_unclosed_blocks midstream_error_tail
broken_stream_tail t error_message fallback_id request_model input_tokens =
    close_unclosed_blocks t.open_stack
    ++ midstream_error_tail t error_message fallback_id request_model input_tokens
