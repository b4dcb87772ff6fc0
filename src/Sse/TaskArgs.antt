-- ===== src/Sse/TaskArgs.antt =====
-- The arguments of a Task tool call, held back until they are complete:
-- free-claude-code/core/anthropic/sse.py
pub mod Flush
pub mod Once
mod Tests
use Prim.Native.String.{◌++◌}
use vega_claude.Prelude.{
  ℕ, String, Option, none, some, Bool, true, false, ◌||◌, List, [], ◌∷◌, Dict, get, nat_eq,
  if◌then◌else◌,
}
use vega_claude.Prelude.Text.{is_null}
use vega_claude.Json.{
  Value, boolean, object, field, end, Fields, Loaded, loaded, malformed, out_of_range, too_deep,
  value_of, Json, get_field, put_field,
}
use vega_claude.Sse.Generator.{Exit, done, raised, Exception, attribute_error, recursion_error}
use vega_claude.Sse.Blocks.{ToolCallState, ContentBlockManager, put_tool}

abbrev pub is_false : Option Value → Bool
is_false (some (boolean false)) = true
is_false _ = false

abbrev pub normalize_fields : Fields → Fields
normalize_fields d =
    if is_false (get_field "run_in_background" d)
    then d
    else put_field "run_in_background" (boolean false) d

-- `none`: a value that is no dict has no `get`, an AttributeError.
unfoldable pub normalize_task_run_in_background : Value → Option Value
normalize_task_run_in_background (object d) = some (object (normalize_fields d))
normalize_task_run_in_background _ = none

-- What a call of `buffer_task_args` ends in.
pub record Buffered : Type 0 where
  pub exit : Exit
  pub args : Option Value
  pub blocks : ContentBlockManager

module _ (json : Json) where
  -- The text of `buffer_task_args` behind `state.task_arg_buffer += args`.
  unfoldable pub after_append :
      ℕ → ToolCallState → ContentBlockManager → Option Value → Option Value → Buffered
  -- `json.loads` raised: `except Exception`
  after_append index state b none _ = record {
    exit = done;
    args = none;
    blocks = put_tool index state b;
  }
  after_append index state b (some v) none = record {
    exit = raised attribute_error;
    args = none;
    blocks = put_tool index state b;
  }
  after_append index state b (some v) (some w) = record {
    exit = done;
    args = some w;
    blocks = put_tool index (record state { task_args_emitted = true; task_arg_buffer = "" }) b;
  }

  abbrev pub normalized : Option Value → Option Value
  normalized none = none
  normalized (some v) = normalize_task_run_in_background v

  unfoldable pub buffer_in : ℕ → String → Option ToolCallState → ContentBlockManager → Buffered
  unfolding after_append normalize_task_run_in_background
  buffer_in index args none b = record { exit = done; args = none; blocks = b }
  buffer_in index args (some state) b =
      let state' = record state { task_arg_buffer = state.task_arg_buffer ++ args } in
      let value = value_of (json.loads state'.task_arg_buffer) in
      if state.task_args_emitted
      then record { exit = done; args = none; blocks = b }
      else after_append index state' b value (normalized value)

  unfoldable pub buffer_task_args : ℕ → String → ContentBlockManager → Buffered
  unfolding buffer_in
  buffer_task_args index args b = buffer_in index args (get index b.tool_states) b

  -- What the loop of `flush_task_arg_buffers` has done so far.
  pub record Flushed : Type 0 where
    pub exit : Exit
    pub results : List (ℕ × String)
    pub states : Dict ℕ ToolCallState

  -- The arguments that are sent, or an exception that is not caught.
  pub data FlushValue : Type 0 where
    sends : String → FlushValue
    raises : Exception → FlushValue

  abbrev pub flush_value : Loaded → FlushValue
  flush_value malformed = sends "{}"
  flush_value out_of_range = sends "{}"
  flush_value too_deep = raises recursion_error
  flush_value (loaded v) = elim (normalize_task_run_in_background v) [
    | none ↦ raises attribute_error
    | some w ↦ elim (json.dumps w) [ none ↦ raises recursion_error | some t ↦ sends t ]
  ]

  unfoldable pub flush_one :
      ℕ → ToolCallState → Dict ℕ ToolCallState → FlushValue → Flushed → Flushed
  flush_one index state d (raises x) rest = record {
    exit = raised x;
    results = [];
    states = (index, state) ∷ d;
  }
  flush_one index state d (sends out) rest = record {
    exit = rest.exit;
    results = (index, out) ∷ rest.results;
    states = (index, record state { task_args_emitted = true; task_arg_buffer = "" }) ∷ rest.states;
  }

  unfoldable pub flush_states : Dict ℕ ToolCallState → Flushed
  unfolding flush_one normalize_task_run_in_background
  flush_states [] = record { exit = done; results = []; states = [] }
  flush_states ((index, state) ∷ d) =
      let rest = flush_states d in
      if is_null state.task_arg_buffer || state.task_args_emitted
      then record {
        exit = rest.exit;
        results = rest.results;
        states = (index, state) ∷ rest.states;
      }
      else flush_one index state d (flush_value (json.loads state.task_arg_buffer)) rest

  unfoldable pub flush_task_arg_buffers : ContentBlockManager → Flushed
  unfolding flush_states
  flush_task_arg_buffers b = flush_states b.tool_states
