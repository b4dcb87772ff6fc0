-- ===== src/Sse/Blocks.antt =====
-- `ToolCallState`, `ContentBlockManager` and the rule for Task arguments of
-- free-claude-code/core/anthropic/sse.py.
use Prim.Native.String.{◌++◌}
use text.Mathlib.Text.{starts_with}
use vega_claude.Prelude.{
  ℕ, ◌+◌, String, Option, none, some, Bool, false, not, ◌||◌, List, [], ◌∷◌, Dict, get, has, put,
  nat_eq, if◌then◌else◌,
}
use vega_claude.Prelude.Int.{ℤ, pos, minus_one}
use vega_claude.Prelude.Text.{is_null}

pub record ToolCallState : Type 0 where
  pub block_index : ℤ
  pub tool_id : String
  pub name : String
  pub contents : List String
  pub started : Bool
  pub task_arg_buffer : String
  pub task_args_emitted : Bool
  pub pre_start_args : String

pub record ContentBlockManager : Type 0 where
  pub next_index : ℕ
  pub thinking_index : ℤ
  pub text_index : ℤ
  pub thinking_started : Bool
  pub text_started : Bool
  pub tool_states : Dict ℕ ToolCallState

-- ToolCallState(block_index, tool_id, name, started)
abbrev pub new_tool_state : ℤ → String → String → Bool → ToolCallState
new_tool_state block_index tool_id name started = record {
  block_index = block_index;
  tool_id = tool_id;
  name = name;
  contents = [];
  started = started;
  task_arg_buffer = "";
  task_args_emitted = false;
  pre_start_args = "";
}

abbrev pub new_blocks : ContentBlockManager
new_blocks = record {
  next_index = 0;
  thinking_index = minus_one;
  text_index = minus_one;
  thinking_started = false;
  text_started = false;
  tool_states = [];
}

-- The index, and the manager after it is taken.
unfoldable pub allocate_index : ContentBlockManager → ℤ × ContentBlockManager
allocate_index b = (pos b.next_index, record b { next_index = b.next_index + 1 })

abbrev pub put_tool : ℕ → ToolCallState → ContentBlockManager → ContentBlockManager
put_tool index state b = record b { tool_states = put index state b.tool_states }

abbrev pub or_fresh : Option ToolCallState → ToolCallState
or_fresh none = new_tool_state minus_one "" "" false
or_fresh (some state) = state

-- The state that stands under `index` afterwards, and the manager.
unfoldable pub ensure_tool_state : ℕ → ContentBlockManager → ToolCallState × ContentBlockManager
ensure_tool_state index b =
    let state = or_fresh (get index b.tool_states) in
    (state, if has index b.tool_states then b else put_tool index state b)

unfoldable pub set_stream_tool_id : ℕ → String → ContentBlockManager → ContentBlockManager
unfolding ensure_tool_state
set_stream_tool_id index tool_id b =
    if is_null tool_id
    then b
    else (let (state, b') = ensure_tool_state index b in
        put_tool index (record state { tool_id = tool_id }) b')

merge_name : String → String → String
merge_name prev name =
    if is_null prev || starts_with name prev
    then name
    else if not (starts_with prev name)
    then prev ++ name
    else prev

unfoldable pub register_in :
    ℕ → String → Option ToolCallState → ContentBlockManager → ContentBlockManager
unfolding merge_name
register_in index name none b = put_tool index (new_tool_state minus_one "" name false) b
register_in index name (some state) b =
    put_tool index (record state { name = merge_name state.name name }) b

unfoldable pub register_tool_name : ℕ → String → ContentBlockManager → ContentBlockManager
unfolding register_in
register_tool_name index name b = register_in index name (get index b.tool_states) b

abbrev pub any_started : Dict ℕ ToolCallState → Bool
any_started [] = false
any_started ((i, state) ∷ d) = state.started || any_started d

unfoldable pub has_emitted_tool_block : ContentBlockManager → Bool
has_emitted_tool_block b = any_started b.tool_states
