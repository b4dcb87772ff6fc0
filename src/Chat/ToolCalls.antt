-- ===== src/Chat/ToolCalls.antt =====
-- Native tool calls: `_emit_tool_arg_delta`, `_process_tool_call` and the flushes of
-- free-claude-code/providers/openai_compat.py. The driver always gives the alias buffers.
use Prim.Native.String.{◌++◌}
use vega_claude.Prelude.{
  ℕ, String, Option, none, some, Bool, false, not, ◌&&◌, ◌||◌, List, [], ◌∷◌, Dict, get, put,
  remove, length, is_empty, nat_eq, string_eq, ◌==◌, if◌then◌else◌,
}
use vega_claude.Prelude.Int.{ℤ, pos, negsuc}
use vega_claude.Prelude.Text.{is_null, strip}
use vega_claude.Json.{Value, Json}
use vega_claude.Sse.Generator.{Generator, ◌>>◌, recursion_error, resume, skip, raise}
use vega_claude.Sse.Blocks.{
  ToolCallState, ContentBlockManager, put_tool, set_stream_tool_id, register_tool_name,
  ensure_tool_state,
}
use vega_claude.Sse.TaskArgs.{buffer_task_args, flush_task_arg_buffers}
use vega_claude.Sse.Builder.{start_tool_block, emit_tool_delta}
use vega_claude.Chat.Aliases.{Restored, restoring, not_json, fails, restore_aliased_tool_arguments}
use vega_claude.Chat.State.{Driver, ToolCallPart, on_sse}

abbrev pub or_empty : Option String → String
or_empty none = ""
or_empty (some t) = t

-- `tool_argument_aliases.get(name, {})`
abbrev pub or_no_aliases : Option (Dict String String) → Dict String String
or_no_aliases none = []
or_no_aliases (some aliases) = aliases

-- `if tc.get("id") is not None`, and the same for the name.
abbrev pub note_id : ℕ → Option String → ContentBlockManager → ContentBlockManager
note_id index none b = b
note_id index (some tool_id) b = set_stream_tool_id index tool_id b

abbrev pub note_name : ℕ → Option String → ContentBlockManager → ContentBlockManager
note_name index none b = b
note_name index (some name) b = register_tool_name index name b

abbrev pub name_in : Option ToolCallState → String
name_in none = ""
name_in (some state) = state.name

abbrev pub id_in : Option ToolCallState → String
id_in none = ""
id_in (some state) = state.tool_id

abbrev pub started_in : Option ToolCallState → Bool
started_in none = false
started_in (some state) = state.started

abbrev pub pre_start_in : Option ToolCallState → String
pre_start_in none = ""
pre_start_in (some state) = state.pre_start_args

-- The text, unless it is empty.
abbrev pub or_text : String → String → String
or_text t other = if is_null t then other else t

abbrev pub clear_pre_start : ℕ → Option ToolCallState → ContentBlockManager → ContentBlockManager
clear_pre_start index none b = b
clear_pre_start index (some state) b = put_tool index (record state { pre_start_args = "" }) b

-- `state = sse.blocks.ensure_tool_state(tc_index); state.pre_start_args += arguments`
abbrev pub hold_back : ℕ → String → ContentBlockManager → ContentBlockManager
hold_back index arguments b =
    let (state, b') = ensure_tool_state index b in
    put_tool index (record state { pre_start_args = state.pre_start_args ++ arguments }) b'

module _ {H : Type 0} where
  abbrev pub tools_of : Driver H → Dict ℕ ToolCallState
  tools_of s = s.sse.blocks.tool_states

  abbrev pub set_blocks : ContentBlockManager → Driver H → Driver H
  set_blocks b s = record s { sse = record (s.sse) { blocks = b } }

  -- A change of the blocks that yields nothing.
  abbrev pub on_blocks : (ContentBlockManager → ContentBlockManager) → Generator (Driver H)
  on_blocks f s = skip (set_blocks (f s.sse.blocks) s)

  abbrev pub set_alias_buffer : ℕ → String → Driver H → Driver H
  set_alias_buffer index buffered s = record s {
    alias_buffers = put index buffered s.alias_buffers;
  }

  abbrev pub drop_alias_buffer : ℕ → Driver H → Driver H
  drop_alias_buffer index s = record s { alias_buffers = remove index s.alias_buffers }

  -- The index of the part: a negative one stands for a new call.
  abbrev pub call_index : ℤ → Driver H → ℕ
  call_index (pos i) s = i
  call_index (negsuc i) s = length (tools_of s)

module _ {H : Type 0} (json : Json) where
  -- `if parsed is not None: yield sse.emit_tool_delta(...)`
  unfoldable pub send_parsed : ℕ → Option Value → Generator (Driver H)
  send_parsed index none = skip
  send_parsed index (some v) = elim (json.dumps v) [
    | none ↦ raise recursion_error
    | some t ↦ on_sse (emit_tool_delta index t)
  ]

  unfoldable pub task_delta : ℕ → String → Generator (Driver H)
  unfolding send_parsed
  task_delta index args s =
      let r = buffer_task_args json index args s.sse.blocks in
      resume r.exit [] (set_blocks r.blocks s) (send_parsed index r.args)

  unfoldable pub send_restored : ℕ → String → Restored → Generator (Driver H)
  send_restored index buffered (fails x) s = raise x s
  send_restored index buffered not_json s = skip (set_alias_buffer index buffered s)
  send_restored index buffered (restoring restored) s =
      on_sse (emit_tool_delta index restored) (drop_alias_buffer index s)

  unfoldable pub aliased_delta : Dict String String → ℕ → String → Generator (Driver H)
  unfolding send_restored
  aliased_delta aliases index args s =
      let buffered = or_empty (get index s.alias_buffers) ++ args in
      send_restored index buffered (restore_aliased_tool_arguments json aliases buffered) s

  module _ (all_aliases : Dict String (Dict String String)) where
    unfoldable pub delta_in : ℕ → String → Option ToolCallState → Generator (Driver H)
    unfolding task_delta aliased_delta
    delta_in index args none = skip
    delta_in index args (some state) =
        let aliases = or_no_aliases (get state.name all_aliases) in
        if state.name == "Task"
        then task_delta index args
        else if is_empty aliases
        then on_sse (emit_tool_delta index args)
        else aliased_delta aliases index args

    unfoldable pub emit_tool_arg_delta : ℕ → String → Generator (Driver H)
    unfolding delta_in
    emit_tool_arg_delta index args s =
        if is_null args then skip s else delta_in index args (get index (tools_of s)) s

    -- What was held back before the start is sent.
    unfoldable pub send_pre_start : ℕ → Generator (Driver H)
    unfolding emit_tool_arg_delta
    send_pre_start index s =
        let state = get index (tools_of s) in
        let pre = pre_start_in state in
        if is_null pre
        then skip s
        else emit_tool_arg_delta index pre (set_blocks (clear_pre_start index state s.sse.blocks) s)

    -- The block is started, if it is not and has a name.
    unfoldable pub start_call : ℕ → String → String → Generator (Driver H)
    unfolding send_pre_start ◌>>◌
    start_call index tool_id name s =
        if started_in (get index (tools_of s)) || is_null (strip name)
        then skip s
        else (on_sse (start_tool_block index tool_id (strip name)) >> send_pre_start index) s

    -- The text after the start: `name` is the name resolved before it.
    unfoldable pub send_arguments : ℕ → String → String → Generator (Driver H)
    unfolding emit_tool_arg_delta
    send_arguments index name arguments s =
        let started = started_in (get index (tools_of s)) in
        if is_null arguments
        then skip s
        else if not started && is_null (strip name)
        then on_blocks (hold_back index arguments) s
        else if started
        then emit_tool_arg_delta index arguments s
        else emit_tool_arg_delta index arguments
            (set_blocks (ensure_tool_state index s.sse.blocks).1 s)

    unfoldable pub process_tool_call : ToolCallPart → Generator (Driver H)
    unfolding start_call send_arguments ◌>>◌
    process_tool_call tc s =
        let index = call_index tc.index s in
        let b = note_name index tc.name (note_id index tc.id s.sse.blocks) in
        let state = get index b.tool_states in
        let tool_id = or_text (or_text (id_in state) (or_empty tc.id)) tc.uuid in
        let name = name_in state in
        (start_call index tool_id name >> send_arguments index name (or_empty tc.arguments))
          (set_blocks b s)

    -- `restored if restored is not None else buffered_args`, which is sent before the buffer is dropped.
    unfoldable pub flush_restored : ℕ → String → Restored → Generator (Driver H)
    unfolding ◌>>◌
    flush_restored index buffered (fails x) = raise x
    flush_restored index buffered not_json =
        on_sse (emit_tool_delta index buffered) >> (λ s. skip (drop_alias_buffer index s))
    flush_restored index buffered (restoring restored) =
        on_sse (emit_tool_delta index restored) >> (λ s. skip (drop_alias_buffer index s))

    -- The loop over a snapshot of the alias buffers.
    unfoldable pub flush_alias_in : ℕ → String → Option ToolCallState → Generator (Driver H)
    unfolding flush_restored
    flush_alias_in index buffered none s = skip s
    flush_alias_in index buffered (some state) s =
        let aliases = or_no_aliases (get state.name all_aliases) in
        if state.name == "Task" || is_empty aliases
        then skip s
        else flush_restored index buffered (restore_aliased_tool_arguments json aliases buffered) s

    unfoldable pub flush_aliases : Dict ℕ String → Generator (Driver H)
    unfolding flush_alias_in ◌>>◌
    flush_aliases [] = skip
    flush_aliases ((index, buffered) ∷ d) =
        (λ s.
          if is_null buffered
          then skip (drop_alias_buffer index s)
          else flush_alias_in index buffered (get index (tools_of s)) s)
        >> flush_aliases d

    unfoldable pub flush_tool_argument_alias_buffers : Generator (Driver H)
    unfolding flush_aliases
    flush_tool_argument_alias_buffers s = flush_aliases s.alias_buffers s

  unfoldable pub send_flushed : List (ℕ × String) → Generator (Driver H)
  unfolding ◌>>◌
  send_flushed [] = skip
  send_flushed ((index, out) ∷ rest) = on_sse (emit_tool_delta index out) >> send_flushed rest

  -- `flush_task_arg_buffers` of the driver: the results are sent when all are there.
  unfoldable pub flush_task_args : Generator (Driver H)
  unfolding send_flushed
  flush_task_args s =
      let f = flush_task_arg_buffers json s.sse.blocks in
      resume f.exit [] (set_blocks (record (s.sse.blocks) { tool_states = f.states }) s)
        (send_flushed f.results)
