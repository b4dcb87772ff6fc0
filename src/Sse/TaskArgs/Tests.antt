-- ===== src/Sse/TaskArgs/Tests.antt =====
-- Runs of the Task argument buffer.
use Prim.Native.String.{◌++◌}
use vega_claude.Prelude.{
  ◌≡◌, refl, some, true, false, [], ◌∷◌, map, if◌then◌else◌, ◌==◌, string_eq, get, nat_eq,
}
use vega_claude.Prelude.Int.{minus_one}
use vega_claude.Json.{Json, Value, loaded, malformed, value_of, object, end, field, boolean}
use vega_claude.Sse.Generator.{done}
use vega_claude.Sse.Blocks.{ToolCallState, ContentBlockManager, new_blocks}
use vega_claude.Sse.TaskArgs.{
  normalize_task_run_in_background, buffer_task_args, flush_task_arg_buffers,
}
use vega_claude.Sse.TaskArgs.Once.{buffer_task_args-once, in_foreground, Finished}
use vega_claude.Sse.TaskArgs.Flush.{flush-Emitted, waiting}

abbrev one_field : Json
one_field = record {
  loads = λ s. if s == "{}" then loaded (object end) else malformed;
  dumps = λ v. some "{}";
  dumps_input = λ v. "{}";
}

abbrev task_waits : ContentBlockManager
task_waits = record new_blocks {
  tool_states =
      (
        4,
        record {
          block_index = minus_one;
          tool_id = "";
          name = "Task";
          contents = [];
          started = false;
          task_arg_buffer = "{";
          task_args_emitted = false;
          pre_start_args = "";
        },
      )
      ∷ [];
}

abbrev foreground : Value
foreground = object (field "run_in_background" (boolean false) end)

buffer_task_args-once_example :
    (in_foreground foreground ≡ true)
    × (state : ToolCallState) × (get 4 task_waits.tool_states ≡ some state)
    × ((v : Value) × (value_of (one_field.loads (state.task_arg_buffer ++ "}")) ≡ some v)
        × (normalize_task_run_in_background v ≡ some foreground))
    × Finished one_field 4 (buffer_task_args one_field 4 "}" task_waits).blocks
unfolding buffer_task_args
buffer_task_args-once_example = buffer_task_args-once one_field 4 "}" task_waits foreground refl

flush-Emitted_example :
    let f = flush_task_arg_buffers one_field task_waits in
    (f.exit ≡ done)
    × (map (λ p. p.0) f.results ≡ waiting task_waits.tool_states)
    × (map (λ p. p.0) f.states ≡ map (λ p. p.0) task_waits.tool_states)
    × (waiting f.states ≡ [])
    × (flush_task_arg_buffers one_field (record task_waits { tool_states = f.states })
        ≡ record { exit = done; results = []; states = f.states })
unfolding flush_task_arg_buffers
flush-Emitted_example = flush-Emitted one_field task_waits ((λ e. refl), tt)
