-- ===== src/Chat/TaskDeltas.antt =====
-- Task arguments keep the driver good, whether they are complete, wait or raise an exception.
use Prim.Native.String.{◌++◌}
use vega_claude.Prelude.{
  ℕ, ◌≡◌, refl, sym, ap, ◌∙◌, String, Option, none, some, Bool, true, false, Dict, get, nat_eq,
  string_eq, is_empty, ◌==◌, if◌then◌else◌, arith, [],
}
use vega_claude.Prelude.Text.{is_null}
use vega_claude.Json.{Json, Value, value_of}
use vega_claude.Sse.Generator.{Exit, done, raised, recursion_error, Generator, raise}
use vega_claude.Sse.Builder.{emit_tool_delta}
use vega_claude.Sse.Blocks.{ToolCallState, put_tool}
use vega_claude.Sse.TaskArgs.{
  buffer_task_args, buffer_in, after_append, normalized, normalize_task_run_in_background,
}
use vega_claude.Sse.Contract.{Checker, check_events}
use vega_claude.Sse.Sync.{Sync-same}
use vega_claude.Sse.Sync.Tools.{slot}
use vega_claude.Chat.State.{Driver, on_sse}
use vega_claude.Chat.ToolCalls.{
  tools_of, set_blocks, started_in, task_delta, send_parsed, delta_in, emit_tool_arg_delta,
  or_no_aliases,
}
use vega_claude.Chat.Kept.{
  TaskWaits, In, Kept, Kept-quiet, Kept-skip, Kept-resume, Kept-if, Kept-choose,
}
use vega_claude.Chat.Quiet.{Tasks-put, Same-put}
use vega_claude.Chat.ToolDeltas.{delta-Kept, aliased-Kept}

-- Any end is allowed.
abbrev pub Any : Exit → Type 0
Any x = Unit

module _ {json : Json} {H : Type 0} {allow : Bool} where
  -- Blocks written by `buffer_task_args` for a started tool, in a run that may have raised.
  buffered-Kept :
      (i : ℕ) (state state' : ToolCallState) (x : Exit) (s : Driver H) (c : Checker)
      → In json s c
      → get i (tools_of s) ≡ some state
      → slot (some state) ≡ slot (some state')
      → (x ≡ done → TaskWaits json state')
      → Kept json allow Any s c
          (record { exit = x; state = set_blocks (put_tool i state' s.sse.blocks) s; events = [] })
  unfolding check_events
  buffered-Kept i state state' x s c h e same w =
      let q = Same-put i state' s.sse.blocks (ap slot e ∙ same) in
      record {
        checker = c;
        accepted = refl;
        sync =
            Sync-same h.sync _ q.next_same q.text_same q.thinking_same q.live_same
              (q.distinct h.sync.tools_distinct);
        any = λ a. h.any (sym q.any_same ∙ a);
        held = λ k a. q.started_same k ∙ h.held k a;
        tasks = λ d. Tasks-put json i state' (tools_of s) (w d) h.tasks;
        grows = λ k a. q.started_same k ∙ a;
        ends = tt;
      }

  after_append-Kept :
      (i : ℕ) (state state' : ToolCallState) (s : Driver H) (c : Checker) (o : Option Value)
      → In json s c
      → get i (tools_of s) ≡ some state
      → state.started ≡ true
      → slot (some state) ≡ slot (some state')
      → value_of (json.loads state'.task_arg_buffer) ≡ o
      → let r = after_append json i state' s.sse.blocks o (normalized json o) in
        Kept json allow Any s c
          (record { exit = r.exit; state = set_blocks r.blocks s; events = [] })
  unfolding after_append
  after_append-Kept i state state' s c none h e x same q =
      buffered-Kept i state state' done s c h e same (λ _ _. (ground arith, q))
  after_append-Kept i state state' s c (some v) h e x same q =
      go (normalize_task_run_in_background v)
    where
      go :
          (n : Option Value)
          → let r = after_append json i state' s.sse.blocks (some v) n in
            Kept json allow Any s c
              (record { exit = r.exit; state = set_blocks r.blocks s; events = [] })
      go none = buffered-Kept i state state' _ s c h e same (λ d. cc)
      go (some w) =
          buffered-Kept i state (record state' { task_args_emitted = true; task_arg_buffer = "" })
            done s c h e same (λ _ n. cc)

  unless :
      (i : ℕ) (d : Bool) (state state' : ToolCallState) (s : Driver H) (c : Checker)
      → In json s c
      → get i (tools_of s) ≡ some state
      → state.started ≡ true
      → slot (some state) ≡ slot (some state')
      → let o = value_of (json.loads state'.task_arg_buffer) in
        let r =
          if d
          then record { exit = done; args = none; blocks = s.sse.blocks }
          else after_append json i state' s.sse.blocks o (normalized json o) in
        Kept json allow Any s c
          (record { exit = r.exit; state = set_blocks r.blocks s; events = [] })
  unless i true state state' s c h e x same = Kept-skip s c h tt
  unless i false state state' s c h e x same =
      after_append-Kept i state state' s c (value_of (json.loads state'.task_arg_buffer)) h e x same
        refl

  buffer-Kept :
      (i : ℕ) (args : String) (s : Driver H) (c : Checker)
      → In json s c
      → started_in (get i (tools_of s)) ≡ true
      → let r = buffer_task_args json i args s.sse.blocks in
        Kept json allow Any s c
          (record { exit = r.exit; state = set_blocks r.blocks s; events = [] })
  unfolding buffer_task_args buffer_in
  buffer-Kept i args s c h x = go (get i (tools_of s)) refl x
    where
      go :
          (o : Option ToolCallState)
          → get i (tools_of s) ≡ o
          → started_in o ≡ true
          → let r = buffer_in json i args o s.sse.blocks in
            Kept json allow Any s c
              (record { exit = r.exit; state = set_blocks r.blocks s; events = [] })
      go none q y = cc
      go (some state) q y =
          unless i state.task_args_emitted state
            (record state { task_arg_buffer = state.task_arg_buffer ++ args }) s c h q y refl

  pub task_delta-Kept :
      (i : ℕ) (args : String) (s : Driver H) (c : Checker)
      → In json s c
      → started_in (get i (tools_of s)) ≡ true
      → Kept json allow Any s c (task_delta json i args s)
  unfolding task_delta send_parsed
  task_delta-Kept i args s c h x =
      let r = buffer_task_args json i args s.sse.blocks in
      let k = buffer-Kept i args s c h x in
      Kept-resume r.exit [] s (set_blocks r.blocks s) c _ k
        (λ c' d g. go r.args (set_blocks r.blocks s) c' g (k.grows i x))
    where
      sent :
          (o : Option String) (t : Driver H) (c' : Checker)
          → In json t c'
          → started_in (get i (tools_of t)) ≡ true
          → Kept json allow Any t c' (
              (elim o as (λ _. Generator (Driver H)) [
                | none ↦ raise recursion_error
                | some text ↦ on_sse (emit_tool_delta i text)
              ])
                t)
      sent none t c' g y = Kept-quiet (raised recursion_error) t g (λ k e. e) tt
      sent (some text) t c' g y = delta-Kept tt i text t c' g y

      go :
          (o : Option Value) (t : Driver H) (c' : Checker)
          → In json t c'
          → started_in (get i (tools_of t)) ≡ true
          → Kept json allow Any t c' (send_parsed json i o t)
      go none t c' g y = Kept-skip t c' g tt
      go (some v) t c' g y = sent (json.dumps v) t c' g y

  module _ (all_aliases : Dict String (Dict String String)) where
    -- A fragment of the arguments of a started tool.
    pub tool_arg-Kept :
        (i : ℕ) (args : String) (s : Driver H) (c : Checker)
        → In json s c
        → started_in (get i (tools_of s)) ≡ true
        → Kept json allow Any s c (emit_tool_arg_delta json all_aliases i args s)
    unfolding emit_tool_arg_delta delta_in
    tool_arg-Kept i args s c h x =
        Kept-if (is_null args) _ _ (λ _. Kept-skip s c h tt) (λ _. go (get i (tools_of s)))
      where
        go :
            (o : Option ToolCallState)
            → Kept json allow Any s c (delta_in json all_aliases i args o s)
        go none = Kept-skip s c h tt
        go (some state) =
            Kept-choose (state.name == "Task") _ _ (λ _. task_delta-Kept i args s c h x)
              (λ _.
                Kept-choose (is_empty (or_no_aliases (get state.name all_aliases))) _ _
                  (λ _. delta-Kept tt i args s c h x)
                  (λ _.
                    aliased-Kept tt (or_no_aliases (get state.name all_aliases)) i args s c h x
                      (λ _. tt)))
