-- ===== src/Chat/WritesKept.antt =====
-- What the driver writes of the text keeps it good.
use vega_claude.Prelude.{◌+◌, ◌≤◌, ◌≡◌, refl, String, Bool, List, [], ◌∷◌, nat_eq, string_eq, arith}
use vega_claude.Json.{Json}
use vega_claude.Sse.Event.{tool_use}
use vega_claude.Sse.Generator.{Exit, done, Generator, ◌>>◌}
use vega_claude.Sse.Builder.{
  SseBuilder, ensure_text_block, ensure_thinking_block, emit_text_delta, emit_thinking_delta,
  close_content_blocks,
}
use vega_claude.Sse.Contract.{Checker, Kind, storage, check_delta}
use vega_claude.Sse.Sync.{Sync}
use vega_claude.Sse.Sync.Ran.{Ran, Done, Ran-then, Ran-weaken}
use vega_claude.Sse.Sync.Steps.{text_delta-Ran, thinking_delta-Ran}
use vega_claude.Sse.Sync.Whole.{Ran-block}
use vega_claude.Sse.Sync.Compound.{
  ensure_text-Ran, ensure_thinking-Ran, close_content-Ran, text_started-ensure_text,
  thinking_started-ensure_thinking, tool_states-close_content, next_index-close_content,
}
use vega_claude.Chat.State.{HeuristicParser, ToolUse, Driver, on_sse}
use vega_claude.Chat.Stream.{
  for_each, heuristic_block, iter_heuristic_tool_use, write_text, write_thinking,
}
use vega_claude.Chat.Kept.{In, Kept, Kept-skip, Kept-then, on_sse-same}
use vega_claude.Chat.ToolDeltas.{weak}

tool_states-write_text :
    (t : String) (s : SseBuilder) → (write_text t s).state.blocks.tool_states ≡ s.blocks.tool_states
unfolding write_text ensure_text_block emit_text_delta
tool_states-write_text t s = ground arith

next_index-write_text :
    (t : String) (s : SseBuilder) → s.blocks.next_index ≤ (write_text t s).state.blocks.next_index
unfolding write_text ensure_text_block emit_text_delta
next_index-write_text t s = ground arith

tool_states-write_thinking :
    (t : String) (s : SseBuilder)
    → (write_thinking t s).state.blocks.tool_states ≡ s.blocks.tool_states
unfolding write_thinking ensure_thinking_block emit_thinking_delta
tool_states-write_thinking t s = ground arith

next_index-write_thinking :
    (t : String) (s : SseBuilder)
    → s.blocks.next_index ≤ (write_thinking t s).state.blocks.next_index
unfolding write_thinking ensure_thinking_block emit_thinking_delta
next_index-write_thinking t s = ground arith

heuristic_block-Ran :
    (allow : Bool) (json : Json) (call : ToolUse) (s : SseBuilder) (c : Checker)
    → Sync s.blocks c
    → Ran allow Done c (heuristic_block json call s)
unfolding heuristic_block storage check_delta
heuristic_block-Ran allow json call s c sync =
    Ran-block allow sync Kind.tool_use
      (record s { blocks = record (s.blocks) { next_index = s.blocks.next_index + 1 } })
      (tool_use call.id call.name) _ refl refl refl

tool_states-heuristic :
    (json : Json) (call : ToolUse) (s : SseBuilder)
    → (iter_heuristic_tool_use json call s).state.blocks.tool_states ≡ s.blocks.tool_states
unfolding iter_heuristic_tool_use heuristic_block close_content_blocks
tool_states-heuristic json call s = ground arith

next_index-heuristic :
    (json : Json) (call : ToolUse) (s : SseBuilder)
    → s.blocks.next_index ≤ (iter_heuristic_tool_use json call s).state.blocks.next_index
unfolding iter_heuristic_tool_use heuristic_block close_content_blocks
next_index-heuristic json call s = ground arith

module _ {json : Json} {H : Type 0} {allow : Bool} {P : Exit → Type 0} (p : P done) where
  pub write_text-Kept :
      (t : String) (s : Driver H) (c : Checker)
      → In json s c
      → Kept json allow P s c (on_sse (write_text t) s)
  unfolding write_text ◌>>◌
  write_text-Kept t s c h =
      on_sse-same (write_text t) s c h (Ran-weaken _ (weak P p) ran)
        (tool_states-write_text t s.sse) (next_index-write_text t s.sse)
    where
      ran : Ran allow Done c (write_text t s.sse)
      ran =
          Ran-then ensure_text_block (emit_text_delta t) s.sse c (ensure_text-Ran s.sse c h.sync)
            (λ c' _ g.
              text_delta-Ran (ensure_text_block s.sse).state c' g t
                (text_started-ensure_text s.sse))

  pub write_thinking-Kept :
      (t : String) (s : Driver H) (c : Checker)
      → In json s c
      → Kept json allow P s c (on_sse (write_thinking t) s)
  unfolding write_thinking ◌>>◌
  write_thinking-Kept t s c h =
      on_sse-same (write_thinking t) s c h (Ran-weaken _ (weak P p) ran)
        (tool_states-write_thinking t s.sse) (next_index-write_thinking t s.sse)
    where
      ran : Ran allow Done c (write_thinking t s.sse)
      ran =
          Ran-then ensure_thinking_block (emit_thinking_delta t) s.sse c
            (ensure_thinking-Ran s.sse c h.sync)
            (λ c' _ g.
              thinking_delta-Ran (ensure_thinking_block s.sse).state c' g t
                (thinking_started-ensure_thinking s.sse))

  pub close_content-Kept :
      (s : Driver H) (c : Checker)
      → In json s c
      → Kept json allow P s c (on_sse close_content_blocks s)
  close_content-Kept s c h =
      on_sse-same close_content_blocks s c h
        (Ran-weaken _ (weak P p) (close_content-Ran s.sse c h.sync))
        (tool_states-close_content s.sse) (omega (arith, next_index-close_content s.sse))

  pub for_each-Kept :
      {A : Type 0} (f : A → Generator (Driver H))
      → ((x : A) (s : Driver H) (c : Checker) → In json s c → Kept json allow P s c (f x s))
      → (xs : List A) (s : Driver H) (c : Checker) → In json s c
      → Kept json allow P s c (for_each f xs s)
  for_each-Kept f each [] s c h = Kept-skip s c h p
  for_each-Kept f each (x ∷ xs) s c h =
      Kept-then (f x) (for_each f xs) s c (each x s c h) (λ c' _ g. for_each-Kept f each xs _ c' g)

  heuristic-Kept :
      (call : ToolUse) (s : Driver H) (c : Checker)
      → In json s c
      → Kept json allow P s c (on_sse (iter_heuristic_tool_use json call) s)
  unfolding iter_heuristic_tool_use
  heuristic-Kept call s c h =
      on_sse-same (iter_heuristic_tool_use json call) s c h
        (Ran-weaken _ (weak P p) (
          Ran-then close_content_blocks (heuristic_block json call) s.sse c
            (close_content-Ran s.sse c h.sync)
            (λ c' _ g. heuristic_block-Ran allow json call _ c' g)))
        (tool_states-heuristic json call s.sse) (next_index-heuristic json call s.sse)

  pub write_tools-Kept :
      (heuristic : HeuristicParser) (thinking_enabled : Bool) (calls : List ToolUse) (s : Driver H)
      (c : Checker)
      → In json s c
      → Kept json allow P s c
          (for_each (λ call. on_sse (iter_heuristic_tool_use json call)) calls s)
  write_tools-Kept heuristic thinking_enabled calls =
      for_each-Kept (λ call. on_sse (iter_heuristic_tool_use json call)) heuristic-Kept calls

-- A field that the invariant does not read.
pub In-other :
    {json : Json} {H : Type 0} {s : Driver H} {c : Checker} (t : Driver H)
    → In json s c
    → t.sse ≡ s.sse
    → t.alias_buffers ≡ s.alias_buffers
    → In json t c
In-other t h e f = record {
  sync = rw e h.sync;
  any = rw e h.any;
  held = rw (e, f) h.held;
  tasks = rw e h.tasks;
}
