-- ===== src/Sse/Sync/Compound.antt =====
-- The builder's methods that combine steps: ensure, close, and the arguments of a tool.
use vega_claude.Prelude.{
  ℕ, ◌≡◌, refl, ap, String, some, Bool, true, false, [], ◌∷◌, ◌++◌, get, has-get, put-IsDict, arith,
  ==_iff, nat_eq,
}
use vega_claude.Prelude.Int.{int_eq}
use vega_claude.Sse.Event.{Delta}
use vega_claude.Sse.Generator.{skip}
use vega_claude.Sse.Blocks.{ToolCallState, put_tool}
use vega_claude.Sse.Builder.{
  SseBuilder, ensure_thinking_block, ensure_text_block, close_content_blocks, emit_tool_delta,
  stop_text_if, stop_thinking_if, start_text_if, start_thinking_if,
}
use vega_claude.Sse.Contract.{Checker, tool_use, check_delta}
use vega_claude.Sse.Sync.{live, tools_live, Sync, Sync-same}
use vega_claude.Sse.Sync.Ran.{Ran, Done, Ran-emit, Ran-then, Ran-if, Keeps-skip}
use vega_claude.Sse.Sync.Steps.{
  start_text-Ran, start_thinking-Ran, stop_text-Ran, stop_thinking-Ran, check_delta_open,
}
use vega_claude.Sse.Sync.Tools.{slot, tools_live-put_same, get-tools_live}

module _ {allow : Bool} where
  skip-Ran : (s : SseBuilder) (c : Checker) → Sync s.blocks c → Ran allow Done c (skip s)
  skip-Ran s c h = (Keeps-skip refl).at s c h

  module _ (s : SseBuilder) (c : Checker) (h : Sync s.blocks c) where
    stop_text_if-Ran : Ran allow Done c (stop_text_if s)
    unfolding stop_text_if
    stop_text_if-Ran = Ran-if s.blocks.text_started _ _ (stop_text-Ran s c h) (λ _. skip-Ran s c h)

    stop_thinking_if-Ran : Ran allow Done c (stop_thinking_if s)
    unfolding stop_thinking_if
    stop_thinking_if-Ran =
        Ran-if s.blocks.thinking_started _ _ (stop_thinking-Ran s c h) (λ _. skip-Ran s c h)

    start_text_if-Ran : Ran allow Done c (start_text_if s)
    unfolding start_text_if
    start_text_if-Ran =
        Ran-if s.blocks.text_started _ _ (λ _. skip-Ran s c h) (start_text-Ran s c h)

    start_thinking_if-Ran : Ran allow Done c (start_thinking_if s)
    unfolding start_thinking_if
    start_thinking_if-Ran =
        Ran-if s.blocks.thinking_started _ _ (λ _. skip-Ran s c h) (start_thinking-Ran s c h)

  -- Any state: what the next block finds is in step again.
  module _ (s : SseBuilder) (c : Checker) (h : Sync s.blocks c) where
    pub ensure_text-Ran : Ran allow Done c (ensure_text_block s)
    unfolding ensure_text_block
    ensure_text-Ran =
        Ran-then stop_thinking_if start_text_if s c (stop_thinking_if-Ran s c h)
          (λ c' _ h'. start_text_if-Ran (stop_thinking_if s).state c' h')

    pub ensure_thinking-Ran : Ran allow Done c (ensure_thinking_block s)
    unfolding ensure_thinking_block
    ensure_thinking-Ran =
        Ran-then stop_text_if start_thinking_if s c (stop_text_if-Ran s c h)
          (λ c' _ h'. start_thinking_if-Ran (stop_text_if s).state c' h')

    pub close_content-Ran : Ran allow Done c (close_content_blocks s)
    unfolding close_content_blocks
    close_content-Ran =
        Ran-then stop_thinking_if stop_text_if s c (stop_thinking_if-Ran s c h)
          (λ c' _ h'. stop_text_if-Ran (stop_thinking_if s).state c' h')

  -- The arguments of a started tool.
  pub tool_delta-Ran :
      (i : ℕ) (t : String) (state : ToolCallState) (s : SseBuilder) (c : Checker)
      → Sync s.blocks c
      → get i s.blocks.tool_states ≡ some state
      → state.started ≡ true
      → Ran allow Done c (emit_tool_delta i t s)
  unfolding emit_tool_delta check_delta live
  tool_delta-Ran i t state s c sync e h =
      let state' : ToolCallState = record state { contents = state.contents ++ t ∷ [] } in
      rw e (
        Ran-emit _ _ c c refl
          (check_delta_open allow s.blocks c state.block_index tool_use (Delta.input_json_delta t)
            sync
            (ground (
              arith,
              get-tools_live i state s.blocks.tool_states e h,
              sync.live_distinct,
              has-get state.block_index (tools_live s.blocks.tool_states),
              ==_iff s.blocks.thinking_index state.block_index,
              ==_iff s.blocks.text_index state.block_index,
            ))
            refl)
          (Sync-same sync (put_tool i state' s.blocks) refl refl refl
            (rw (tools_live-put_same i state' s.blocks.tool_states (ap slot e)))
            (put-IsDict i state' s.blocks.tool_states sync.tools_distinct)))

-- What the methods leave.
pub text_started-ensure_text :
    (s : SseBuilder) → (ensure_text_block s).state.blocks.text_started ≡ true
unfolding ensure_text_block
text_started-ensure_text s = ground arith

pub thinking_started-ensure_thinking :
    (s : SseBuilder) → (ensure_thinking_block s).state.blocks.thinking_started ≡ true
unfolding ensure_thinking_block
thinking_started-ensure_thinking s = ground arith

pub text_started-close_content :
    (s : SseBuilder) → (close_content_blocks s).state.blocks.text_started ≡ false
unfolding close_content_blocks
text_started-close_content s = ground arith

pub thinking_started-close_content :
    (s : SseBuilder) → (close_content_blocks s).state.blocks.thinking_started ≡ false
unfolding close_content_blocks
thinking_started-close_content s = ground arith

pub tool_states-close_content :
    (s : SseBuilder) → (close_content_blocks s).state.blocks.tool_states ≡ s.blocks.tool_states
unfolding close_content_blocks
tool_states-close_content s = ground arith

pub next_index-close_content :
    (s : SseBuilder) → (close_content_blocks s).state.blocks.next_index ≡ s.blocks.next_index
unfolding close_content_blocks
next_index-close_content s = ground arith
