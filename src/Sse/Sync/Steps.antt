-- ===== src/Sse/Sync/Steps.antt =====
-- Each method of the builder that opens, extends or closes a block is accepted where its
-- precondition holds.
use vega_claude.Prelude.{
  ℕ, ◌+◌, ◌≡◌, refl, String, none, some, Bool, true, false, get, has, has-get, IsDict, put-IsDict,
  arith, ◌==◌, ==_iff, nat_eq, if◌then◌else◌,
}
use vega_claude.Prelude.Int.{ℤ, pos, int_eq}
use vega_claude.Sse.Event.{Block, Delta}
use vega_claude.Sse.Blocks.{ToolCallState, ContentBlockManager, put_tool}
use vega_claude.Sse.Builder.{
  SseBuilder, start_event, delta_event, stop_event, start_text_block, emit_text_delta,
  stop_text_block, start_thinking_block, emit_thinking_delta, stop_thinking_block, start_tool_block,
  start_state,
}
use vega_claude.Sse.Contract.{
  Checker, Kind, text, thinking, tool_use, ok, storage, check_delta, check_event,
}
use vega_claude.Sse.Sync.{
  live, tools_live, Sync, Sync-open, Sync-close, opened, closed, fresh_open, fresh_live, fresh_seen,
}
use vega_claude.Sse.Sync.Ran.{Ran, Done, Ran-emit}
use vega_claude.Sse.Sync.Tools.{slot, get-tools_live-put, has-tools_live-put, tools_live-put-IsDict}

module _ (allow : Bool) where
  pub check_start_fresh :
      (b : ContentBlockManager) (c : Checker) (block : Block) (kind : Kind)
      → Sync b c
      → storage (some block) ≡ some kind
      → check_event allow c (start_event (pos b.next_index) block)
        ≡ ok (opened c (pos b.next_index) kind)
  unfolding check_event
  check_start_fresh b c block kind s e = rw e (rw (fresh_open s) (rw (fresh_seen s)))

  pub check_stop_open :
      (b : ContentBlockManager) (c : Checker) (i : ℤ) (kind : Kind)
      → Sync b c
      → get i (live b) ≡ some kind
      → check_event allow c (stop_event i) ≡ ok (closed c i)
  unfolding check_event
  check_stop_open b c i kind s e = ground (arith, has-get i c.open_blocks, s.agree i)

  pub check_delta_open :
      (b : ContentBlockManager) (c : Checker) (i : ℤ) (kind : Kind) (delta : Delta)
      → Sync b c
      → get i (live b) ≡ some kind
      → check_delta kind (some delta) ≡ ok tt
      → check_event allow c (delta_event i delta) ≡ ok c
  unfolding check_event
  check_delta_open b c i kind delta s e d = rw (s.agree i) (rw e (rw d))

-- Starting the text block, the thinking block or a tool block adds one entry to what is open.
module _ {b : ContentBlockManager} {c : Checker} (sync : Sync b c) where
  abbrev new_index : ℤ
  new_index = pos b.next_index

  get-live-text :
      b.text_started ≡ false
      → (k : ℤ)
      → get k (
          live (record b {
            next_index = b.next_index + 1;
            text_index = new_index;
            text_started = true;
          }))
        ≡ (if new_index == k then some text else get k (live b))
  unfolding live
  get-live-text h k = ground (
    arith,
    fresh_live sync,
    ==_iff b.thinking_index k,
    ==_iff b.thinking_index new_index,
    ==_iff new_index k,
  )

  IsDict-live-text :
      b.text_started ≡ false
      → IsDict (
          live (record b {
            next_index = b.next_index + 1;
            text_index = new_index;
            text_started = true;
          }))
  unfolding live
  IsDict-live-text h = ground (
    arith,
    fresh_live sync,
    sync.live_distinct,
    ==_iff b.thinking_index new_index,
    ==_iff new_index b.thinking_index,
  )

  get-live-thinking :
      b.thinking_started ≡ false
      → (k : ℤ)
      → get k (
          live (record b {
            next_index = b.next_index + 1;
            thinking_index = new_index;
            thinking_started = true;
          }))
        ≡ (if new_index == k then some thinking else get k (live b))
  unfolding live
  get-live-thinking h k = ground arith

  IsDict-live-thinking :
      b.thinking_started ≡ false
      → IsDict (
          live (record b {
            next_index = b.next_index + 1;
            thinking_index = new_index;
            thinking_started = true;
          }))
  unfolding live
  IsDict-live-thinking h = ground (arith, fresh_live sync, sync.live_distinct)

  module _ (i : ℕ) (state : ToolCallState) (unstarted : slot (get i b.tool_states) ≡ none)
      (started : state.started ≡ true) (placed : state.block_index ≡ new_index) where
    fresh_tool : has state.block_index (tools_live b.tool_states) ≡ false
    unfolding live
    fresh_tool = ground (arith, fresh_live sync)

    get-live-tool :
        (k : ℤ)
        → get k (live (put_tool i state (record b { next_index = b.next_index + 1 })))
          ≡ (if new_index == k then some tool_use else get k (live b))
    unfolding live
    get-live-tool k = ground (
      arith,
      fresh_live sync,
      fresh_tool,
      get-tools_live-put i state b.tool_states k,
      ==_iff b.thinking_index k,
      ==_iff b.text_index k,
      ==_iff new_index k,
      ==_iff b.thinking_index new_index,
      ==_iff b.text_index new_index,
    )

    IsDict-live-tool : IsDict (live (put_tool i state (record b { next_index = b.next_index + 1 })))
    unfolding live
    IsDict-live-tool = ground (
      arith,
      fresh_live sync,
      fresh_tool,
      sync.live_distinct,
      tools_live-put-IsDict i state b.tool_states,
      has-tools_live-put i state b.tool_states b.thinking_index,
      has-tools_live-put i state b.tool_states b.text_index,
      ==_iff b.thinking_index new_index,
      ==_iff b.text_index new_index,
      ==_iff new_index b.thinking_index,
      ==_iff new_index b.text_index,
    )

module _ {allow : Bool} (s : SseBuilder) (c : Checker) (sync : Sync s.blocks c) where
  pub start_text-Ran : s.blocks.text_started ≡ false → Ran allow Done c (start_text_block s)
  unfolding start_text_block storage
  start_text-Ran h =
      Ran-emit _ _ c (opened c (pos s.blocks.next_index) text) refl
        (check_start_fresh allow s.blocks c (Block.text "") text sync refl)
        (Sync-open sync _ text refl (get-live-text sync h) (IsDict-live-text sync h)
          sync.tools_distinct)

  pub start_thinking-Ran :
      s.blocks.thinking_started ≡ false → Ran allow Done c (start_thinking_block s)
  unfolding start_thinking_block storage
  start_thinking-Ran h =
      Ran-emit _ _ c (opened c (pos s.blocks.next_index) thinking) refl
        (check_start_fresh allow s.blocks c (Block.thinking "") thinking sync refl)
        (Sync-open sync _ thinking refl (get-live-thinking sync h) (IsDict-live-thinking sync h)
          sync.tools_distinct)

  pub start_tool-Ran :
      (i : ℕ) (tool_id name : String)
      → slot (get i s.blocks.tool_states) ≡ none
      → Ran allow Done c (start_tool_block i tool_id name s)
  unfolding start_tool_block storage
  start_tool-Ran i tool_id name h =
      let state = start_state (pos s.blocks.next_index) tool_id name (get i s.blocks.tool_states) in
      Ran-emit _ _ c (opened c (pos s.blocks.next_index) tool_use) refl
        (check_start_fresh allow s.blocks c (Block.tool_use tool_id name) tool_use sync refl)
        (Sync-open sync _ tool_use refl (get-live-tool sync i state h (ground arith) (ground arith))
          (IsDict-live-tool sync i state h (ground arith) (ground arith))
          (put-IsDict i state s.blocks.tool_states sync.tools_distinct))

  pub text_delta-Ran :
      (t : String) → s.blocks.text_started ≡ true → Ran allow Done c (emit_text_delta t s)
  unfolding emit_text_delta check_delta live
  text_delta-Ran t h =
      Ran-emit _ _ c c refl
        (check_delta_open allow s.blocks c s.blocks.text_index text (Delta.text_delta t) sync
          (ground (
            arith,
            sync.live_distinct,
            ==_iff s.blocks.thinking_index s.blocks.text_index,
            ==_iff s.blocks.text_index s.blocks.thinking_index,
            ==_iff s.blocks.text_index s.blocks.text_index,
          ))
          refl)
        sync

  pub thinking_delta-Ran :
      (t : String) → s.blocks.thinking_started ≡ true → Ran allow Done c (emit_thinking_delta t s)
  unfolding emit_thinking_delta check_delta live
  thinking_delta-Ran t h =
      Ran-emit _ _ c c refl
        (check_delta_open allow s.blocks c s.blocks.thinking_index thinking (Delta.thinking_delta t)
          sync (ground (arith, ==_iff s.blocks.thinking_index s.blocks.thinking_index)) refl)
        sync

  pub stop_text-Ran : s.blocks.text_started ≡ true → Ran allow Done c (stop_text_block s)
  unfolding stop_text_block live
  stop_text-Ran h =
      Ran-emit _ _ c (closed c s.blocks.text_index) refl
        (check_stop_open allow s.blocks c s.blocks.text_index text sync (
          ground (
            arith,
            sync.live_distinct,
            ==_iff s.blocks.thinking_index s.blocks.text_index,
            ==_iff s.blocks.text_index s.blocks.thinking_index,
            ==_iff s.blocks.text_index s.blocks.text_index,
          )))
        (Sync-close sync _ s.blocks.text_index refl refl refl
          (λ k. ground (
            arith,
            sync.live_distinct,
            has-get k (tools_live s.blocks.tool_states),
            ==_iff s.blocks.thinking_index s.blocks.text_index,
            ==_iff s.blocks.text_index s.blocks.thinking_index,
            ==_iff s.blocks.thinking_index k,
            ==_iff s.blocks.text_index k,
          ))
          (ground (arith, sync.live_distinct)) sync.tools_distinct)

  pub stop_thinking-Ran :
      s.blocks.thinking_started ≡ true → Ran allow Done c (stop_thinking_block s)
  unfolding stop_thinking_block live
  stop_thinking-Ran h =
      Ran-emit _ _ c (closed c s.blocks.thinking_index) refl
        (check_stop_open allow s.blocks c s.blocks.thinking_index thinking sync
          (ground (arith, ==_iff s.blocks.thinking_index s.blocks.thinking_index)))
        (Sync-close sync _ s.blocks.thinking_index refl refl refl
          (λ k. ground (
            arith,
            sync.live_distinct,
            has-get k (tools_live s.blocks.tool_states),
            has-get k (live s.blocks),
            ==_iff s.blocks.thinking_index k,
            ==_iff s.blocks.text_index k,
          ))
          (ground (arith, sync.live_distinct)) sync.tools_distinct)
