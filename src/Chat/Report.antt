-- ===== src/Chat/Report.antt =====
-- The handler of the driver's `try` ends the message.
use vega_claude.Prelude.{
  ℕ, ◌<◌, ◌≡◌, refl, String, Bool, true, false, [], add, contains, is_empty, ==_refl, nat_eq, arith,
  if◌then◌else◌,
}
use vega_claude.Prelude.Int.{ℤ, pos, int_eq}
use vega_claude.Json.{Json}
use vega_claude.Sse.Generator.{Exception, Generator, ◌>>◌, resume}
use vega_claude.Sse.Blocks.{any_started, has_emitted_tool_block}
use vega_claude.Sse.Builder.{
  emit_message_delta, emit_message_stop, emit_error, emit_top_level_error,
}
use vega_claude.Sse.Contract.{Checker, storage, check_delta, check_event, check_events}
use vega_claude.Sse.Sync.{Sync, is_empty-add}
use vega_claude.Chat.State.{HeuristicParser, Driver, on_sse}
use vega_claude.Chat.ToolCalls.{tools_of}
use vega_claude.Chat.Stream.{write_failure, report_error}
use vega_claude.Chat.Ending.{Finished, Finished-resume, Finished-close}

-- `message_delta` and `message_stop`.
pub last-Finished :
    {H : Type 0} {allow : Bool} {escapes : Exception → Driver H → Type 0} (reason : String) (n : ℕ)
    (s : Driver H) (c : Checker)
    → c.open_blocks ≡ []
    → is_empty c.seen_blocks ≡ false
    → Finished allow escapes c (on_sse (emit_message_delta reason n >> emit_message_stop) s)
unfolding emit_message_delta emit_message_stop ◌>>◌ check_events check_event
last-Finished reason n s c e q = record {
  checker = c;
  accepted = refl;
  whole = record { empty = e; seen = q; stops = refl; full = refl };
}

module _ {H : Type 0} {escapes : Exception → Driver H → Type 0} (message : String) (s : Driver H)
    (c : Checker) where
  top_level-Finished :
      (k : Generator (Driver H))
      → Finished true escapes c (k s)
      → Finished true escapes c ((on_sse (emit_top_level_error message) >> k) s)
  unfolding emit_top_level_error ◌>>◌ check_events check_event
  top_level-Finished k h =
      Finished-resume (emit_top_level_error message s.sse).events s c c k refl h

  -- A new block for the message: nothing is open, and its index was never seen.
  emit_error-Finished :
      (k : Generator (Driver H))
      → c.open_blocks ≡ []
      → contains (pos s.sse.blocks.next_index) c.seen_blocks ≡ false
      → ((t : Driver H) (c' : Checker)
          → c'.open_blocks ≡ []
          → is_empty c'.seen_blocks ≡ false
          → Finished true escapes c' (k t))
      → Finished true escapes c ((on_sse (emit_error message) >> k) s)
  unfolding emit_error ◌>>◌ check_events check_event storage check_delta
  emit_error-Finished k e n rest =
      let i : ℤ = pos s.sse.blocks.next_index in
      let c' : Checker = record { open_blocks = []; seen_blocks = add i c.seen_blocks } in
      Finished-resume (emit_error message s.sse).events _ c c' k
        (rw (e, n) (ground (arith, ==_refl s.sse.blocks.next_index)))
        (rest _ c' refl (is_empty-add i c.seen_blocks))

  write_failure-Finished :
      (k : Generator (Driver H))
      → c.open_blocks ≡ []
      → contains (pos s.sse.blocks.next_index) c.seen_blocks ≡ false
      → (any_started (tools_of s) ≡ true → is_empty c.seen_blocks ≡ false)
      → ((t : Driver H) (c' : Checker)
          → c'.open_blocks ≡ []
          → is_empty c'.seen_blocks ≡ false
          → Finished true escapes c' (k t))
      → Finished true escapes c ((on_sse (write_failure message) >> k) s)
  unfolding write_failure has_emitted_tool_block ◌>>◌
  write_failure-Finished k e n any rest = go (any_started (tools_of s)) any
    where
      go :
          (b : Bool)
          → (b ≡ true → is_empty c.seen_blocks ≡ false)
          → let r = if b then emit_top_level_error message s.sse else emit_error message s.sse in
            Finished true escapes c (resume r.exit r.events (record s { sse = r.state }) k)
      go true q = top_level-Finished k (rest s c e (q refl))
      go false q = emit_error-Finished k e n rest

module _ (json : Json) (heuristic : HeuristicParser) (thinking_enabled : Bool)
    {escapes : Exception → Driver heuristic.State → Type 0} where
  pub report_error-Finished :
      (message : String) (s : Driver heuristic.State) (c : Checker)
      → Sync s.sse.blocks c
      → (any_started (tools_of s) ≡ true → 0 < s.sse.blocks.next_index)
      → Finished true escapes c (report_error json heuristic thinking_enabled message s)
  unfolding report_error
  report_error-Finished message s c sync any = Finished-close _ s c sync any (λ t c1 e n any _.
      write_failure-Finished message t c1 _ e n any
        (λ u c2 e2 q. last-Finished "end_turn" 1 u c2 e2 q))
