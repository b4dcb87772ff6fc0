-- ===== src/Chat/Ending.antt =====
-- The end of the message: the blocks are closed, and `message_stop` is the last event.
use vega_claude.Prelude.{
  ◌<◌, ◌≡◌, refl, sym, ap, ◌++◌, subst, ◌∙◌, Bool, true, false, List, [], contains, is_empty,
  nat_eq,
}
use vega_claude.Prelude.Int.{pos, int_eq}
use vega_claude.Json.{Json}
use vega_claude.Sse.Event.{Event}
use vega_claude.Sse.Generator.{Exit, done, raised, Exception, Run, Generator, ◌>>◌, resume}
use vega_claude.Sse.Blocks.{any_started}
use vega_claude.Sse.Builder.{SseBuilder, close_content_blocks, close_tools, close_all_blocks}
use vega_claude.Sse.Contract.{Checker, ok, check_events, ends_with_stop}
use vega_claude.Sse.Seen.{seen_after}
use vega_claude.Sse.Sync.{Sync}
use vega_claude.Sse.Sync.Ran.{check_events-append}
use vega_claude.Sse.Sync.Compound.{tool_states-close_content, next_index-close_content}
use vega_claude.Sse.Sync.Close.{AllClosed, close_all-AllClosed, state-close_tools}
use vega_claude.Sse.Message.{ends_with_stop-append, is_empty-append}
use vega_claude.Chat.State.{Driver, on_sse}
use vega_claude.Chat.ToolCalls.{tools_of}
use vega_claude.Chat.Kept.{In, Kept, In-Kept}

-- A message that is complete: nothing is left open, something was seen.
pub record Complete (c : Checker) (es : List Event) : Type 0 where
  pub empty : c.open_blocks ≡ []
  pub seen : is_empty c.seen_blocks ≡ false
  pub stops : ends_with_stop es ≡ true
  pub full : is_empty es ≡ false

-- How the message ends: it is complete, or an exception leaves the generator that may do so.
abbrev pub Whole :
    {S : Type 0} → (Exception → S → Type 0) → Checker → List Event → Exit → S → Type 0
Whole escapes c es done s = Complete c es
Whole escapes c es (raised x) s = escapes x s

-- A run to the end of the message.
pub record Finished (allow : Bool) {H : Type 0} (escapes : Exception → Driver H → Type 0)
    (c : Checker) (r : Run (Driver H)) : Type 0 where
  pub checker : Checker
  pub accepted : check_events allow c r.events ≡ ok checker
  pub whole : Whole escapes checker r.events r.exit r.state

Whole-append :
    {S : Type 0} (escapes : Exception → S → Type 0) (c : Checker) (es es' : List Event) (x : Exit)
    (s : S)
    → Whole escapes c es' x s
    → Whole escapes c (es ++ es') x s
Whole-append escapes c es es' done s h = record {
  empty = h.empty;
  seen = h.seen;
  stops = ends_with_stop-append es es' h.full h.stops;
  full = is_empty-append es es' h.full;
}
Whole-append escapes c es es' (raised x) s h = h

resume_state :
    {S : Type 0} (x : Exit) (es : List Event) (s : S) (k : Generator S)
    → (k s).state ≡ s
    → (resume x es s k).state ≡ s
resume_state done es s k e = e
resume_state (raised x) es s k e = refl

after_close :
    (s : SseBuilder)
    → ((close_all_blocks s).state.blocks.tool_states ≡ s.blocks.tool_states)
      × ((close_all_blocks s).state.blocks.next_index ≡ s.blocks.next_index)
unfolding close_all_blocks ◌>>◌
after_close s =
    let r = close_content_blocks s in
    let e =
      resume_state r.exit r.events r.state (λ x. close_tools x.blocks.tool_states x)
        (state-close_tools r.state.blocks.tool_states r.state) in
    (
      ap (λ x. x.blocks.tool_states) e ∙ tool_states-close_content s,
      ap (λ x. x.blocks.next_index) e ∙ next_index-close_content s,
    )

module _ {H : Type 0} {allow : Bool} {escapes : Exception → Driver H → Type 0} where
  pub Finished-resume :
      (es : List Event) (t : Driver H) (c c' : Checker) (k : Generator (Driver H))
      → check_events allow c es ≡ ok c'
      → Finished allow escapes c' (k t)
      → Finished allow escapes c (resume done es t k)
  Finished-resume es t c c' k h q = record {
    checker = q.checker;
    accepted = rw (check_events-append allow c es (k t).events) (rw h q.accepted);
    whole = Whole-append escapes q.checker es (k t).events (k t).exit (k t).state q.whole;
  }

  module _ {json : Json} {P : Exit → Type 0} where
    -- A step, and the rest of the message.
    pub Finished-then :
        (m k : Generator (Driver H)) (s : Driver H) (c : Checker)
        → ((x : Exception) (t : Driver H) → P (raised x) → escapes x t)
        → Kept json allow P s c (m s)
        → ((c' : Checker)
            → In json (m s).state c'
            → (is_empty c.seen_blocks ≡ false → is_empty c'.seen_blocks ≡ false)
            → Finished allow escapes c' (k (m s).state))
        → Finished allow escapes c ((m >> k) s)
    unfolding ◌>>◌
    Finished-then m k s c lift h rest = go (m s).exit refl
      where
        go :
            (x : Exit)
            → (m s).exit ≡ x
            → Finished allow escapes c (resume x (m s).events (m s).state k)
        go done e = Finished-resume (m s).events (m s).state c h.checker k h.accepted (
            rest h.checker (In-Kept (m s) h e)
              (seen_after allow c h.checker (m s).events h.accepted))
        go (raised x) e = record {
          checker = h.checker;
          accepted = h.accepted;
          whole = lift x (m s).state (subst P e h.ends);
        }

  -- The blocks are closed, and then the rest of the message.
  pub Finished-close :
      (k : Generator (Driver H)) (s : Driver H) (c : Checker)
      → Sync s.sse.blocks c
      → (any_started (tools_of s) ≡ true → 0 < s.sse.blocks.next_index)
      → ((t : Driver H) (c' : Checker)
          → c'.open_blocks ≡ []
          → contains (pos t.sse.blocks.next_index) c'.seen_blocks ≡ false
          → (any_started (tools_of t) ≡ true → is_empty c'.seen_blocks ≡ false)
          → (is_empty c.seen_blocks ≡ false → is_empty c'.seen_blocks ≡ false)
          → Finished allow escapes c' (k t))
      → Finished allow escapes c ((on_sse close_all_blocks >> k) s)
  unfolding ◌>>◌
  Finished-close k s c sync any rest =
      let r = close_all_blocks s.sse in
      let t : Driver H = record s { sse = r.state } in
      let q : AllClosed allow s.sse.blocks.next_index c r = close_all-AllClosed s.sse c sync in
      let (tools, next) = after_close s.sse in
      rw q.ends (
        Finished-resume r.events t c q.checker k q.accepted (
          rest t q.checker q.empty (rw next q.fresh)
            (λ e. q.seen (any (sym (ap any_started tools) ∙ e)))
            (seen_after allow c q.checker r.events q.accepted)))
