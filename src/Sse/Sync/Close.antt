-- ===== src/Sse/Sync/Close.antt =====
-- `close_all_blocks` stops every block that is open.
use vega_claude.Prelude.{
  ℕ, ◌<◌, is_empty, ◌≡◌, refl, some, Bool, true, false, [], ◌∷◌, Dict, get, has, has-get,
  get-remove, contains, IsDict, nil_of_get-none, arith, ==_iff, ==_refl, nat_eq, if◌then◌else◌,
}
use vega_claude.Prelude.Int.{ℤ, pos, int_eq}
use vega_claude.Sse.Generator.{done, Run, Generator, ◌>>◌, resume, skip}
use vega_claude.Sse.Blocks.{ToolCallState, ContentBlockManager}
use vega_claude.Sse.Builder.{
  SseBuilder, close_content_blocks, close_tools, close_all_blocks, stop_tool_block,
}
use vega_claude.Sse.Contract.{Checker, ok, check_event, check_events}
use vega_claude.Sse.Sync.{live, tools_live, Sync, closed, fresh_seen}
use vega_claude.Sse.Sync.Ran.{Ran, Done, check_events-append}
use vega_claude.Sse.Sync.Compound.{
  close_content-Ran, text_started-close_content, thinking_started-close_content,
  next_index-close_content,
}

-- The entries of `d` are those that `D` gives for their keys.
abbrev Within : Dict ℕ ToolCallState → Dict ℕ ToolCallState → Type 0
Within D [] = Unit
Within D ((i, state) ∷ d) = (get i D ≡ some state) × Within D d

Within-cons :
    (j : ℕ) (w : ToolCallState) (D d : Dict ℕ ToolCallState)
    → has j d ≡ false
    → Within D d
    → Within ((j, w) ∷ D) d
Within-cons j w D [] h r = tt
Within-cons j w D ((i, state) ∷ d) h r =
    (ground (arith, ==_iff i j, ==_iff j i), Within-cons j w D d (ground arith) r.1)

Within-self : (d : Dict ℕ ToolCallState) → IsDict d → Within d d
Within-self [] h = tt
Within-self ((i, state) ∷ d) h = (rw (==_refl i), Within-cons i state d d h.0 (Within-self d h.1))

-- The checker after the last stop: nothing is open.
pub record Closed (allow : Bool) (c : Checker) (r : Run SseBuilder) : Type 0 where
  pub checker : Checker
  pub accepted : check_events allow c r.events ≡ ok checker
  pub empty : checker.open_blocks ≡ []
  pub seen_same : checker.seen_blocks ≡ c.seen_blocks
  pub ends : r.exit ≡ done

module _ {allow : Bool} (s : SseBuilder) where
  Closed-if :
      (b : Bool) (m n k : Generator SseBuilder) (c : Checker)
      → (b ≡ true → Closed allow c ((m >> k) s))
      → (b ≡ false → Closed allow c ((n >> k) s))
      → Closed allow c (((if b then m else n) >> k) s)
  Closed-if true m n k c hm hn = hm refl
  Closed-if false m n k c hm hn = hn refl

  Closed-skip :
      (k : Generator SseBuilder) (c : Checker)
      → Closed allow c (k s)
      → Closed allow c ((skip >> k) s)
  unfolding ◌>>◌
  Closed-skip k c h = h

  Closed-stop :
      (i : ℕ) (state : ToolCallState) (k : Generator SseBuilder) (c : Checker)
      → get i s.blocks.tool_states ≡ some state
      → has state.block_index c.open_blocks ≡ true
      → Closed allow (closed c state.block_index) (k s)
      → Closed allow c ((stop_tool_block i >> k) s)
  unfolding ◌>>◌ stop_tool_block check_events check_event
  Closed-stop i state k c e h r = rw e (record {
    checker = r.checker;
    accepted = rw h r.accepted;
    empty = r.empty;
    seen_same = r.seen_same;
    ends = r.ends;
  })

  close_tools-Closed :
      (d : Dict ℕ ToolCallState) (c : Checker)
      → Within s.blocks.tool_states d
      → IsDict (tools_live d)
      → ((k : ℤ) → get k c.open_blocks ≡ get k (tools_live d))
      → Closed allow c (close_tools d s)
  unfolding close_tools tools_live check_events
  close_tools-Closed [] c w distinct agree = record {
    checker = c;
    accepted = refl;
    empty = nil_of_get-none c.open_blocks agree;
    seen_same = refl;
    ends = refl;
  }
  close_tools-Closed ((i, state) ∷ d) c w distinct agree =
      Closed-if state.started (stop_tool_block i) skip (close_tools d) c
        (λ e.
          Closed-stop i state (close_tools d) c w.0
            (ground (
              arith,
              agree state.block_index,
              has-get state.block_index c.open_blocks,
              ==_refl state.block_index,
            ))
            (close_tools-Closed d (closed c state.block_index) w.1 (ground arith) (λ k. ground (
              arith,
              get-remove state.block_index k c.open_blocks,
              agree k,
              has-get k (tools_live d),
              ==_iff state.block_index k,
            ))))
        (λ e.
          Closed-skip (close_tools d) c
            (close_tools-Closed d c w.1 (ground arith) (λ k. ground (arith, agree k))))

live_tools :
    (b : ContentBlockManager)
    → b.text_started ≡ false
    → b.thinking_started ≡ false
    → live b ≡ tools_live b.tool_states
unfolding live
live_tools b h h' = ground arith

-- The end of a stream: nothing is open, and something was seen if an index was ever given.
pub record AllClosed (allow : Bool) (next : ℕ) (c : Checker) (r : Run SseBuilder) : Type 0 where
  pub checker : Checker
  pub accepted : check_events allow c r.events ≡ ok checker
  pub empty : checker.open_blocks ≡ []
  pub seen : 0 < next → is_empty checker.seen_blocks ≡ false
  pub fresh : contains (pos next) checker.seen_blocks ≡ false
  pub ends : r.exit ≡ done

AllClosed-resume :
    {allow : Bool} {next : ℕ} (c : Checker) (r : Run SseBuilder) (k : Generator SseBuilder)
    → (h : Ran allow Done c r) → r.state.blocks.next_index ≡ next
    → Closed allow h.checker (k r.state)
    → AllClosed allow next c (resume r.exit r.events r.state k)
AllClosed-resume {allow} {next} c r k h same q = rw h.ends (record {
  checker = q.checker;
  accepted =
      rw (check_events-append allow c r.events (k r.state).events) (rw h.accepted q.accepted);
  empty = q.empty;
  seen = λ lt. rw q.seen_same (h.sync.seen_any (rw same lt));
  fresh = rw q.seen_same (rw (← same) (fresh_seen h.sync));
  ends = q.ends;
})

-- Every block that is open is stopped, and nothing else is.
pub close_all-AllClosed :
    {allow : Bool} (s : SseBuilder) (c : Checker)
    → Sync s.blocks c
    → AllClosed allow s.blocks.next_index c (close_all_blocks s)
unfolding close_all_blocks ◌>>◌
close_all-AllClosed {allow} s c sync =
    let h = close_content-Ran {allow = allow} s c sync in
    let s' = (close_content_blocks s).state in
    AllClosed-resume c (close_content_blocks s) (λ x. close_tools x.blocks.tool_states x) h
      (next_index-close_content s)
      (close_tools-Closed s' s'.blocks.tool_states h.checker
        (Within-self s'.blocks.tool_states h.sync.tools_distinct)
        (rw
          (← live_tools s'.blocks (text_started-close_content s) (thinking_started-close_content s))
          h.sync.live_distinct)
        (λ k.
          rw
            (← live_tools s'.blocks (text_started-close_content s)
              (thinking_started-close_content s))
            (h.sync.agree k)))

pub state-close_tools : (d : Dict ℕ ToolCallState) (s : SseBuilder) → (close_tools d s).state ≡ s
unfolding close_tools stop_tool_block ◌>>◌
state-close_tools [] s = refl
state-close_tools ((i, state) ∷ d) s = ground (arith, state-close_tools d s)
