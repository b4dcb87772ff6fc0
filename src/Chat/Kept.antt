-- ===== src/Chat/Kept.antt =====
-- What holds of the driver between two events, and generators that keep it.
use vega_claude.Prelude.{
  ℕ, ◌≤◌, ◌<◌, ◌≡◌, refl, sym, ap, ◌∙◌, subst, none, ◌⊎◌, String, Bool, true, false, List, [], Dict,
  get, has, All, nat_eq, arith, if◌then◌else◌,
}
use vega_claude.Prelude.Text.{is_null}
use vega_claude.Json.{Value, out_of_range, too_deep, value_of, Json}
use vega_claude.Sse.Event.{Event}
use vega_claude.Sse.Generator.{
  Exit, done, raised, value_error, recursion_error, Run, Generator, ◌>>◌, resume, skip,
}
use vega_claude.Sse.Blocks.{ToolCallState, any_started}
use vega_claude.Sse.Builder.{SseBuilder}
use vega_claude.Sse.Contract.{Checker, ok, check_events}
use vega_claude.Sse.Sync.{Sync}
use vega_claude.Sse.Sync.Ran.{Ran, check_events-append}
use vega_claude.Chat.State.{Driver, on_sse}
use vega_claude.Chat.ToolCalls.{tools_of, started_in}

-- Arguments wait only for a block that is started, and only while `json.loads` refuses them.
abbrev pub TaskWaits : Json → ToolCallState → Type 0
TaskWaits json state =
    is_null state.task_arg_buffer ≡ false
    → (state.started ≡ true) × (value_of (json.loads state.task_arg_buffer) ≡ none)

abbrev pub Tasks : Json → Dict ℕ ToolCallState → Type 0
Tasks json d = All (λ p. TaskWaits json p.1) d

-- The recursion limit is met by some text or value.
abbrev pub TooDeep : Json → Type 0
TooDeep json = ((t : String) × (json.loads t ≡ too_deep)) ⊎ ((v : Value) × (json.dumps v ≡ none))

-- How a step after the driver's `try` may end: by itself, or by an exception of `json.loads` that is
-- not caught.
abbrev pub Late : Json → Exit → Type 0
Late json done = Unit
Late json (raised value_error) = (t : String) × (json.loads t ≡ out_of_range)
Late json (raised recursion_error) = TooDeep json
Late json (raised x) = ⊥

abbrev pub Grows : Dict ℕ ToolCallState → Dict ℕ ToolCallState → Type 0
Grows d d' = (i : ℕ) → started_in (get i d) ≡ true → started_in (get i d') ≡ true

module _ (json : Json) {H : Type 0} where
  pub record In (s : Driver H) (c : Checker) : Type 0 where
    pub sync : Sync s.sse.blocks c
    pub any : any_started (tools_of s) ≡ true → 0 < s.sse.blocks.next_index
    pub held : (i : ℕ) → has i s.alias_buffers ≡ true → started_in (get i (tools_of s)) ≡ true
    pub tasks : Tasks json (tools_of s)

  -- The checker accepts the events of a run that began in `s`, and the state after it is good; if
  -- the run raised an exception, then but for the Task arguments.
  pub record Kept (allow : Bool) (P : Exit → Type 0) (s : Driver H) (c : Checker)
      (r : Run (Driver H)) : Type 0 where
    pub checker : Checker
    pub accepted : check_events allow c r.events ≡ ok checker
    pub sync : Sync r.state.sse.blocks checker
    pub any : any_started (tools_of r.state) ≡ true → 0 < r.state.sse.blocks.next_index
    pub held :
        (i : ℕ) → has i r.state.alias_buffers ≡ true → started_in (get i (tools_of r.state)) ≡ true
    pub tasks : r.exit ≡ done → Tasks json (tools_of r.state)
    pub grows : Grows (tools_of s) (tools_of r.state)
    pub ends : P r.exit

module _ {json : Json} {H : Type 0} {allow : Bool} {P : Exit → Type 0} where
  pub In-Kept :
      {s : Driver H} {c : Checker} (r : Run (Driver H)) (k : Kept json allow P s c r)
      → r.exit ≡ done
      → In json r.state k.checker
  In-Kept r k e = record { sync = k.sync; any = k.any; held = k.held; tasks = k.tasks e }

  -- A run that yields nothing.
  pub Kept-quiet :
      {s : Driver H} {c : Checker} (x : Exit) (t : Driver H)
      → In json t c
      → Grows (tools_of s) (tools_of t)
      → P x
      → Kept json allow P s c (record { exit = x; state = t; events = [] })
  unfolding check_events
  Kept-quiet {s} {c} x t h g p = record {
    checker = c;
    accepted = refl;
    sync = h.sync;
    any = h.any;
    held = h.held;
    tasks = λ e. h.tasks;
    grows = g;
    ends = p;
  }

  pub Kept-skip :
      (s : Driver H) (c : Checker) → In json s c → P done → Kept json allow P s c (skip s)
  Kept-skip s c h p = Kept-quiet done s h (λ i e. e) p

  pub Kept-resume :
      (x : Exit) (es : List Event) (s t : Driver H) (c : Checker) (k : Generator (Driver H))
      → Kept json allow P s c (record { exit = x; state = t; events = es })
      → ((c' : Checker) → x ≡ done → In json t c' → Kept json allow P t c' (k t))
      → Kept json allow P s c (resume x es t k)
  Kept-resume done es s t c k r rest =
      let q = rest r.checker refl (In-Kept _ r refl) in
      record {
        checker = q.checker;
        accepted = rw (check_events-append allow c es (k t).events) (rw r.accepted q.accepted);
        sync = q.sync;
        any = q.any;
        held = q.held;
        tasks = q.tasks;
        grows = λ i e. q.grows i (r.grows i e);
        ends = q.ends;
      }
  Kept-resume (raised x) es s t c k r rest = r

  pub Kept-then :
      (m k : Generator (Driver H)) (s : Driver H) (c : Checker)
      → Kept json allow P s c (m s)
      → ((c' : Checker)
          → (m s).exit ≡ done
          → In json (m s).state c'
          → Kept json allow P (m s).state c' (k (m s).state))
      → Kept json allow P s c ((m >> k) s)
  unfolding ◌>>◌
  Kept-then m k s c r rest = Kept-resume (m s).exit (m s).events s (m s).state c k r rest

  pub Kept-if :
      {s : Driver H} {c : Checker} (t : Bool) (r q : Run (Driver H))
      → (t ≡ true → Kept json allow P s c r)
      → (t ≡ false → Kept json allow P s c q)
      → Kept json allow P s c (if t then r else q)
  Kept-if true r q hr hq = hr refl
  Kept-if false r q hr hq = hq refl

  pub Kept-choose :
      {s : Driver H} {c : Checker} (t : Bool) (m k : Generator (Driver H))
      → (t ≡ true → Kept json allow P s c (m s))
      → (t ≡ false → Kept json allow P s c (k s))
      → Kept json allow P s c ((if t then m else k) s)
  Kept-choose true m k hm hk = hm refl
  Kept-choose false m k hm hk = hk refl

  -- The same from a state with the same tools.
  pub Kept-from :
      {s t : Driver H} {c : Checker} (r : Run (Driver H))
      → Grows (tools_of t) (tools_of s)
      → Kept json allow P s c r
      → Kept json allow P t c r
  Kept-from r g k = record {
    checker = k.checker;
    accepted = k.accepted;
    sync = k.sync;
    any = k.any;
    held = k.held;
    tasks = k.tasks;
    grows = λ i e. k.grows i (g i e);
    ends = k.ends;
  }

  -- A method of the builder.
  pub on_sse-Kept :
      (m : Generator SseBuilder) (s : Driver H) (c : Checker)
      → In json s c
      → Ran allow P c (m s.sse)
      → (any_started (m s.sse).state.blocks.tool_states ≡ true
          → 0 < (m s.sse).state.blocks.next_index)
      → Grows (tools_of s) (m s.sse).state.blocks.tool_states
      → Tasks json (m s.sse).state.blocks.tool_states
      → Kept json allow P s c (on_sse m s)
  on_sse-Kept m s c h r any grows tasks = record {
    checker = r.checker;
    accepted = r.accepted;
    sync = r.sync;
    any = any;
    held = λ i e. grows i (h.held i e);
    tasks = λ e. tasks;
    grows = grows;
    ends = r.ends;
  }

  -- A method that leaves the tools alone.
  pub on_sse-same :
      (m : Generator SseBuilder) (s : Driver H) (c : Checker)
      → In json s c
      → Ran allow P c (m s.sse)
      → (m s.sse).state.blocks.tool_states ≡ tools_of s
      → s.sse.blocks.next_index ≤ (m s.sse).state.blocks.next_index
      → Kept json allow P s c (on_sse m s)
  on_sse-same m s c h r same le =
      on_sse-Kept m s c h r (λ e. let q = h.any (sym (ap any_started same) ∙ e) in omega arith)
        (λ i e. subst (λ d. started_in (get i d) ≡ true) (sym same) e)
        (subst (Tasks json) (sym same) h.tasks)
