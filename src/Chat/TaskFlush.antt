-- ===== src/Chat/TaskFlush.antt =====
-- The Task arguments that wait are no JSON, so their flush raises nothing.
use vega_claude.Prelude.{
  ℕ, ◌≡◌, refl, ◌∙◌, String, Option, none, some, Bool, true, false, ◌||◌, List, [], ◌∷◌, Dict,
  IsDict, inl, All, get, has, has-get, nat_eq, ==_iff, ==_refl, arith, if◌then◌else◌,
}
use vega_claude.Prelude.Text.{is_null}
use vega_claude.Json.{Loaded, loaded, malformed, out_of_range, too_deep, value_of, Json}
use vega_claude.Sse.Generator.{Exit, done, raised, Exception, recursion_error, resume}
use vega_claude.Sse.Blocks.{ToolCallState, ContentBlockManager, any_started}
use vega_claude.Sse.TaskArgs.{
  sends, raises, Flushed, flush_one, flush_value, flush_states, flush_task_arg_buffers,
}
use vega_claude.Sse.Builder.{emit_tool_delta}
use vega_claude.Sse.Contract.{Checker}
use vega_claude.Sse.Sync.{live, tools_live}
use vega_claude.Chat.State.{Driver, on_sse}
use vega_claude.Chat.ToolCalls.{tools_of, set_blocks, started_in, send_flushed, flush_task_args}
use vega_claude.Chat.Kept.{
  TaskWaits, Tasks, Late, Grows, In, Kept, Kept-quiet, Kept-skip, Kept-then, Kept-from,
}
use vega_claude.Chat.Quiet.{Same, In-Quiet}
use vega_claude.Chat.ToolDeltas.{delta-Kept}

abbrev Started : Dict ℕ ToolCallState → List (ℕ × String) → Type 0
Started d results = All (λ p. started_in (get p.0 d) ≡ true) results

-- What the flush leaves: the same blocks are open.
record Swept (json : Json) (d : Dict ℕ ToolCallState) (f : Flushed json) : Type 0 where
  ends : Late json f.exit
  live_same : tools_live f.states ≡ tools_live d
  has_same : (i : ℕ) → has i f.states ≡ has i d
  started_same : (i : ℕ) → started_in (get i f.states) ≡ started_in (get i d)
  any_same : any_started f.states ≡ any_started d
  distinct : IsDict d → IsDict f.states
  tasks : Tasks json d → Tasks json f.states
  results : IsDict d → Started d f.results

Started-cons :
    (j : ℕ) (state : ToolCallState) (d : Dict ℕ ToolCallState) (rs : List (ℕ × String))
    → has j d ≡ false
    → Started d rs
    → Started ((j, state) ∷ d) rs
Started-cons j state d [] n h = tt
Started-cons j state d ((i, out) ∷ rs) n h =
    (go (get i d) refl h.0, Started-cons j state d rs n h.1)
  where
    go :
        (o : Option ToolCallState)
        → get i d ≡ o
        → started_in o ≡ true
        → started_in (get i ((j, state) ∷ d)) ≡ true
    go none e x = cc
    go (some w) e x = ground (arith, has-get i d, ==_iff j i)

Started-Grows :
    (d d' : Dict ℕ ToolCallState) (rs : List (ℕ × String))
    → Grows d d'
    → Started d rs
    → Started d' rs
Started-Grows d d' [] g x = tt
Started-Grows d d' ((i, out) ∷ rs) g x = (g i x.0, Started-Grows d d' rs g x.1)

module _ (json : Json) where
  Swept-cons :
      (i : ℕ) (state state' : ToolCallState) (d : Dict ℕ ToolCallState) (rest : Flushed json)
      (rs : List (ℕ × String))
      → Swept json d rest
      → state'.started ≡ state.started
      → state'.block_index ≡ state.block_index
      → (TaskWaits json state → TaskWaits json state')
      → (IsDict d → has i d ≡ false → Started ((i, state) ∷ d) rs)
      → Swept json
          ((i, state) ∷ d)
          (record { exit = rest.exit; results = rs; states = (i, state') ∷ rest.states })
  unfolding tools_live
  Swept-cons i state state' d rest rs h same placed waits started = record {
    ends = h.ends;
    live_same = rw (same, placed, h.live_same) refl;
    has_same = λ k. ground (arith, h.has_same k);
    started_same = λ k. ground (arith, h.started_same k);
    any_same = rw (same, h.any_same) refl;
    distinct = λ q. (h.has_same i ∙ q.0, h.distinct q.1);
    tasks = λ q. (waits q.0, h.tasks q.1);
    results = λ q. started q.1 q.0;
  }

  Swept-sent :
      (i : ℕ) (state : ToolCallState) (d : Dict ℕ ToolCallState) (out : String)
      → state.started ≡ true
      → Swept json d (flush_states json d)
      → Swept json ((i, state) ∷ d) (flush_one json i state d (sends out) (flush_states json d))
  unfolding flush_one
  Swept-sent i state d out started h =
      Swept-cons i state (record state { task_args_emitted = true; task_arg_buffer = "" }) d
        (flush_states json d) _ h refl refl (λ q x. cc)
        (λ q n. (rw (==_refl i) started, Started-cons i state d _ n (h.results q)))

  Swept-raised :
      (i : ℕ) (state : ToolCallState) (d : Dict ℕ ToolCallState) (x : Exception)
      → Tasks json ((i, state) ∷ d)
      → Late json (raised x)
      → Swept json ((i, state) ∷ d) (flush_one json i state d (raises x) (flush_states json d))
  unfolding flush_one
  Swept-raised i state d x w late = record {
    ends = late;
    live_same = refl;
    has_same = λ i. refl;
    started_same = λ i. refl;
    any_same = refl;
    distinct = λ q. q;
    tasks = λ q. q;
    results = λ q. tt;
  }

  flush_states-Swept :
      (d : Dict ℕ ToolCallState) → Tasks json d → Swept json d (flush_states json d)
  unfolding flush_states tools_live
  flush_states-Swept [] w = record {
    ends = tt;
    live_same = refl;
    has_same = λ i. refl;
    started_same = λ i. refl;
    any_same = refl;
    distinct = λ q. q;
    tasks = λ q. q;
    results = λ q. tt;
  }
  flush_states-Swept ((i, state) ∷ d) w =
      go (is_null state.task_arg_buffer || state.task_args_emitted) refl (flush_states-Swept d w.1)
    where
      refused :
          state.started ≡ true
          → (o : Loaded) → json.loads state.task_arg_buffer ≡ o
          → value_of o ≡ none
          → Swept json d (flush_states json d)
          → Swept json
              ((i, state) ∷ d)
              (flush_one json i state d (flush_value json o) (flush_states json d))
      refused started (loaded v) e bad h = cc
      refused started malformed e bad h = Swept-sent i state d "{}" started h
      refused started out_of_range e bad h = Swept-sent i state d "{}" started h
      refused started too_deep e bad h =
          Swept-raised i state d recursion_error w (inl (state.task_arg_buffer, e))

      go :
          (b : Bool)
          → (is_null state.task_arg_buffer || state.task_args_emitted) ≡ b
          → Swept json d (flush_states json d)
          → let rest = flush_states json d in
            Swept json ((i, state) ∷ d) (
              if b
              then record {
                exit = rest.exit;
                results = rest.results;
                states = (i, state) ∷ rest.states;
              }
              else flush_one json i state d
                  (flush_value json (json.loads state.task_arg_buffer))
                  rest)
      go true e h =
          Swept-cons i state state d (flush_states json d) _ h refl refl (λ q. q)
            (λ q n. Started-cons i state d _ n (h.results q))
      go false e h =
          let (started, bad) = w.0 (ground arith) in
          refused started (json.loads state.task_arg_buffer) refl bad h

module _ {json : Json} {H : Type 0} {allow : Bool} where
  send_flushed-Kept :
      (rs : List (ℕ × String)) (s : Driver H) (c : Checker)
      → In json s c
      → Started (tools_of s) rs
      → Kept json allow (Late json) s c (send_flushed json rs s)
  unfolding send_flushed
  send_flushed-Kept [] s c h x = Kept-skip s c h tt
  send_flushed-Kept ((i, out) ∷ rs) s c h x =
      let head = delta-Kept {allow = allow} {P = Late json} tt i out s c h x.0 in
      Kept-then (on_sse (emit_tool_delta i out)) (send_flushed json rs) s c head
        (λ c' _ g. send_flushed-Kept rs _ c' g (Started-Grows _ _ rs head.grows x.1))

  pub flush_task_args-Kept :
      (s : Driver H) (c : Checker)
      → In json s c
      → Kept json allow (Late json) s c (flush_task_args json s)
  unfolding flush_task_args flush_task_arg_buffers live
  flush_task_args-Kept s c h =
      let f = flush_states json (tools_of s) in
      let q = flush_states-Swept json (tools_of s) h.tasks in
      let b : ContentBlockManager = record (s.sse.blocks) { tool_states = f.states } in
      let same : Same s.sse.blocks b = record {
        next_same = refl;
        text_same = refl;
        thinking_same = refl;
        live_same = rw (q.live_same) refl;
        distinct = q.distinct;
        started_same = q.started_same;
        any_same = q.any_same;
      } in
      let g : In json (set_blocks b s) c =
        In-Quiet b s c h (record { same = same; tasks = q.tasks }) in
      Kept-from _ (λ k e. q.started_same k ∙ e)
        (go f.exit q.ends (set_blocks b s) g (
          Started-Grows _ _ f.results (λ k e. q.started_same k ∙ e)
            (q.results h.sync.tools_distinct)))
    where
      go :
          (x : Exit)
          → Late json x
          → (t : Driver H) → In json t c
          → Started (tools_of t) (flush_states json (tools_of s)).results
          → Kept json allow
              (Late json)
              t
              c
              (resume x [] t (send_flushed json (flush_states json (tools_of s)).results))
      go done late t g r = send_flushed-Kept (flush_states json (tools_of s)).results t c g r
      go (raised x) late t g r = Kept-quiet (raised x) t g (λ k e. e) late
