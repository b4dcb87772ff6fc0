-- ===== src/Chat/CallsKept.antt =====
-- `_process_tool_call` keeps the driver good.
use vega_claude.Prelude.{
  ℕ, ◌≡◌, refl, ◌∙◌, String, Bool, true, false, not, ◌||◌, ◌&&◌, Dict, get, nat_eq, ==_refl, arith,
  if◌then◌else◌,
}
use vega_claude.Prelude.Int.{pos}
use vega_claude.Prelude.Text.{is_null, strip}
use vega_claude.Json.{Json}
use vega_claude.Sse.Generator.{◌>>◌, skip}
use vega_claude.Sse.Builder.{start_tool_block, start_state}
use vega_claude.Sse.Contract.{Checker}
use vega_claude.Chat.State.{Driver, ToolCallPart, on_sse}
use vega_claude.Chat.ToolCalls.{
  tools_of, set_blocks, started_in, pre_start_in, clear_pre_start, hold_back, name_in, id_in,
  or_empty, or_text, note_id, note_name, call_index, send_pre_start, start_call, send_arguments,
  process_tool_call,
}
use vega_claude.Chat.Kept.{In, Kept, In-Kept, Kept-skip, Kept-then, Kept-if, Kept-from}
use vega_claude.Chat.Quiet.{
  started-put, Quiet-trans, In-Quiet, on_blocks-Kept, note_id-Quiet, note_name-Quiet,
  hold_back-Quiet, clear_pre_start-Quiet,
}
use vega_claude.Chat.ToolDeltas.{start-Kept, started-start_state}
use vega_claude.Chat.TaskDeltas.{Any, tool_arg-Kept}

started-start :
    {H : Type 0} (i : ℕ) (tool_id name : String) (s : Driver H)
    → started_in (get i (tools_of (on_sse (start_tool_block i tool_id name) s).state)) ≡ true
unfolding start_tool_block
started-start i tool_id name s =
    let state = start_state (pos s.sse.blocks.next_index) tool_id name (get i (tools_of s)) in
    ground (
      arith,
      started-put i state (tools_of s) i,
      ==_refl i,
      started-start_state (pos s.sse.blocks.next_index) tool_id name (get i (tools_of s)),
    )

contra : (b n : Bool) → b ≡ false → (not b && n) ≡ false → (n ≡ false → b ≡ true) → ⊥
contra b n x y z = ground arith

module _ {json : Json} {H : Type 0} {allow : Bool}
    (all_aliases : Dict String (Dict String String)) where
  send_pre_start-Kept :
      (i : ℕ) (s : Driver H) (c : Checker)
      → In json s c
      → started_in (get i (tools_of s)) ≡ true
      → Kept json allow Any s c (send_pre_start json all_aliases i s)
  unfolding send_pre_start
  send_pre_start-Kept i s c h x =
      let state = get i (tools_of s) in
      let b = clear_pre_start i state s.sse.blocks in
      let q = clear_pre_start-Quiet {json = json} i s.sse.blocks in
      Kept-if (is_null (pre_start_in state)) _ _ (λ _. Kept-skip s c h tt)
        (λ _.
          Kept-from _ (λ k e. q.same.started_same k ∙ e)
            (tool_arg-Kept all_aliases i (pre_start_in state) (set_blocks b s) c
              (In-Quiet b s c h q) (q.same.started_same i ∙ x)))

  start_call-Kept :
      (i : ℕ) (tool_id name : String) (s : Driver H) (c : Checker)
      → In json s c
      → Kept json allow Any s c (start_call json all_aliases i tool_id name s)
  unfolding start_call
  start_call-Kept i tool_id name s c h =
      Kept-if (started_in (get i (tools_of s)) || is_null (strip name)) _ _
        (λ _. Kept-skip s c h tt)
        (λ e.
          Kept-then (on_sse (start_tool_block i tool_id (strip name)))
            (send_pre_start json all_aliases i) s c
            (start-Kept tt i tool_id (strip name) s c h (ground arith))
            (λ c' _ g. send_pre_start-Kept i _ c' g (started-start i tool_id (strip name) s)))

module _ {json : Json} {H : Type 0} (allow : Bool)
    (all_aliases : Dict String (Dict String String)) where
  after_start :
      (i : ℕ) (tool_id name : String) (s : Driver H) (c : Checker)
      → In json s c
      → started_in (get i (tools_of s)) ≡ false
      → started_in (
          get i (
            tools_of
              ((on_sse (start_tool_block i tool_id name) >> send_pre_start json all_aliases i)
                s).state))
        ≡ true
  unfolding ◌>>◌ start_tool_block
  after_start i tool_id name s c h e =
      let k = start-Kept {allow = allow} {P = Any} tt i tool_id name s c h e in
      (send_pre_start-Kept {allow = allow} all_aliases i _ k.checker (In-Kept _ k refl)
          (started-start i tool_id name s)).grows
        i (started-start i tool_id name s)

  -- After it a call with a name is started.
  start_call-started :
      (i : ℕ) (tool_id name : String) (s : Driver H) (c : Checker)
      → In json s c
      → is_null (strip name) ≡ false
      → started_in (get i (tools_of (start_call json all_aliases i tool_id name s).state)) ≡ true
  unfolding start_call
  start_call-started i tool_id name s c h n = go (started_in (get i (tools_of s))) refl
    where
      go :
          (b : Bool)
          → started_in (get i (tools_of s)) ≡ b
          → started_in (
              get i (
                tools_of
                  (if b || is_null (strip name)
                    then skip s
                    else (on_sse (start_tool_block i tool_id (strip name))
                          >> send_pre_start json all_aliases i)
                        s).state))
            ≡ true
      go true e = e
      go false e = rw n (after_start i tool_id (strip name) s c h e)

module _ {json : Json} {H : Type 0} {allow : Bool}
    (all_aliases : Dict String (Dict String String)) where
  send_arguments-Kept :
      (i : ℕ) (name args : String) (s : Driver H) (c : Checker)
      → In json s c
      → (is_null (strip name) ≡ false → started_in (get i (tools_of s)) ≡ true)
      → Kept json allow Any s c (send_arguments json all_aliases i name args s)
  unfolding send_arguments
  send_arguments-Kept i name args s c h x =
      let started = started_in (get i (tools_of s)) in
      Kept-if (is_null args) _ _ (λ _. Kept-skip s c h tt)
        (λ _.
          Kept-if (not started && is_null (strip name)) _ _
            (λ _. on_blocks-Kept (hold_back i args) s c h (hold_back-Quiet i args s.sse.blocks) tt)
            (λ e.
              Kept-if started _ _ (λ y. tool_arg-Kept all_aliases i args s c h y)
                (λ y. absurd (contra started (is_null (strip name)) y e x))))

  pub process_tool_call-Kept :
      (tc : ToolCallPart) (s : Driver H) (c : Checker)
      → In json s c
      → Kept json allow Any s c (process_tool_call json all_aliases tc s)
  unfolding process_tool_call
  process_tool_call-Kept tc s c h =
      let i = call_index tc.index s in
      let b = note_name i tc.name (note_id i tc.id s.sse.blocks) in
      let q =
        Quiet-trans {json = json} (note_id-Quiet i tc.id s.sse.blocks)
          (note_name-Quiet i tc.name (note_id i tc.id s.sse.blocks)) in
      let t = set_blocks b s in
      let g = In-Quiet b s c h q in
      let state = get i b.tool_states in
      let tool_id = or_text (or_text (id_in state) (or_empty tc.id)) tc.uuid in
      let name = name_in state in
      Kept-from _ (λ k e. q.same.started_same k ∙ e)
        (Kept-then (start_call json all_aliases i tool_id name)
          (send_arguments json all_aliases i name (or_empty tc.arguments)) t c
          (start_call-Kept all_aliases i tool_id name t c g)
          (λ c' _ g'.
            send_arguments-Kept i name (or_empty tc.arguments) _ c' g'
              (start_call-started allow all_aliases i tool_id name t c g)))
