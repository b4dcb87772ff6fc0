-- ===== src/Chat/FlushKept.antt =====
-- The flush at the end of the stream keeps the driver good.
use vega_claude.Prelude.{
  ℕ, ◌<◌, ◌≡◌, refl, ap, subst, inl, inr, String, Option, none, some, Bool, true, false, not, ◌||◌,
  [], ◌∷◌, Dict, get, has, has-remove, is_empty, string_eq, nat_eq, ◌==◌, ==_iff, ==_refl, arith,
  if◌then◌else◌,
}
use vega_claude.Prelude.Int.{minus_one, int_eq}
use vega_claude.Prelude.Text.{is_null}
use vega_claude.Json.{Value, object, Loaded, loaded, malformed, out_of_range, too_deep, Json}
use vega_claude.Think.{ContentType, ContentChunk, flush}
use vega_claude.Sse.Generator.{done, raised, Exception, Generator, ◌>>◌, skip}
use vega_claude.Sse.Blocks.{ToolCallState}
use vega_claude.Sse.Builder.{SseBuilder, ensure_text_block, emit_text_delta, emit_tool_delta}
use vega_claude.Sse.Contract.{Checker}
use vega_claude.Sse.Sync.{Sync, live}
use vega_claude.Sse.Sync.Ran.{Done}
use vega_claude.Chat.Aliases.{
  Restored, restoring, not_json, fails, restored, restore_value, restore_aliased_tool_arguments,
}
use vega_claude.Chat.State.{HeuristicParser, Driver, on_sse}
use vega_claude.Chat.ToolCalls.{
  tools_of, started_in, or_no_aliases, drop_alias_buffer, flush_restored, flush_alias_in,
  flush_aliases, flush_tool_argument_alias_buffers,
}
use vega_claude.Chat.Stream.{
  write_text, write_thinking, write_rest, flush_parser, flush_heuristic, fill_in,
  has_content_blocks, needs_text, write_tools,
}
use vega_claude.Chat.Kept.{
  Late, In, Kept, Kept-quiet, Kept-skip, Kept-then, Kept-if, Kept-choose, Kept-from,
}
use vega_claude.Chat.ToolDeltas.{delta-Kept}
use vega_claude.Chat.WritesKept.{write_text-Kept, write_thinking-Kept, write_tools-Kept, In-other}

module _ {json : Json} (heuristic : HeuristicParser) (thinking_enabled : Bool) {allow : Bool} where
  write_rest-Kept :
      (o : Option ContentChunk) (s : Driver heuristic.State) (c : Checker)
      → In json s c
      → Kept json allow Done s c (write_rest json heuristic thinking_enabled o s)
  unfolding write_rest
  write_rest-Kept none s c h = Kept-skip s c h refl
  write_rest-Kept (some part) s c h = go part.type
    where
      go :
          (k : ContentType)
          → Kept json allow Done s c (
              (elim k as (λ _. Generator (Driver heuristic.State)) [
                | ContentType.thinking ↦
                    if thinking_enabled then on_sse (write_thinking part.content) else skip
                | ContentType.text ↦ on_sse (write_text part.content)
              ])
                s)
      go ContentType.thinking =
          Kept-choose thinking_enabled _ _ (λ _. write_thinking-Kept refl part.content s c h)
            (λ _. Kept-skip s c h refl)
      go ContentType.text = write_text-Kept refl part.content s c h

  pub flush_parser-Kept :
      (s : Driver heuristic.State) (c : Checker)
      → In json s c
      → Kept json allow Done s c (flush_parser json heuristic thinking_enabled s)
  unfolding flush_parser
  flush_parser-Kept s c h =
      Kept-from _ (λ k e. e) (write_rest-Kept (flush s.think_parser).0 _ c (In-other _ h refl refl))

  pub flush_heuristic-Kept :
      (s : Driver heuristic.State) (c : Checker)
      → In json s c
      → Kept json allow Done s c (flush_heuristic json heuristic thinking_enabled s)
  unfolding flush_heuristic write_tools
  flush_heuristic-Kept s c h =
      write_tools-Kept refl heuristic thinking_enabled (heuristic.flush s.heuristic_parser) s c h

  pub fill_in-Kept :
      (s : Driver heuristic.State) (c : Checker)
      → In json s c
      → Kept json allow Done s c (fill_in json heuristic thinking_enabled s)
  unfolding fill_in
  fill_in-Kept s c h =
      Kept-if
        (not (has_content_blocks json heuristic thinking_enabled s)
          || needs_text json heuristic thinking_enabled s)
        _ _ (λ _. write_text-Kept refl " " s c h) (λ _. Kept-skip s c h refl)

failure : Restored → Exception
failure (fails x) = x
failure _ = Exception.upstream

-- What `json.loads` raised, if it was no `JSONDecodeError`.
restore-Late :
    (json : Json) (aliases : Dict String String) (t : String) (x : Exception)
    → restore_aliased_tool_arguments json aliases t ≡ fails x
    → Late json (raised x)
unfolding restore_aliased_tool_arguments restored failure
restore-Late json aliases t x e = go x (json.loads t) refl e
  where
    go :
        (x : Exception) (o : Loaded)
        → json.loads t ≡ o
        → restored json aliases t o ≡ fails x
        → Late json (raised x)
    go Exception.value_error out_of_range q e = (t, q)
    go Exception.recursion_error too_deep q e = inl (t, q)
    go x malformed q e = cc
    go x (loaded (object d)) q e = written (json.dumps (restore_value aliases (object d))) refl e
      where
        written :
            (o : Option String)
            → json.dumps (restore_value aliases (object d)) ≡ o
            → (elim o as (λ _. Restored) [
              | none ↦ fails Exception.recursion_error
              | some u ↦ restoring u
            ])
              ≡ fails x
            → Late json (raised x)
        written none r f =
            subst (λ y. Late json (raised y)) (ap failure f)
              (inr (restore_value aliases (object d), r))
        written (some u) r f = cc
    go x (loaded Value.null) q e = cc
    go x (loaded (Value.boolean b)) q e = cc
    go x (loaded (Value.number b)) q e = cc
    go x (loaded (Value.string b)) q e = cc
    go x (loaded (Value.array b)) q e = cc
    go Exception.key_error out_of_range q e = cc
    go Exception.attribute_error out_of_range q e = cc
    go Exception.recursion_error out_of_range q e = cc
    go Exception.upstream out_of_range q e = cc
    go Exception.key_error too_deep q e = cc
    go Exception.attribute_error too_deep q e = cc
    go Exception.value_error too_deep q e = cc
    go Exception.upstream too_deep q e = cc

-- A block index was taken for the text.
taken-write_text :
    (t : String) (s : SseBuilder) (c : Checker)
    → Sync s.blocks c
    → 0 < (write_text t s).state.blocks.next_index
unfolding write_text ensure_text_block emit_text_delta live
taken-write_text t s c sync = go s.blocks.text_started refl
  where
    go : (b : Bool) → s.blocks.text_started ≡ b → 0 < (write_text t s).state.blocks.next_index
    go true e = ground (arith, sync.live_any s.blocks.text_index, ==_refl s.blocks.text_index)
    go false e = ground arith

module _ {json : Json} (heuristic : HeuristicParser) (thinking_enabled : Bool) where
  taken :
      (s : Driver heuristic.State) (c : Checker)
      → In json s c
      → has_content_blocks json heuristic thinking_enabled s ≡ true
      → 0 < s.sse.blocks.next_index
  taken s c h e = ground (
    arith,
    h.any,
    h.sync.text_any,
    h.sync.thinking_any,
    ==_iff s.sse.blocks.text_index minus_one,
    ==_iff s.sse.blocks.thinking_index minus_one,
  )

  -- After `fill_in` there was a block.
  pub taken-fill_in :
      (s : Driver heuristic.State) (c : Checker)
      → In json s c
      → 0 < (fill_in json heuristic thinking_enabled s).state.sse.blocks.next_index
  unfolding fill_in
  taken-fill_in s c h =
      go (has_content_blocks json heuristic thinking_enabled s)
        (needs_text json heuristic thinking_enabled s) (taken s c h)
    where
      go :
          (b n : Bool)
          → (b ≡ true → 0 < s.sse.blocks.next_index)
          → 0
            < (if not b || n then on_sse (write_text " ") s else skip s).state.sse.blocks.next_index
      go true true e = taken-write_text " " s.sse c h.sync
      go true false e = e refl
      go false n e = taken-write_text " " s.sse c h.sync

module _ {json : Json} {H : Type 0} {allow : Bool}
    (all_aliases : Dict String (Dict String String)) where
  drop-Kept :
      (i : ℕ) (s : Driver H) (c : Checker)
      → In json s c
      → Kept json allow (Late json) s c (skip (drop_alias_buffer i s))
  drop-Kept i s c h =
      Kept-quiet done _
        (record {
          sync = h.sync;
          any = h.any;
          held = λ k q. ground (arith, has-remove i k s.alias_buffers, h.held k);
          tasks = h.tasks;
        })
        (λ k e. e) tt

  sent-Kept :
      (i : ℕ) (out : String) (s : Driver H) (c : Checker)
      → In json s c
      → started_in (get i (tools_of s)) ≡ true
      → Kept json allow
          (Late json)
          s
          c
          ((on_sse (emit_tool_delta i out) >> (λ s. skip (drop_alias_buffer i s))) s)
  sent-Kept i out s c h e =
      Kept-then (on_sse (emit_tool_delta i out)) (λ s. skip (drop_alias_buffer i s)) s c
        (delta-Kept tt i out s c h e) (λ c' _ g. drop-Kept i _ c' g)

  flush_restored-Kept :
      (i : ℕ) (b : String) (o : Restored) (s : Driver H) (c : Checker)
      → In json s c
      → started_in (get i (tools_of s)) ≡ true
      → ((x : Exception) → o ≡ fails x → Late json (raised x))
      → Kept json allow (Late json) s c (flush_restored json all_aliases i b o s)
  unfolding flush_restored
  flush_restored-Kept i b (fails x) s c h e bad = Kept-quiet (raised x) s h (λ k q. q) (bad x refl)
  flush_restored-Kept i b not_json s c h e bad = sent-Kept i b s c h e
  flush_restored-Kept i b (restoring out) s c h e bad = sent-Kept i out s c h e

  flush_alias-Kept :
      (i : ℕ) (b : String) (o : Option ToolCallState) (s : Driver H) (c : Checker)
      → In json s c
      → started_in (get i (tools_of s)) ≡ true
      → Kept json allow (Late json) s c (flush_alias_in json all_aliases i b o s)
  unfolding flush_alias_in
  flush_alias-Kept i b none s c h x = Kept-skip s c h tt
  flush_alias-Kept i b (some state) s c h x =
      let aliases = or_no_aliases (get state.name all_aliases) in
      Kept-if (state.name == "Task" || is_empty aliases) _ _ (λ _. Kept-skip s c h tt)
        (λ _.
          flush_restored-Kept i b (restore_aliased_tool_arguments json aliases b) s c h x
            (restore-Late json aliases b))

  flush_aliases-Kept :
      (d : Dict ℕ String) (s : Driver H) (c : Checker)
      → In json s c
      → ((i : ℕ) → has i d ≡ true → started_in (get i (tools_of s)) ≡ true)
      → Kept json allow (Late json) s c (flush_aliases json all_aliases d s)
  unfolding flush_aliases
  flush_aliases-Kept [] s c h x = Kept-skip s c h tt
  flush_aliases-Kept ((i, b) ∷ d) s c h x =
      Kept-then (one i b) (flush_aliases json all_aliases d) s c head
        (λ c' _ g. flush_aliases-Kept d _ c' g (λ k e. head.grows k (x k (ground arith))))
    where
      one : ℕ → String → Generator (Driver H)
      one i b s =
          if is_null b
          then skip (drop_alias_buffer i s)
          else flush_alias_in json all_aliases i b (get i (tools_of s)) s

      head : Kept json allow (Late json) s c (one i b s)
      head =
          Kept-if (is_null b) _ _ (λ _. drop-Kept i s c h)
            (λ _. flush_alias-Kept i b (get i (tools_of s)) s c h (x i (ground (arith, ==_refl i))))

  pub flush_alias_buffers-Kept :
      (s : Driver H) (c : Checker)
      → In json s c
      → Kept json allow (Late json) s c (flush_tool_argument_alias_buffers json all_aliases s)
  unfolding flush_tool_argument_alias_buffers
  flush_alias_buffers-Kept s c h = flush_aliases-Kept s.alias_buffers s c h h.held
