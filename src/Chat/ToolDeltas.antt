-- ===== src/Chat/ToolDeltas.antt =====
-- Arguments of a started tool, and its start, keep the driver good.
use Prim.Native.String.{◌++◌}
use vega_claude.Prelude.{
  subst, ℕ, ◌≡◌, refl, sym, String, Option, none, some, Bool, true, false, ◌||◌, List, [], ◌∷◌,
  Dict, get, has-put, has-remove, nat_eq, string_eq, ==_iff, ◌==◌, arith, if◌then◌else◌,
}
use vega_claude.Prelude.Int.{ℤ, pos}
use vega_claude.Json.{Json}
use vega_claude.Sse.Generator.{Exit, done, raised, Exception}
use vega_claude.Sse.Blocks.{ToolCallState, any_started}
use vega_claude.Sse.Builder.{start_tool_block, start_state, emit_tool_delta}
use vega_claude.Sse.Contract.{Checker}
use vega_claude.Sse.Sync.Ran.{Done, Ran-weaken}
use vega_claude.Sse.Sync.Tools.{slot}
use vega_claude.Sse.Sync.Steps.{start_tool-Ran}
use vega_claude.Sse.Sync.Compound.{tool_delta-Ran}
use mathlib.Core.List
use vega_claude.Chat.Aliases.{Restored, restoring, not_json, fails, restore_aliased_tool_arguments}
use vega_claude.Chat.State.{Driver, on_sse}
use vega_claude.Chat.ToolCalls.{
  tools_of, started_in, send_restored, aliased_delta, set_alias_buffer, drop_alias_buffer, or_empty,
}
use vega_claude.Chat.Kept.{TaskWaits, Tasks, In, Kept, Kept-quiet, Kept-from, on_sse-Kept}
use vega_claude.Chat.Quiet.{started-put, Tasks-put, Tasks-get}

abbrev snoc : List String → String → List String
snoc xs x = List.◌++◌ xs (x ∷ [])

slot_of_unstarted : (o : Option ToolCallState) → started_in o ≡ false → slot o ≡ none
slot_of_unstarted none h = refl
slot_of_unstarted (some state) h = ground arith

start_state-TaskWaits :
    (json : Json) (k : ℤ) (tool_id name : String) (d : Dict ℕ ToolCallState) (i : ℕ)
    (o : Option ToolCallState)
    → get i d ≡ o
    → Tasks json d
    → TaskWaits json (start_state k tool_id name o)
unfolding start_state
start_state-TaskWaits json k tool_id name d i none e h x = cc
start_state-TaskWaits json k tool_id name d i (some state) e h x =
    (refl, (Tasks-get json i state d e h x).1)

pub started-start_state :
    (k : ℤ) (tool_id name : String) (o : Option ToolCallState)
    → (start_state k tool_id name o).started ≡ true
unfolding start_state
started-start_state k tool_id name none = refl
started-start_state k tool_id name (some state) = refl

any_started-get :
    (i : ℕ) (d : Dict ℕ ToolCallState) → started_in (get i d) ≡ true → any_started d ≡ true
any_started-get i [] h = cc
any_started-get i ((j, old) ∷ d) h = go (j == i) h (any_started-get i d)
  where
    go :
        (b : Bool)
        → started_in (if b then some old else get i d) ≡ true
        → (started_in (get i d) ≡ true → any_started d ≡ true)
        → (old.started || any_started d) ≡ true
    go true q r = ground arith
    go false q r = ground (arith, r q)

pub weak : (P : Exit → Type 0) → P done → (x : Exit) → Done x → P x
weak P p x e = subst P (sym e) p

module _ {json : Json} {H : Type 0} {allow : Bool} {P : Exit → Type 0} (p : P done) where
  pub delta-Kept :
      (i : ℕ) (t : String) (s : Driver H) (c : Checker)
      → In json s c
      → started_in (get i (tools_of s)) ≡ true
      → Kept json allow P s c (on_sse (emit_tool_delta i t) s)
  unfolding emit_tool_delta
  delta-Kept i t s c h e = go (get i (tools_of s)) refl e
    where
      go :
          (o : Option ToolCallState)
          → get i (tools_of s) ≡ o
          → started_in o ≡ true
          → Kept json allow P s c (on_sse (emit_tool_delta i t) s)
      go none q x = cc
      go (some state) q x =
          let state' : ToolCallState = record state { contents = snoc state.contents t } in
          on_sse-Kept (emit_tool_delta i t) s c h
            (Ran-weaken _ (weak P p) (tool_delta-Ran i t state s.sse c h.sync q x))
            (λ a. rw q (h.any (any_started-get i (tools_of s) e)))
            (λ k b. rw q (ground (arith, started-put i state' (tools_of s) k, ==_iff i k)))
            (rw q (
              Tasks-put json i state' (tools_of s) (Tasks-get json i state (tools_of s) q h.tasks)
                h.tasks))

  pub start-Kept :
      (i : ℕ) (tool_id name : String) (s : Driver H) (c : Checker)
      → In json s c
      → started_in (get i (tools_of s)) ≡ false
      → Kept json allow P s c (on_sse (start_tool_block i tool_id name) s)
  unfolding start_tool_block
  start-Kept i tool_id name s c h e =
      let k : ℤ = pos s.sse.blocks.next_index in
      let state = start_state k tool_id name (get i (tools_of s)) in
      on_sse-Kept (start_tool_block i tool_id name) s c h
        (Ran-weaken _ (weak P p)
          (start_tool-Ran s.sse c h.sync i tool_id name (slot_of_unstarted (get i (tools_of s)) e)))
        (λ a. omega arith)
        (λ j b. ground (
          arith,
          started-put i state (tools_of s) j,
          started-start_state k tool_id name (get i (tools_of s)),
        ))
        (Tasks-put json i state (tools_of s)
          (start_state-TaskWaits json k tool_id name (tools_of s) i (get i (tools_of s)) refl
            h.tasks)
          h.tasks)

  pub aliased-Kept :
      (aliases : Dict String String) (i : ℕ) (t : String) (s : Driver H) (c : Checker)
      → In json s c
      → started_in (get i (tools_of s)) ≡ true
      → ((x : Exception) → P (raised x))
      → Kept json allow P s c (aliased_delta json aliases i t s)
  unfolding aliased_delta
  aliased-Kept aliases i t s c h e bad =
      go (or_empty (get i s.alias_buffers) ++ t)
        (restore_aliased_tool_arguments json aliases (or_empty (get i s.alias_buffers) ++ t))
    where
      go : (b : String) (o : Restored) → Kept json allow P s c (send_restored json i b o s)
      go b (fails x) = Kept-quiet (raised x) s h (λ k q. q) (bad x)
      go b not_json =
          Kept-quiet done (set_alias_buffer i b s)
            (record {
              sync = h.sync;
              any = h.any;
              held = λ k q. ground (arith, has-put i k b s.alias_buffers, h.held k, ==_iff i k);
              tasks = h.tasks;
            })
            (λ k q. q) p
      go b (restoring r) =
          Kept-from _ (λ k q. q)
            (delta-Kept i r (drop_alias_buffer i s) c
              (record {
                sync = h.sync;
                any = h.any;
                held = λ k q. ground (arith, has-remove i k s.alias_buffers, h.held k);
                tasks = h.tasks;
              })
              e)
