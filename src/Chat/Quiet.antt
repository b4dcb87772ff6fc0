-- ===== src/Chat/Quiet.antt =====
-- Changes of the tool states that open and close nothing.
use vega_claude.Prelude.{
  subst, ℕ, ◌≡◌, refl, sym, ap, ◌∙◌, String, Option, none, some, Bool, true, false, [], ◌∷◌, Dict,
  get, has, put, has-get, get-put, put-IsDict, IsDict, nat_eq, ==_iff, ==_refl, ◌==◌, arith,
  if◌then◌else◌,
}
use Prim.Native.String.{◌++◌}
use mathlib.Core.Option.{some-injective}
use vega_claude.Prelude.Text.{is_null}
use vega_claude.Json.{Json}
use vega_claude.Sse.Generator.{Exit, done}
use vega_claude.Sse.Blocks.{
  ToolCallState, ContentBlockManager, put_tool, any_started, set_stream_tool_id, register_tool_name,
  ensure_tool_state, or_fresh, register_in,
}
use vega_claude.Sse.Contract.{Checker}
use vega_claude.Sse.Sync.{Sync-same, live}
use vega_claude.Sse.Sync.Tools.{slot, tools_live-put_same}
use vega_claude.Chat.State.{Driver}
use vega_claude.Chat.ToolCalls.{
  set_blocks, on_blocks, started_in, note_id, note_name, hold_back, clear_pre_start,
}
use vega_claude.Chat.Kept.{TaskWaits, Tasks, In, Kept, Kept-quiet}

pub started-slot : (o o' : Option ToolCallState) → slot o ≡ slot o' → started_in o ≡ started_in o'
started-slot none none h = refl
started-slot none (some y) h = ground arith
started-slot (some x) none h = ground arith
started-slot (some x) (some y) h = ground arith

pub started-put :
    (i : ℕ) (state : ToolCallState) (d : Dict ℕ ToolCallState) (k : ℕ)
    → started_in (get k (put i state d)) ≡ (if i == k then state.started else started_in (get k d))
started-put i state d k = rw (get-put i k state d) (go (i == k))
  where
    go :
        (b : Bool)
        → started_in (if b then some state else get k d)
          ≡ (if b then state.started else started_in (get k d))
    go true = refl
    go false = refl

pub any_started-put_same :
    (i : ℕ) (state : ToolCallState) (d : Dict ℕ ToolCallState)
    → started_in (get i d) ≡ state.started
    → any_started (put i state d) ≡ any_started d
any_started-put_same i state [] h = ground arith
any_started-put_same i state ((j, old) ∷ d) h = ground (arith, any_started-put_same i state d)

pub Tasks-put :
    (json : Json) (i : ℕ) (state : ToolCallState) (d : Dict ℕ ToolCallState)
    → TaskWaits json state
    → Tasks json d
    → Tasks json (put i state d)
Tasks-put json i state [] w h = (w, tt)
Tasks-put json i state ((j, old) ∷ d) w h = go (j == i) (Tasks-put json i state d w h.1)
  where
    go :
        (b : Bool)
        → Tasks json (put i state d)
        → Tasks json (if b then (j, state) ∷ d else (j, old) ∷ put i state d)
    go true r = (w, h.1)
    go false r = (h.0, r)

pub Tasks-get :
    (json : Json) (i : ℕ) (state : ToolCallState) (d : Dict ℕ ToolCallState)
    → get i d ≡ some state
    → Tasks json d
    → TaskWaits json state
Tasks-get json i state [] e h = cc
Tasks-get json i state ((j, old) ∷ d) e h = go (j == i) e (λ q. Tasks-get json i state d q h.1)
  where
    go :
        (b : Bool)
        → (if b then some old else get i d) ≡ some state
        → (get i d ≡ some state → TaskWaits json state)
        → TaskWaits json state
    go true q r = subst (TaskWaits json) (some-injective old state q) h.0
    go false q r = r q

-- The second manager has the same blocks open.
pub record Same (b b' : ContentBlockManager) : Type 0 where
  pub next_same : b'.next_index ≡ b.next_index
  pub text_same : b'.text_index ≡ b.text_index
  pub thinking_same : b'.thinking_index ≡ b.thinking_index
  pub live_same : live b' ≡ live b
  pub distinct : IsDict b.tool_states → IsDict b'.tool_states
  pub started_same : (i : ℕ) → started_in (get i b'.tool_states) ≡ started_in (get i b.tool_states)
  pub any_same : any_started b'.tool_states ≡ any_started b.tool_states

pub record Quiet (json : Json) (b b' : ContentBlockManager) : Type 0 where
  pub same : Same b b'
  pub tasks : Tasks json b.tool_states → Tasks json b'.tool_states

pub Same-refl : (b : ContentBlockManager) → Same b b
Same-refl b = record {
  next_same = refl;
  text_same = refl;
  thinking_same = refl;
  live_same = refl;
  distinct = λ h. h;
  started_same = λ i. refl;
  any_same = refl;
}

pub Same-trans : {a b c : ContentBlockManager} → Same a b → Same b c → Same a c
Same-trans p q = record {
  next_same = q.next_same ∙ p.next_same;
  text_same = q.text_same ∙ p.text_same;
  thinking_same = q.thinking_same ∙ p.thinking_same;
  live_same = q.live_same ∙ p.live_same;
  distinct = λ h. q.distinct (p.distinct h);
  started_same = λ i. q.started_same i ∙ p.started_same i;
  any_same = q.any_same ∙ p.any_same;
}

pub Same-put :
    (i : ℕ) (state : ToolCallState) (b : ContentBlockManager)
    → slot (get i b.tool_states) ≡ slot (some state)
    → Same b (put_tool i state b)
unfolding live
Same-put i state b same = record {
  next_same = refl;
  text_same = refl;
  thinking_same = refl;
  live_same = rw (tools_live-put_same i state b.tool_states same) refl;
  distinct = put-IsDict i state b.tool_states;
  started_same = λ k. ground (
    arith,
    started-put i state b.tool_states k,
    ==_iff i k,
    started-slot (get i b.tool_states) (some state) same,
  );
  any_same =
      any_started-put_same i state b.tool_states
        (started-slot (get i b.tool_states) (some state) same);
}

get-ensure :
    (i : ℕ) (b : ContentBlockManager)
    → get i (ensure_tool_state i b).1.tool_states ≡ some (ensure_tool_state i b).0
unfolding ensure_tool_state
get-ensure i b = go (has i b.tool_states) refl (get i b.tool_states) refl
  where
    go :
        (t : Bool)
        → has i b.tool_states ≡ t
        → (o : Option ToolCallState) → get i b.tool_states ≡ o
        → get i (if t then b else put_tool i (or_fresh o) b).tool_states ≡ some (or_fresh o)
    go true e none q = ground (arith, has-get i b.tool_states)
    go true e (some state) q = q
    go false e o q = rw (get-put i i (or_fresh o) b.tool_states) (rw (==_refl i) refl)

fresh-TaskWaits :
    (json : Json) (d : Dict ℕ ToolCallState) (i : ℕ) (o : Option ToolCallState)
    → get i d ≡ o
    → Tasks json d
    → TaskWaits json (or_fresh o)
fresh-TaskWaits json d i none e h = λ x. cc
fresh-TaskWaits json d i (some state) e h = Tasks-get json i state d e h

slot-fresh : (o : Option ToolCallState) → slot o ≡ slot (some (or_fresh o))
slot-fresh none = refl
slot-fresh (some state) = refl

module _ {json : Json} where
  pub Quiet-refl : (b : ContentBlockManager) → Quiet json b b
  Quiet-refl b = record { same = Same-refl b; tasks = λ h. h }

  pub Quiet-trans : {a b c : ContentBlockManager} → Quiet json a b → Quiet json b c → Quiet json a c
  Quiet-trans p q = record { same = Same-trans p.same q.same; tasks = λ h. q.tasks (p.tasks h) }

  pub Quiet-put :
      (i : ℕ) (state : ToolCallState) (b : ContentBlockManager)
      → slot (get i b.tool_states) ≡ slot (some state)
      → (Tasks json b.tool_states → TaskWaits json state)
      → Quiet json b (put_tool i state b)
  Quiet-put i state b same w = record {
    same = Same-put i state b same;
    tasks = λ h. Tasks-put json i state b.tool_states (w h) h;
  }

  pub ensure-Quiet : (i : ℕ) (b : ContentBlockManager) → Quiet json b (ensure_tool_state i b).1
  unfolding ensure_tool_state
  ensure-Quiet i b = go (has i b.tool_states)
    where
      go :
          (t : Bool) → Quiet json b (if t then b else put_tool i (or_fresh (get i b.tool_states)) b)
      go true = Quiet-refl b
      go false =
          Quiet-put i (or_fresh (get i b.tool_states)) b (slot-fresh (get i b.tool_states))
            (fresh-TaskWaits json b.tool_states i (get i b.tool_states) refl)

  -- A further write of the state that `ensure_tool_state` gives.
  pub ensure_put-Quiet :
      (i : ℕ) (b : ContentBlockManager) (f : ToolCallState → ToolCallState)
      → ((x : ToolCallState) → slot (some (f x)) ≡ slot (some x))
      → ((x : ToolCallState) → TaskWaits json x → TaskWaits json (f x))
      → let (state, b') = ensure_tool_state i b in Quiet json b (put_tool i (f state) b')
  unfolding ensure_tool_state
  ensure_put-Quiet i b f same waits =
      let (state, b') = ensure_tool_state i b in
      Quiet-trans (ensure-Quiet i b) (
        Quiet-put i (f state) b' (ap slot (get-ensure i b) ∙ sym (same state))
          (λ h. waits state (Tasks-get json i state b'.tool_states (get-ensure i b) h)))

  pub note_id-Quiet :
      (i : ℕ) (o : Option String) (b : ContentBlockManager) → Quiet json b (note_id i o b)
  unfolding set_stream_tool_id
  note_id-Quiet i none b = Quiet-refl b
  note_id-Quiet i (some t) b = go (is_null t)
    where
      go :
          (n : Bool)
          → Quiet json b (
              if n
              then b
              else put_tool i
                  (record ((ensure_tool_state i b).0) { tool_id = t })
                  (ensure_tool_state i b).1)
      go true = Quiet-refl b
      go false = ensure_put-Quiet i b (λ x. record x { tool_id = t }) (λ x. refl) (λ x h. h)

  pub note_name-Quiet :
      (i : ℕ) (o : Option String) (b : ContentBlockManager) → Quiet json b (note_name i o b)
  unfolding register_tool_name
  note_name-Quiet i none b = Quiet-refl b
  note_name-Quiet i (some t) b = go (get i b.tool_states) refl
    where
      go : (o : Option ToolCallState) → get i b.tool_states ≡ o → Quiet json b (register_in i t o b)
      go none e = Quiet-put i _ b (ap slot e) (λ h x. cc)
      go (some state) e =
          Quiet-put i _ b (ap slot e) (λ h. Tasks-get json i state b.tool_states e h)

  pub hold_back-Quiet :
      (i : ℕ) (t : String) (b : ContentBlockManager) → Quiet json b (hold_back i t b)
  hold_back-Quiet i t b =
      ensure_put-Quiet i b (λ x. record x { pre_start_args = x.pre_start_args ++ t }) (λ x. refl)
        (λ x h. h)

  pub clear_pre_start-Quiet :
      (i : ℕ) (b : ContentBlockManager) → Quiet json b (clear_pre_start i (get i b.tool_states) b)
  clear_pre_start-Quiet i b = go (get i b.tool_states) refl
    where
      go :
          (o : Option ToolCallState)
          → get i b.tool_states ≡ o
          → Quiet json b (clear_pre_start i o b)
      go none e = Quiet-refl b
      go (some state) e =
          Quiet-put i _ b (ap slot e) (λ h. Tasks-get json i state b.tool_states e h)

module _ {json : Json} {H : Type 0} where
  pub In-Quiet :
      (b : ContentBlockManager) (s : Driver H) (c : Checker)
      → In json s c
      → Quiet json s.sse.blocks b
      → In json (set_blocks b s) c
  In-Quiet b s c h q = record {
    sync =
        Sync-same h.sync b q.same.next_same q.same.text_same q.same.thinking_same q.same.live_same
          (q.same.distinct h.sync.tools_distinct);
    any = λ e. rw (q.same.next_same) (h.any (sym q.same.any_same ∙ e));
    held = λ i e. q.same.started_same i ∙ h.held i e;
    tasks = q.tasks h.tasks;
  }

module _ {json : Json} {H : Type 0} {allow : Bool} {P : Exit → Type 0} where
  pub on_blocks-Kept :
      (f : ContentBlockManager → ContentBlockManager) (s : Driver H) (c : Checker)
      → In json s c
      → Quiet json s.sse.blocks (f s.sse.blocks)
      → P done
      → Kept json allow P s c (on_blocks f s)
  on_blocks-Kept f s c h q p =
      Kept-quiet done _ (In-Quiet (f s.sse.blocks) s c h q) (λ i e. q.same.started_same i ∙ e) p
