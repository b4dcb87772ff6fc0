-- ===== src/Sse/TaskArgs/Once.antt =====
-- Task arguments leave `buffer_task_args` and `flush_task_arg_buffers` once, and never for a task in
-- the background.
use Prim.Native.String.{◌++◌}
use mathlib.Core.Option.{some-injective}
use vega_claude.Prelude.{
  subst, ◌∙◌, ℕ, ◌≡◌, refl, String, Option, none, some, Bool, true, false, ◌||◌, get, get-put,
  ==_refl, nat_eq, string_eq, ◌==◌, if◌then◌else◌,
}
use vega_claude.Prelude.Text.{is_null}
use vega_claude.Json.{
  Value, boolean, object, field, end, Fields, value_of, Json, get_field, put_field,
}
use vega_claude.Sse.Generator.{done}
use vega_claude.Sse.Blocks.{ToolCallState, ContentBlockManager, put_tool}
use vega_claude.Sse.TaskArgs.{
  normalize_task_run_in_background, normalize_fields, is_false, buffer_task_args, buffer_in,
  after_append, normalized,
}

-- The arguments say that the task does not run in the background.
abbrev pub in_foreground : Value → Bool
in_foreground (object d) = is_false (get_field "run_in_background" d)
in_foreground _ = false

get_field-put_field : (k : String) (v : Value) (d : Fields) → get_field k (put_field k v d) ≡ some v
get_field-put_field k v end = rw (==_refl k)
get_field-put_field k v (field k' v' d) = go (k' == k) refl (get_field-put_field k v d)
  where
    go :
        (b : Bool)
        → (k' == k) ≡ b
        → get_field k (put_field k v d) ≡ some v
        → get_field k (if b then field k' v d else field k' v' (put_field k v d)) ≡ some v
    go true e h = rw (e)
    go false e h = rw (e) h

normalize_fields-foreground :
    (d : Fields) → is_false (get_field "run_in_background" (normalize_fields d)) ≡ true
normalize_fields-foreground d = go (is_false (get_field "run_in_background" d)) refl
  where
    go :
        (b : Bool)
        → is_false (get_field "run_in_background" d) ≡ b
        → is_false (
            get_field "run_in_background"
              (if b then d else put_field "run_in_background" (boolean false) d))
          ≡ true
    go true e = e
    go false e = rw (get_field-put_field "run_in_background" (boolean false) d) refl

normalize-foreground :
    (v w : Value) → normalize_task_run_in_background v ≡ some w → in_foreground w ≡ true
unfolding normalize_task_run_in_background
normalize-foreground (object d) w h =
    subst (λ u. in_foreground u ≡ true) (some-injective (object (normalize_fields d)) w h)
      (normalize_fields-foreground d)
normalize-foreground Value.null w h = cc
normalize-foreground (Value.boolean b) w h = cc
normalize-foreground (Value.number b) w h = cc
normalize-foreground (Value.string b) w h = cc
normalize-foreground (Value.array b) w h = cc

-- Nothing is left to emit for this call.
abbrev pub Emitted : ToolCallState → Type 0
Emitted state = (is_null state.task_arg_buffer || state.task_args_emitted) ≡ true

module _ (json : Json) where
  -- At every later call of `buffer_task_args` the index returns none and nothing changes.
  abbrev pub Finished : ℕ → ContentBlockManager → Type 0
  Finished index b =
      (later : String)
      → buffer_task_args json index later b ≡ record { exit = done; args = none; blocks = b }

  emitted-Finished :
      (index : ℕ) (state : ToolCallState) (b : ContentBlockManager)
      → state.task_args_emitted ≡ true
      → Finished index (put_tool index state b)
  unfolding buffer_task_args buffer_in
  emitted-Finished index state b h later =
      rw (get-put index index state b.tool_states) (rw (==_refl index) (rw h))

  abbrev Decoded : String → Value → Type 0
  Decoded buffered w =
      (v : Value) × (value_of (json.loads buffered) ≡ some v)
      × (normalize_task_run_in_background v ≡ some w)

  after_append-once :
      (index : ℕ) (state : ToolCallState) (b : ContentBlockManager) (w : Value) (o : Option Value)
      → value_of (json.loads state.task_arg_buffer) ≡ o
      → (after_append json index state b o (normalized json o)).args ≡ some w
      → Decoded state.task_arg_buffer w
        × Finished index (after_append json index state b o (normalized json o)).blocks
  unfolding after_append
  after_append-once index state b w none e h = cc
  after_append-once index state b w (some v) e h = go (normalize_task_run_in_background v) refl h
    where
      go :
          (n : Option Value)
          → normalize_task_run_in_background v ≡ n
          → (after_append json index state b (some v) n).args ≡ some w
          → Decoded state.task_arg_buffer w
            × Finished index (after_append json index state b (some v) n).blocks
      go none q h = cc
      go (some u) q h = (
        (v, e, q ∙ h),
        emitted-Finished index (record state { task_args_emitted = true; task_arg_buffer = "" }) b
            refl,
      )

  buffer_in-once :
      (index : ℕ) (args : String) (b : ContentBlockManager) (w : Value) (o : Option ToolCallState)
      → get index b.tool_states ≡ o
      → (buffer_in json index args o b).args ≡ some w
      → (state : ToolCallState) × (get index b.tool_states ≡ some state)
        × Decoded (state.task_arg_buffer ++ args) w
        × Finished index (buffer_in json index args o b).blocks
  unfolding buffer_in
  buffer_in-once index args b w none e h = cc
  buffer_in-once index args b w (some state) e h = go state.task_args_emitted h
    where
      state' : ToolCallState
      state' = record state { task_arg_buffer = state.task_arg_buffer ++ args }

      value : Option Value
      value = value_of (json.loads state'.task_arg_buffer)

      go :
          (d : Bool)
          → (if d
              then record { exit = done; args = none; blocks = b }
              else after_append json index state' b value (normalized json value)).args
            ≡ some w
          → (st : ToolCallState) × (get index b.tool_states ≡ some st)
            × Decoded (st.task_arg_buffer ++ args) w
            × Finished index
                (if d
                  then record { exit = done; args = none; blocks = b }
                  else after_append json index state' b value (normalized json value)).blocks
      go true q = cc
      go false q = let (x, y) = after_append-once index state' b w value refl q in (state, e, x, y)

  -- A call of `buffer_task_args` that returns arguments returns what the buffered text and the new
  -- one decode to, normalised to a task in the foreground; from then on the index returns none at
  -- every call, which changes nothing.
  pub buffer_task_args-once :
      (index : ℕ) (args : String) (b : ContentBlockManager) (w : Value)
      → (buffer_task_args json index args b).args ≡ some w
      → (in_foreground w ≡ true)
        × (state : ToolCallState) × (get index b.tool_states ≡ some state)
        × Decoded (state.task_arg_buffer ++ args) w
        × Finished index (buffer_task_args json index args b).blocks
  unfolding buffer_task_args
  buffer_task_args-once index args b w h =
      let (state, e, (v, l, n), f) =
        buffer_in-once index args b w (get index b.tool_states) refl h in
      (normalize-foreground v w n, state, e, (v, l, n), f)
