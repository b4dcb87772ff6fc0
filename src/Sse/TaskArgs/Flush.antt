-- ===== src/Sse/TaskArgs/Flush.antt =====
-- `flush_task_arg_buffers` empties every buffer that still waits.
use vega_claude.Prelude.{
  ℕ, ◌≡◌, refl, ap, ◌∙◌, String, Option, none, some, Bool, true, false, not, ◌||◌, List, [], ◌∷◌,
  Dict, select, map, All, if◌then◌else◌,
}
use vega_claude.Prelude.Text.{is_null}
use vega_claude.Json.{Value, object, Loaded, loaded, malformed, out_of_range, too_deep, Json}
use vega_claude.Sse.Generator.{done, recursion_error}
use vega_claude.Sse.Blocks.{ToolCallState, ContentBlockManager}
use vega_claude.Sse.TaskArgs.{
  Flushed, FlushValue, sends, raises, flush_one, flush_states, flush_value,
  normalize_task_run_in_background, normalize_fields, flush_task_arg_buffers,
}

-- Nothing of this call is left to emit.
abbrev pub is_emitted : ToolCallState → Bool
is_emitted state = is_null state.task_arg_buffer || state.task_args_emitted

-- The indices of the calls whose buffered arguments are still to be emitted, in order.
abbrev pub waiting : Dict ℕ ToolCallState → List ℕ
waiting d = map (λ p. p.0) (select (λ p. not (is_emitted p.1)) d)

waiting-emitted : (d : Dict ℕ ToolCallState) → All (λ p. is_emitted p.1 ≡ true) d → waiting d ≡ []
waiting-emitted [] h = refl
waiting-emitted ((index, state) ∷ d) h = rw (h.0) (waiting-emitted d h.1)

abbrev is_some : Option String → Bool
is_some none = false
is_some (some t) = true

module _ (json : Json) where
  -- What the flush sends on: an object that can be written in the foreground, or text that is
  -- refused with a ValueError.
  abbrev pub flushable : Loaded → Bool
  flushable (loaded (object d)) = is_some (json.dumps (object (normalize_fields d)))
  flushable (loaded v) = false
  flushable malformed = true
  flushable out_of_range = true
  flushable too_deep = false

  -- The arguments that wait for this call can be sent.
  abbrev pub Sendable : ToolCallState → Type 0
  Sendable state = is_emitted state ≡ false → flushable (json.loads state.task_arg_buffer) ≡ true

  flush_one-done :
      (index : ℕ) (state : ToolCallState) (d : Dict ℕ ToolCallState) (rest : Flushed json)
      (o : Loaded)
      → flushable o ≡ true
      → (flush_one json index state d (flush_value json o) rest).exit ≡ rest.exit
  unfolding flush_one normalize_task_run_in_background
  flush_one-done index state d rest (loaded (object v)) h =
      go (json.dumps (object (normalize_fields v))) h
    where
      go :
          (o : Option String)
          → is_some o ≡ true
          → (flush_one json index state d
              (elim o as (λ _. FlushValue json) [
                | none ↦ raises recursion_error
                | some t ↦ sends t
              ])
              rest).exit
            ≡ rest.exit
      go none h = cc
      go (some t) h = refl
  flush_one-done index state d rest (loaded Value.null) h = cc
  flush_one-done index state d rest (loaded (Value.boolean b)) h = cc
  flush_one-done index state d rest (loaded (Value.number n)) h = cc
  flush_one-done index state d rest (loaded (Value.string t)) h = cc
  flush_one-done index state d rest (loaded (Value.array vs)) h = cc
  flush_one-done index state d rest malformed h = refl
  flush_one-done index state d rest out_of_range h = refl
  flush_one-done index state d rest too_deep h = cc

  flush_states-done :
      (d : Dict ℕ ToolCallState) → All (λ p. Sendable p.1) d → (flush_states json d).exit ≡ done
  unfolding flush_states
  flush_states-done [] h = refl
  flush_states-done ((index, state) ∷ d) h = go (is_emitted state) refl (flush_states-done d h.1)
    where
      go :
          (b : Bool)
          → is_emitted state ≡ b
          → (flush_states json d).exit ≡ done
          → let rest = flush_states json d in
            (if b
              then record {
                exit = rest.exit;
                results = rest.results;
                states = (index, state) ∷ rest.states;
              }
              else flush_one json index state d
                  (flush_value json (json.loads state.task_arg_buffer))
                  rest).exit
            ≡ done
      go true e r = r
      go false e r =
          flush_one-done index state d (flush_states json d) (json.loads state.task_arg_buffer)
            (h.0 e)
          ∙ r

  -- What a flush that ends by itself has done.
  abbrev Clean : Dict ℕ ToolCallState → Flushed json → Type 0
  Clean d f =
      (map (λ p. p.0) f.results ≡ waiting d)
      × (map (λ p. p.0) f.states ≡ map (λ p. p.0) d)
      × All (λ p. is_emitted p.1 ≡ true) f.states

  flush_states-Clean :
      (d : Dict ℕ ToolCallState) → (flush_states json d).exit ≡ done → Clean d (flush_states json d)
  unfolding flush_states
  flush_states-Clean [] h = (refl, refl, tt)
  flush_states-Clean ((index, state) ∷ d) h =
      go (is_emitted state) refl (flush_value json (json.loads state.task_arg_buffer)) h
        (flush_states-Clean d)
    where
      rest : Flushed json
      rest = flush_states json d

      step : Bool → FlushValue json → Flushed json
      step b o =
          if b
          then record {
            exit = rest.exit;
            results = rest.results;
            states = (index, state) ∷ rest.states;
          }
          else flush_one json index state d o rest

      go :
          (b : Bool)
          → is_emitted state ≡ b
          → (o : FlushValue json) → (step b o).exit ≡ done
          → (rest.exit ≡ done → Clean d rest)
          → Clean ((index, state) ∷ d) (step b o)
      go true e o q r = let (x, y, z) = r q in (rw (e) x, ap (λ l. index ∷ l) y, (e, z))
      go false e (raises x) q r = cc
      go false e (sends out) q r =
          let (x, y, z) = r q in (rw (e) (ap (λ l. index ∷ l) x), ap (λ l. index ∷ l) y, (refl, z))

  flush_states-emitted :
      (d : Dict ℕ ToolCallState)
      → All (λ p. is_emitted p.1 ≡ true) d
      → flush_states json d ≡ record { exit = done; results = []; states = d }
  unfolding flush_states
  flush_states-emitted [] h = refl
  flush_states-emitted ((index, state) ∷ d) h = rw (h.0) (rw (flush_states-emitted d h.1) refl)

  -- If every buffer that waits holds a JSON object that can be written out, or is refused with a
  -- ValueError, the flush ends
  -- by itself, yields arguments for exactly the indices whose buffers wait, in order, keeps the
  -- indices and leaves no buffer waiting, and a second flush changes and yields nothing.
  pub flush-Emitted :
      (b : ContentBlockManager)
      → All (λ p. Sendable p.1) b.tool_states
      → let f = flush_task_arg_buffers json b in
        (f.exit ≡ done)
        × (map (λ p. p.0) f.results ≡ waiting b.tool_states)
        × (map (λ p. p.0) f.states ≡ map (λ p. p.0) b.tool_states)
        × (waiting f.states ≡ [])
        × (flush_task_arg_buffers json (record b { tool_states = f.states })
            ≡ record { exit = done; results = []; states = f.states })
  unfolding flush_task_arg_buffers
  flush-Emitted b h =
      let e = flush_states-done b.tool_states h in
      let (x, y, z) = flush_states-Clean b.tool_states e in
      (
        e,
        x,
        y,
        waiting-emitted (flush_task_arg_buffers json b).states z,
        flush_states-emitted (flush_task_arg_buffers json b).states z,
      )
