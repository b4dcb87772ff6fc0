-- ===== src/Sse/Tokens.antt =====
-- `estimate_output_tokens` of free-claude-code/core/anthropic/sse.py. The encoder is a parameter:
-- `none` where the library is not there, else a function that gives the number of tokens of a text,
-- or `none` where `encode` raises a `ValueError`, as it does on the text of a special token.
use Prim.Native.String.{◌++◌}
use vega_claude.Prelude.{
  ℕ, ◌≢◌, refl, ◌+◌, ◌*◌, ◌/◌, String, Option, none, some, List, [], ◌∷◌, Dict, if◌then◌else◌,
}
use vega_claude.Prelude.Text.{is_null, size}
use vega_claude.Sse.Blocks.{ToolCallState}
use vega_claude.Sse.Builder.{SseBuilder}

infixl 5 ◌>>=◌
-- An exception ends the computation.
abbrev pub ◌>>=◌ : {A B : Type 0} → Option A → (A → Option B) → Option B
none >>= f = none
some a >>= f = f a

abbrev pub Encoder : Type 0
Encoder = Option (String → Option ℕ)

-- "".join(parts)
abbrev pub join : List String → String
join [] = ""
join (t ∷ ts) = t ++ join ts

abbrev pub started_count : Dict ℕ ToolCallState → ℕ
started_count [] = 0
started_count ((i, state) ∷ d) = (if state.started then 1 else 0) + started_count d

abbrev tool_tokens : (String → Option ℕ) → Dict ℕ ToolCallState → Option ℕ
tool_tokens encode [] = some 0
tool_tokens encode ((i, state) ∷ d) = do
  named ← encode state.name
  given ← encode (join state.contents)
  rest ← tool_tokens encode d
  some (named + given + 15 + rest)

unfoldable pub estimate_output_tokens : Encoder → SseBuilder → Option ℕ
estimate_output_tokens (some encode) s =
    let written = join s.accumulated_text in
    let thought = join s.accumulated_reasoning in
    let block_count =
      (if is_null thought then 0 else 1)
      + (if is_null written then 0 else 1)
      + started_count s.blocks.tool_states in
    do
      text_tokens ← encode written
      reasoning_tokens ← encode thought
      tools ← tool_tokens encode s.blocks.tool_states
      some (text_tokens + reasoning_tokens + tools + block_count * 4)
estimate_output_tokens none s = some (
    size (join s.accumulated_text) / 4
    + size (join s.accumulated_reasoning) / 4
    + started_count s.blocks.tool_states * 50)

bind-some :
    {A B : Type 0} (o : Option A) (f : A → Option B)
    → o ≢ none
    → ((x : A) → f x ≢ none)
    → (o >>= f) ≢ none
bind-some none f h k e = h refl
bind-some (some x) f h k e = k x e

-- The encoder refuses no text.
abbrev pub EncodesAll : Encoder → Type 0
EncodesAll none = Unit
EncodesAll (some encode) = (t : String) → encode t ≢ none

tool_tokens-some :
    (encode : String → Option ℕ) (d : Dict ℕ ToolCallState)
    → EncodesAll (some encode)
    → tool_tokens encode d ≢ none
tool_tokens-some encode [] h = λ e. cc
tool_tokens-some encode ((i, state) ∷ d) h = bind-some (encode state.name) _ (h state.name) (λ x.
    bind-some (encode (join state.contents)) _ (h (join state.contents))
      (λ y. bind-some (tool_tokens encode d) _ (tool_tokens-some encode d h) (λ z e. cc)))

pub estimate-some :
    (encoder : Encoder) (s : SseBuilder)
    → EncodesAll encoder
    → estimate_output_tokens encoder s ≢ none
unfolding estimate_output_tokens
estimate-some none s h = λ e. cc
estimate-some (some encode) s h =
    bind-some (encode (join s.accumulated_text)) _ (h (join s.accumulated_text)) (λ x.
      bind-some (encode (join s.accumulated_reasoning)) _ (h (join s.accumulated_reasoning)) (λ y.
        bind-some (tool_tokens encode s.blocks.tool_states) _
          (tool_tokens-some encode s.blocks.tool_states h) (λ z e. cc)))
