-- ===== src/Chat/Safe.antt =====
-- Whatever the provider sends, the driver's stream meets the contract of
-- free-claude-code/core/anthropic/stream_contracts.py.
use vega_claude.Prelude.{
  ℕ, ◌<◌, ◌≡◌, ◌≢◌, refl, sym, ap, subst, String, Option, none, some, Bool, [], ◌⊎◌, inl, inr, true,
  false, ◌++◌, Dict, is_empty, nat_eq,
}
use vega_claude.Prelude.Int.{int_eq}
use vega_claude.Json.{Value, out_of_range, too_deep, Json}
use vega_claude.Sse.Generator.{
  Exit, done, raised, Exception, value_error, recursion_error, Run, Generator, ◌>>◌, resume, raise,
}
use vega_claude.Sse.Blocks.{any_started}
use vega_claude.Sse.Builder.{
  new_builder, close_all_blocks, emit_message_start, emit_message_delta, emit_message_stop,
  map_stop_reason,
}
use vega_claude.Sse.Contract.{
  Checker, fresh_checker, ok, check_event, check_events, assert_stream_contract,
}
use vega_claude.Sse.Sync.{Sync, fresh-Sync}
use vega_claude.Sse.Sync.Ran.{contract_of_check}
use vega_claude.Sse.Message.{ends_with_stop-append}
use vega_claude.Chat.State.{HeuristicParser, Upstream, Driver, on_sse}
use vega_claude.Chat.ToolCalls.{tools_of, flush_tool_argument_alias_buffers, flush_task_args}
use vega_claude.Chat.Stream.{
  flush_parser, flush_heuristic, fill_in, end_message, finish, report_error, read_stream, try_or,
  error_text, new_driver, stream_body, stream_response, output_tokens,
}
use vega_claude.Sse.Tokens.{Encoder}
use vega_claude.Chat.Kept.{TooDeep, Late, In, Kept, In-Kept}
use vega_claude.Chat.TaskDeltas.{Any}
use vega_claude.Chat.ChunksKept.{read_stream-Kept}
use vega_claude.Chat.FlushKept.{
  flush_parser-Kept, flush_heuristic-Kept, fill_in-Kept, taken-fill_in, flush_alias_buffers-Kept,
}
use vega_claude.Chat.TaskFlush.{flush_task_args-Kept}
use vega_claude.Chat.Report.{last-Finished, report_error-Finished}
use vega_claude.Chat.Ending.{Whole, Finished, Finished-resume, Finished-then, Finished-close}

-- A stream that ended by itself meets the contract; an exception that left it is one that may.
abbrev pub Ends : {S : Type 0} → Bool → (Exception → S → Type 0) → Run S → Type 0
Ends allow escapes r = elim r.exit as (λ _. Type 0) [
  | done ↦ assert_stream_contract allow r.events ≡ ok tt
  | raised x ↦ escapes x r.state
]

module _ (json : Json) (heuristic : HeuristicParser) (thinking_enabled : Bool) where
  -- The exceptions that may leave the stream, with their causes: the encoder refuses a text of the
  -- message and the provider gave no count of tokens; `json.loads` raises something other than a
  -- `JSONDecodeError`.
  abbrev pub Escapes :
      Dict String (Dict String String) → Encoder → Exception → Driver heuristic.State → Type 0
  Escapes aliases encoder value_error s =
      ((t : String) × (json.loads t ≡ out_of_range))
      ⊎ (output_tokens json heuristic thinking_enabled aliases encoder s ≡ none)
  Escapes aliases encoder recursion_error s = TooDeep json
  Escapes aliases encoder x s = ⊥

  Late-Escapes :
      (aliases : Dict String (Dict String String)) (encoder : Encoder) (x : Exception)
      (s : Driver heuristic.State)
      → Late json (raised x)
      → Escapes aliases encoder x s
  Late-Escapes aliases encoder Exception.value_error s h = inl h
  Late-Escapes aliases encoder Exception.recursion_error s h = h
  Late-Escapes aliases encoder Exception.key_error s h = h
  Late-Escapes aliases encoder Exception.attribute_error s h = h
  Late-Escapes aliases encoder Exception.upstream s h = h

  -- The last two events, or the exception of the encoder.
  end_message-Finished :
      {allow : Bool} (aliases : Dict String (Dict String String)) (encoder : Encoder)
      (s : Driver heuristic.State) (c : Checker)
      → c.open_blocks ≡ []
      → is_empty c.seen_blocks ≡ false
      → Finished allow
          (Escapes aliases encoder)
          c
          (end_message json heuristic thinking_enabled aliases encoder s)
  unfolding end_message check_events
  end_message-Finished {allow} aliases encoder s c e q =
      go (output_tokens json heuristic thinking_enabled aliases encoder s) refl
    where
      go :
          (o : Option ℕ)
          → output_tokens json heuristic thinking_enabled aliases encoder s ≡ o
          → Finished allow (Escapes aliases encoder) c (elim o [
            | none ↦ raise value_error s
            | some n ↦
                on_sse
                  (emit_message_delta (map_stop_reason s.finish_reason) n >> emit_message_stop)
                  s
          ])
      go none h = record { checker = c; accepted = refl; whole = inr h }
      go (some n) h = last-Finished (map_stop_reason s.finish_reason) n s c e q

  finish-Finished :
      (allow : Bool) (aliases : Dict String (Dict String String)) (encoder : Encoder)
      (s : Driver heuristic.State) (c : Checker)
      → In json s c
      → Finished allow
          (Escapes aliases encoder)
          c
          (finish json heuristic thinking_enabled aliases encoder s)
  unfolding finish end_message
  finish-Finished allow aliases encoder s c h =
      Finished-then (flush_parser json heuristic thinking_enabled) _ s c absurd_done
        (flush_parser-Kept heuristic thinking_enabled s c h)
        (λ c1 h1 _.
          Finished-then (flush_heuristic json heuristic thinking_enabled) _ _ c1 absurd_done
            (flush_heuristic-Kept heuristic thinking_enabled _ c1 h1)
            (λ c2 h2 _.
              Finished-then (fill_in json heuristic thinking_enabled) _ _ c2 absurd_done
                (fill_in-Kept heuristic thinking_enabled _ c2 h2)
                (λ c3 h3 _.
                  flushed _ c3 h3
                    (h3.sync.seen_any (taken-fill_in heuristic thinking_enabled _ c2 h2)))))
    where
      absurd_done :
          (x : Exception) (t : Driver heuristic.State)
          → raised x ≡ done
          → Escapes aliases encoder x t
      absurd_done x t e = cc

      flushed :
          (t : Driver heuristic.State) (c : Checker)
          → In json t c
          → is_empty c.seen_blocks ≡ false
          → Finished allow (Escapes aliases encoder) c (
              (flush_tool_argument_alias_buffers json aliases
                  >> (flush_task_args json
                      >> (on_sse close_all_blocks
                          >> end_message json heuristic thinking_enabled aliases encoder)))
                t)
      flushed t c h n =
          Finished-then (flush_tool_argument_alias_buffers json aliases) _ t c
            (Late-Escapes aliases encoder) (flush_alias_buffers-Kept aliases t c h)
            (λ c1 h1 n1.
              Finished-then (flush_task_args json) _ _ c1 (Late-Escapes aliases encoder)
                (flush_task_args-Kept _ c1 h1)
                (λ c2 h2 n2.
                  Finished-close (end_message json heuristic thinking_enabled aliases encoder) _ c2
                    h2.sync h2.any
                    (λ u c3 e _ _ n3.
                      end_message-Finished aliases encoder u c3 e (n3 (n2 (n1 n))))))

  try_or-Finished :
      {escapes : Exception → Driver heuristic.State → Type 0}
      (m : Generator (Driver heuristic.State))
      (handler : Exception → Generator (Driver heuristic.State))
      (after : Generator (Driver heuristic.State)) (s : Driver heuristic.State) (c : Checker)
      → Kept json true Any s c (m s)
      → ((x : Exception) (t : Driver heuristic.State) (c' : Checker)
          → Sync t.sse.blocks c'
          → (any_started (tools_of t) ≡ true → 0 < t.sse.blocks.next_index)
          → Finished true escapes c' (handler x t))
      → ((t : Driver heuristic.State) (c' : Checker)
          → In json t c'
          → Finished true escapes c' (after t))
      → Finished true escapes c (try_or json heuristic thinking_enabled m handler after s)
  unfolding try_or
  try_or-Finished {escapes} m handler after s c k bad good = go (m s).exit refl
    where
      go :
          (x : Exit)
          → (m s).exit ≡ x
          → Finished true escapes c (elim x as (λ _. Run (Driver heuristic.State)) [
            | done ↦ resume done (m s).events (m s).state after
            | raised y ↦ resume done (m s).events (m s).state (handler y)
          ])
      go done e =
          Finished-resume (m s).events (m s).state c k.checker after k.accepted
            (good (m s).state k.checker (In-Kept (m s) k e))
      go (raised y) e =
          Finished-resume (m s).events (m s).state c k.checker (handler y) k.accepted
            (bad y (m s).state k.checker k.sync k.any)

  try_or-done :
      (m : Generator (Driver heuristic.State))
      (handler : Exception → Generator (Driver heuristic.State))
      (after : Generator (Driver heuristic.State)) (s : Driver heuristic.State)
      → (m s).exit ≡ done
      → try_or json heuristic thinking_enabled m handler after s
        ≡ resume done (m s).events (m s).state after
  unfolding try_or
  try_or-done m handler after s e =
      ap
        (λ x. elim x as (λ _. Run (Driver heuristic.State)) [
          | done ↦ resume done (m s).events (m s).state after
          | raised y ↦ resume done (m s).events (m s).state (handler y)
        ])
        e

  new-In :
      (encoder : Encoder) (internal message_id model : String) (input_tokens : ℕ)
      → In json
          (new_driver json heuristic thinking_enabled encoder internal message_id model
            input_tokens)
          fresh_checker
  unfolding new_builder
  new-In encoder internal message_id model input_tokens = record {
    sync = fresh-Sync;
    any = λ e. cc;
    held = λ i e. cc;
    tasks = tt;
  }

  body-Finished :
      (encoder : Encoder) (internal : String) (u : Upstream) (s : Driver heuristic.State)
      (c : Checker)
      → In json s c
      → Finished true
          (Escapes u.aliases encoder)
          c
          (stream_body json heuristic thinking_enabled encoder internal u s)
  unfolding stream_body
  body-Finished encoder internal u s c h =
      try_or-Finished (read_stream json heuristic thinking_enabled u.aliases u.chunks u.failure) _ _
        s c (read_stream-Kept heuristic thinking_enabled u.aliases u.chunks u.failure s c h)
        (λ x t c' sync any.
          report_error-Finished json heuristic thinking_enabled
            (error_text json heuristic thinking_enabled u.failure internal x) t c' sync any)
        (λ t c' g. finish-Finished true u.aliases encoder t c' g)

  module _ (encoder : Encoder) (internal message_id model : String) (input_tokens : ℕ)
      (u : Upstream) where
    -- The whole stream from its first event.
    Streamed :
        Bool → (Exception → Driver heuristic.State → Type 0) → Run (Driver heuristic.State) → Type 0
    Streamed allow escapes r =
        ((c : Checker) × (check_events allow fresh_checker r.events ≡ ok c)) × Ends allow escapes r

    opened-Streamed :
        (allow : Bool) (escapes : Exception → Driver heuristic.State → Type 0)
        → let s =
            new_driver json heuristic thinking_enabled encoder internal message_id model
              input_tokens in
          Finished allow escapes fresh_checker
            (stream_body json heuristic thinking_enabled encoder internal u s)
          → Streamed allow escapes (
              stream_response json heuristic thinking_enabled encoder internal message_id model
                input_tokens u)
    unfolding Streamed stream_response ◌>>◌ emit_message_start check_events check_event
    opened-Streamed allow escapes h = ((h.checker, h.accepted), go b.exit h.whole)
      where
        s : Driver heuristic.State
        s =
            new_driver json heuristic thinking_enabled encoder internal message_id model
              input_tokens

        b : Run (Driver heuristic.State)
        b = stream_body json heuristic thinking_enabled encoder internal u s

        go :
            (x : Exit)
            → Whole escapes h.checker b.events x b.state
            → Ends allow escapes (record {
              exit = x;
              state = b.state;
              events = (emit_message_start s.sse).events ++ b.events;
            })
        go done w =
            contract_of_check allow ((emit_message_start s.sse).events ++ b.events) h.checker refl
              refl (ends_with_stop-append (emit_message_start s.sse).events b.events w.full w.stops)
              h.accepted w.empty w.seen
        go (raised x) w = w

  -- Whatever the provider sends, also if it fails or the code raises an exception on the way: the
  -- checker's loop, with error events allowed, accepts all that is yielded, and the stream ends by
  -- itself and meets the contract, unless an exception leaves it of which the cause is there: the
  -- `json` module raises this exception, which is no `JSONDecodeError`, for some text or value, or
  -- the encoder refuses a text of the message when the tokens must be estimated.
  pub stream_response-safe :
      (encoder : Encoder) (internal message_id model : String) (input_tokens : ℕ) (u : Upstream)
      → let r =
          stream_response json heuristic thinking_enabled encoder internal message_id model
            input_tokens u in
        ((c : Checker) × (check_events true fresh_checker r.events ≡ ok c))
        × Ends true (Escapes u.aliases encoder) r
  unfolding Streamed
  stream_response-safe encoder internal message_id model input_tokens u =
      opened-Streamed encoder internal message_id model input_tokens u true
        (Escapes u.aliases encoder)
        (body-Finished encoder internal u _ fresh_checker
          (new-In encoder internal message_id model input_tokens))

  -- No exception of the `json` module but the `JSONDecodeError`.
  abbrev pub ReadsAll : Type 0
  ReadsAll =
      ((t : String) → json.loads t ≢ out_of_range)
      × ((t : String) → json.loads t ≢ too_deep)
      × ((v : Value) → json.dumps v ≢ none)

  -- If the provider does not fail and the code raises no exception while it reads, the checker's
  -- loop, with no error event allowed, accepts all that is yielded, and the stream ends by itself
  -- and meets that contract, unless an exception leaves it of which the cause is there: the `json`
  -- module raises this exception, which is no `JSONDecodeError`, for some text or value, or the
  -- encoder refuses a text of the message when the tokens must be estimated.
  pub stream_response-clean :
      (encoder : Encoder) (internal message_id model : String) (input_tokens : ℕ) (u : Upstream)
      → (read_stream json heuristic thinking_enabled u.aliases u.chunks u.failure (
          new_driver json heuristic thinking_enabled encoder internal message_id model
            input_tokens)).exit
        ≡ done
      → let r =
          stream_response json heuristic thinking_enabled encoder internal message_id model
            input_tokens u in
        ((c : Checker) × (check_events false fresh_checker r.events ≡ ok c))
        × Ends false (Escapes u.aliases encoder) r
  unfolding Streamed stream_body
  stream_response-clean encoder internal message_id model input_tokens u e =
      let s =
        new_driver json heuristic thinking_enabled encoder internal message_id model input_tokens in
      let m = read_stream json heuristic thinking_enabled u.aliases u.chunks u.failure in
      let k : Kept json false Any s fresh_checker (m s) =
        read_stream-Kept heuristic thinking_enabled u.aliases u.chunks u.failure s fresh_checker
          (new-In encoder internal message_id model input_tokens) in
      let handler : Exception → Generator (Driver heuristic.State) = λ x.
        report_error json heuristic thinking_enabled
          (error_text json heuristic thinking_enabled u.failure internal x) in
      let after = finish json heuristic thinking_enabled u.aliases encoder in
      opened-Streamed encoder internal message_id model input_tokens u false
        (Escapes u.aliases encoder)
        (subst (Finished false (Escapes u.aliases encoder) fresh_checker)
          (sym (try_or-done m handler after s e))
          (Finished-resume (m s).events (m s).state fresh_checker k.checker after k.accepted
            (finish-Finished false u.aliases encoder (m s).state k.checker (In-Kept (m s) k e))))
