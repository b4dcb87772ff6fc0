-- ===== src/Chat/ChunksKept.antt =====
-- What the driver writes for a chunk of the stream keeps it good.
use vega_claude.Prelude.{
  ℕ, ◌≡◌, refl, ◌⊎◌, inl, inr, String, Option, none, some, Bool, true, false, not, ◌&&◌, List, Dict,
  is_empty, if◌then◌else◌,
}
use vega_claude.Prelude.Text.{is_null}
use vega_claude.Json.{Json}
use vega_claude.Think.{ContentType, ContentChunk, ThinkTagParser, feed}
use vega_claude.Sse.Generator.{raised, Exception, attribute_error, upstream, ◌>>◌, skip, raise}
use vega_claude.Sse.Builder.{close_content_blocks}
use vega_claude.Sse.Contract.{Checker}
use vega_claude.Chat.State.{
  HeuristicParser, ToolUse, ToolFunction, ToolCallDelta, ChunkDelta, Choice, Chunk, Driver, on_sse,
}
use vega_claude.Chat.ToolCalls.{tools_of, or_empty, process_tool_call}
use vega_claude.Chat.Stream.{
  for_each, write_thinking, write_if, write_tools, write_found, write_part, write_content,
  write_reasoning, write_tool_call, write_tool_calls, write_delta, write_chunk, parts_of,
  note_finish, note_usage, write_choice, read_stream,
}
use vega_claude.Chat.Kept.{
  In, Kept, Kept-quiet, Kept-skip, Kept-then, Kept-if, Kept-choose, Kept-from,
}
use vega_claude.Chat.TaskDeltas.{Any}
use vega_claude.Chat.CallsKept.{process_tool_call-Kept}
use vega_claude.Chat.WritesKept.{
  write_text-Kept, write_thinking-Kept, close_content-Kept, for_each-Kept, write_tools-Kept,
  In-other,
}

module _ {json : Json} (heuristic : HeuristicParser) (thinking_enabled : Bool) where
  note_finish-In :
      (o : Option String) (s : Driver heuristic.State) (c : Checker)
      → In json s c
      → (In json (note_finish json heuristic thinking_enabled o s) c)
        × (tools_of (note_finish json heuristic thinking_enabled o s) ≡ tools_of s)
  note_finish-In none s c h = (h, refl)
  note_finish-In (some reason) s c h = go (is_null reason)
    where
      go :
          (b : Bool)
          → (In json (if b then s else record s { finish_reason = some reason }) c)
            × (tools_of (if b then s else record s { finish_reason = some reason }) ≡ tools_of s)
      go true = (h, refl)
      go false = (In-other _ h refl refl, refl)

  note_usage-In :
      (o : Option (Option ℕ)) (s : Driver heuristic.State) (c : Checker)
      → In json s c
      → (In json (note_usage json heuristic thinking_enabled o s) c)
        × (tools_of (note_usage json heuristic thinking_enabled o s) ≡ tools_of s)
  note_usage-In none s c h = (h, refl)
  note_usage-In (some usage) s c h = (In-other _ h refl refl, refl)

module _ {json : Json} (heuristic : HeuristicParser) (thinking_enabled : Bool) {allow : Bool} where
  write_if-Kept :
      (t : String) (s : Driver heuristic.State) (c : Checker)
      → In json s c
      → Kept json allow Any s c (write_if json heuristic thinking_enabled t s)
  unfolding write_if
  write_if-Kept t s c h =
      Kept-choose (is_null t) _ _ (λ _. Kept-skip s c h tt) (λ _. write_text-Kept tt t s c h)

  write_found-Kept :
      (o : Exception ⊎ (String × List ToolUse × heuristic.State)) (s : Driver heuristic.State)
      (c : Checker)
      → In json s c
      → Kept json allow Any s c (write_found json heuristic thinking_enabled o s)
  unfolding write_found write_tools
  write_found-Kept (inl x) s c h = Kept-quiet (raised x) s h (λ k e. e) tt
  write_found-Kept (inr (filtered, detected, g)) s c h =
      let t : Driver heuristic.State = record s { heuristic_parser = g } in
      Kept-from _ (λ k e. e)
        (Kept-then (write_if json heuristic thinking_enabled filtered) _ t c
          (write_if-Kept filtered t c (In-other t h refl refl))
          (λ c' _ x. write_tools-Kept tt heuristic thinking_enabled detected _ c' x))

  write_part-Kept :
      (part : ContentChunk) (s : Driver heuristic.State) (c : Checker)
      → In json s c
      → Kept json allow Any s c (write_part json heuristic thinking_enabled part s)
  unfolding write_part
  write_part-Kept part s c h = go part.type
    where
      go :
          (k : ContentType)
          → Kept json allow Any s c (elim k [
            | ContentType.thinking ↦
                if thinking_enabled then on_sse (write_thinking part.content) s else skip s
            | ContentType.text ↦
                write_found json heuristic thinking_enabled
                  (heuristic.feed part.content s.heuristic_parser)
                  s
          ])
      go ContentType.thinking =
          Kept-if thinking_enabled _ _ (λ _. write_thinking-Kept tt part.content s c h)
            (λ _. Kept-skip s c h tt)
      go ContentType.text = write_found-Kept (heuristic.feed part.content s.heuristic_parser) s c h

  parts_of-Kept :
      (o : Option (List ContentChunk × ThinkTagParser)) (s : Driver heuristic.State) (c : Checker)
      → In json s c
      → Kept json allow Any s c (parts_of json heuristic thinking_enabled o s)
  unfolding parts_of
  parts_of-Kept none s c h = Kept-skip s c h tt
  parts_of-Kept (some (parts, p)) s c h =
      Kept-from _ (λ k e. e)
        (for_each-Kept tt (write_part json heuristic thinking_enabled) write_part-Kept parts
          (record s { think_parser = p }) c (In-other _ h refl refl))

  write_content-Kept :
      (content : String) (s : Driver heuristic.State) (c : Checker)
      → In json s c
      → Kept json allow Any s c (write_content json heuristic thinking_enabled content s)
  unfolding write_content
  write_content-Kept content s c h =
      Kept-if (is_null content) _ _ (λ _. Kept-skip s c h tt)
        (λ _. parts_of-Kept (feed s.think_parser content) s c h)

  write_reasoning-Kept :
      (reasoning : String) (s : Driver heuristic.State) (c : Checker)
      → In json s c
      → Kept json allow Any s c (write_reasoning json heuristic thinking_enabled reasoning s)
  unfolding write_reasoning
  write_reasoning-Kept reasoning s c h =
      Kept-choose (thinking_enabled && not (is_null reasoning)) _ _
        (λ _. write_thinking-Kept tt reasoning s c h) (λ _. Kept-skip s c h tt)

  module _ (aliases : Dict String (Dict String String)) where
    write_tool_call-Kept :
        (tc : ToolCallDelta) (s : Driver heuristic.State) (c : Checker)
        → In json s c
        → Kept json allow Any s c (write_tool_call json heuristic thinking_enabled aliases tc s)
    unfolding write_tool_call
    write_tool_call-Kept tc s c h = go tc.function
      where
        go :
            (f : Option ToolFunction)
            → Kept json allow Any s c (elim f [
              | none ↦ raise attribute_error s
              | some f ↦
                  process_tool_call json aliases
                    (record {
                      index = tc.index;
                      id = tc.id;
                      name = f.name;
                      arguments = f.arguments;
                      uuid = tc.uuid;
                    })
                    s
            ])
        go none = Kept-quiet (raised attribute_error) s h (λ k e. e) tt
        go (some f) =
            process_tool_call-Kept aliases
              (record {
                index = tc.index;
                id = tc.id;
                name = f.name;
                arguments = f.arguments;
                uuid = tc.uuid;
              })
              s c h

    write_tool_calls-Kept :
        (tcs : List ToolCallDelta) (s : Driver heuristic.State) (c : Checker)
        → In json s c
        → Kept json allow Any s c (write_tool_calls json heuristic thinking_enabled aliases tcs s)
    unfolding write_tool_calls
    write_tool_calls-Kept tcs s c h =
        Kept-choose (is_empty tcs) _ _ (λ _. Kept-skip s c h tt)
          (λ _.
            Kept-then (on_sse close_content_blocks)
              (for_each (write_tool_call json heuristic thinking_enabled aliases) tcs) s c
              (close_content-Kept tt s c h)
              (λ c' _ g.
                for_each-Kept tt (write_tool_call json heuristic thinking_enabled aliases)
                  write_tool_call-Kept tcs _ c' g))

    write_delta-Kept :
        (delta : ChunkDelta) (s : Driver heuristic.State) (c : Checker)
        → In json s c
        → Kept json allow Any s c (write_delta json heuristic thinking_enabled aliases delta s)
    unfolding write_delta
    write_delta-Kept delta s c h =
        Kept-then
          (write_reasoning json heuristic thinking_enabled (or_empty delta.reasoning_content)
            >> write_content json heuristic thinking_enabled (or_empty delta.content))
          (write_tool_calls json heuristic thinking_enabled aliases delta.tool_calls) s c
          (Kept-then
            (write_reasoning json heuristic thinking_enabled (or_empty delta.reasoning_content))
            (write_content json heuristic thinking_enabled (or_empty delta.content)) s c
            (write_reasoning-Kept (or_empty delta.reasoning_content) s c h)
            (λ c' _ g. write_content-Kept (or_empty delta.content) _ c' g))
          (λ c' _ g. write_tool_calls-Kept delta.tool_calls _ c' g)

    write_choice-Kept :
        (o : Option Choice) (s : Driver heuristic.State) (c : Checker)
        → In json s c
        → Kept json allow Any s c (write_choice json heuristic thinking_enabled aliases o s)
    unfolding write_choice
    write_choice-Kept none s c h = Kept-skip s c h tt
    write_choice-Kept (some choice) s c h = go choice.delta
      where
        go :
            (d : Option ChunkDelta)
            → Kept json allow Any s c (elim d [
              | none ↦ skip s
              | some delta ↦
                  write_delta json heuristic thinking_enabled aliases delta
                    (note_finish json heuristic thinking_enabled choice.finish_reason s)
            ])
        go none = Kept-skip s c h tt
        go (some delta) =
            let n = note_finish-In heuristic thinking_enabled choice.finish_reason s c h in
            Kept-from _ (λ k e. rw n.1 e) (write_delta-Kept delta _ c n.0)

    write_chunk-Kept :
        (chunk : Chunk) (s : Driver heuristic.State) (c : Checker)
        → In json s c
        → Kept json allow Any s c (write_chunk json heuristic thinking_enabled aliases chunk s)
    unfolding write_chunk
    write_chunk-Kept chunk s c h =
        let n = note_usage-In heuristic thinking_enabled chunk.usage s c h in
        Kept-from _ (λ k e. rw n.1 e) (write_choice-Kept chunk.choice _ c n.0)

    pub read_stream-Kept :
        (chunks : List Chunk) (failure : Option String) (s : Driver heuristic.State) (c : Checker)
        → In json s c
        → Kept json allow Any s c
            (read_stream json heuristic thinking_enabled aliases chunks failure s)
    unfolding read_stream
    read_stream-Kept chunks none s c h =
        for_each-Kept tt (write_chunk json heuristic thinking_enabled aliases) write_chunk-Kept
          chunks s c h
    read_stream-Kept chunks (some message) s c h =
        Kept-then (for_each (write_chunk json heuristic thinking_enabled aliases) chunks)
          (raise upstream) s c
          (for_each-Kept tt (write_chunk json heuristic thinking_enabled aliases) write_chunk-Kept
            chunks s c h)
          (λ c' _ g. Kept-quiet (raised upstream) _ g (λ k e. e) tt)
