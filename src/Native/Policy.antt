-- ===== src/Native/Policy.antt =====
-- `transform_native_sse_block_event` of free-claude-code/core/anthropic/native_sse_block_policy.py, on
-- decoded events: what cannot be decoded is passed on as it is. Of a `content_block` and a `delta`
-- the fields of Sse/Event are kept; one whose type is no text is `none` for a block, and
-- `unknown ""` for a delta. The field `message_stopped`, which this file does not use, is left out.
use Prim.Native.String
use vega_claude.Prelude.{
  ℕ, ◌+◌, String, Option, none, some, Bool, true, false, not, ◌&&◌, ◌||◌, List, [], ◌∷◌, ◌++◌, Dict,
  get, put, contains, add, discard, ◌==◌, if◌then◌else◌,
}
use vega_claude.Prelude.Int.{ℤ, pos, int_eq}
use vega_claude.Prelude.Text.{is_null, begins, find}
use vega_claude.Sse.Event.{
  Event, Block, Delta, content_block_start, content_block_delta, content_block_stop,
}

pub record UpstreamBlock : Type 0 where
  pub block_type : String
  pub down_index : ℕ
  pub is_open : Bool
  pub last_start_block : Option Block

pub record PolicyState : Type 0 where
  pub next_index : ℕ
  pub by_upstream : Dict ℤ UpstreamBlock
  pub dropped_indexes : List ℤ
  pub pending_suppressed_stops : List ℤ

abbrev pub new_policy : PolicyState
new_policy = record {
  next_index = 0;
  by_upstream = [];
  dropped_indexes = [];
  pending_suppressed_stops = [];
}

-- `block["type"]` and `delta["type"]`
abbrev pub block_type : Block → String
block_type (Block.text t) = "text"
block_type (Block.thinking t) = "thinking"
block_type (Block.tool_use i n) = "tool_use"
block_type Block.redacted_thinking = "redacted_thinking"
block_type Block.server_tool_use = "server_tool_use"
block_type Block.web_search_tool_result = "web_search_tool_result"
block_type Block.web_fetch_tool_result = "web_fetch_tool_result"
block_type (Block.unknown t) = t

abbrev pub delta_type : Delta → String
delta_type (Delta.text_delta t) = "text_delta"
delta_type (Delta.thinking_delta t) = "thinking_delta"
delta_type (Delta.signature_delta t) = "signature_delta"
delta_type (Delta.input_json_delta t) = "input_json_delta"
delta_type (Delta.unknown t) = t

-- `part in text`
abbrev includes : String → String → Bool
includes part text = elim (find part text) [ none ↦ false | some i ↦ true ]

unfoldable pub should_drop_block_type : Bool → String → Bool
should_drop_block_type thinking_enabled t =
    if begins "redacted_thinking" t
    then not thinking_enabled
    else not thinking_enabled && includes "thinking" t

pub data BlockKind : Type 0 where
  text thinking tool_use : BlockKind

abbrev pub kind_name : BlockKind → String
kind_name text = "text"
kind_name thinking = "thinking"
kind_name tool_use = "tool_use"

unfoldable pub delta_type_to_block_kind : Delta → Option BlockKind
delta_type_to_block_kind (Delta.thinking_delta t) = some thinking
delta_type_to_block_kind (Delta.signature_delta t) = some thinking
delta_type_to_block_kind (Delta.text_delta t) = some text
delta_type_to_block_kind (Delta.input_json_delta t) = some tool_use
delta_type_to_block_kind (Delta.unknown t) = none

-- `decimal` writes an index, for `f"toolu_or_{upstream_index}"`.
module _ (decimal : ℤ → String) where
  abbrev synthetic_tool : ℤ → Option Block → Block
  synthetic_tool upstream_index (some (Block.tool_use tool_id name)) =
      Block.tool_use
        (if is_null tool_id then String.◌++◌ "toolu_or_" (decimal upstream_index) else tool_id) name
  synthetic_tool upstream_index _ =
      Block.tool_use (String.◌++◌ "toolu_or_" (decimal upstream_index)) ""

  unfoldable pub synthetic_start_content_block : BlockKind → ℤ → Option Block → Block
  synthetic_start_content_block tool_use upstream_index stored =
      synthetic_tool upstream_index stored
  synthetic_start_content_block thinking upstream_index stored = Block.thinking ""
  synthetic_start_content_block text upstream_index stored = Block.text ""

abbrev pub start_at : ℕ → Block → Event
start_at n block = content_block_start (some (pos n)) (some block)

abbrev pub delta_at : ℕ → Delta → Event
delta_at n delta = content_block_delta (some (pos n)) (some delta)

abbrev pub stop_at : ℕ → Event
stop_at n = content_block_stop (some (pos n))

-- The stops, the segments and the indices whose stop is to be suppressed.
pub record Closing : Type 0 where
  pub stops : List Event
  pub segments : Dict ℤ UpstreamBlock
  pub suppressed : List ℤ

-- The loop over `state.by_upstream.items()`.
unfoldable pub close_others : ℤ → List ℤ → Dict ℤ UpstreamBlock → Closing
close_others current pending [] = record { stops = []; segments = []; suppressed = pending }
close_others current pending ((upstream, seg) ∷ d) =
    let rest = close_others current pending d in
    if upstream == current || not seg.is_open
    then record rest { segments = (upstream, seg) ∷ rest.segments }
    else record {
      stops = stop_at seg.down_index ∷ rest.stops;
      segments = (upstream, record seg { is_open = false }) ∷ rest.segments;
      suppressed = add upstream rest.suppressed;
    }

unfoldable pub synthetic_close_other_open_blocks : ℤ → PolicyState → List Event × PolicyState
unfolding close_others
synthetic_close_other_open_blocks current s =
    let r = close_others current s.pending_suppressed_stops s.by_upstream in
    (r.stops, record s { by_upstream = r.segments; pending_suppressed_stops = r.suppressed })

unfoldable pub allocate_new_segment : ℤ → String → Option Block → PolicyState → ℕ × PolicyState
allocate_new_segment upstream_index type last_start_block s =
    let seg : UpstreamBlock = record {
      block_type = type;
      down_index = s.next_index;
      is_open = true;
      last_start_block = last_start_block;
    } in
    (
      s.next_index,
      record s {
        next_index = s.next_index + 1;
        by_upstream = put upstream_index seg s.by_upstream;
      },
    )

-- A new segment with its start, and the delta in it.
abbrev pub reopened :
    ℤ → BlockKind → Block → Option Block → Delta → PolicyState → List Event × PolicyState
reopened upstream_index kind block last_start_block delta s =
    let (i, s') = allocate_new_segment upstream_index (kind_name kind) last_start_block s in
    (start_at i block ∷ delta_at i delta ∷ [], s')

module _ (decimal : ℤ → String) (thinking_enabled : Bool) where
  unfoldable pub transform_start : ℤ → Block → PolicyState → List Event × PolicyState
  unfolding synthetic_close_other_open_blocks allocate_new_segment
  transform_start upstream_index block s =
      if should_drop_block_type thinking_enabled (block_type block)
      then ([], record s { dropped_indexes = add upstream_index s.dropped_indexes })
      else (let (prefix, s') = synthetic_close_other_open_blocks upstream_index s in
          let (i, s'') = allocate_new_segment upstream_index (block_type block) (some block) s' in
          (prefix ++ start_at i block ∷ [], s''))

  unfoldable pub delta_in_segment :
      ℤ → Delta → BlockKind → Option UpstreamBlock → PolicyState → List Event × PolicyState
  unfolding synthetic_start_content_block allocate_new_segment
  delta_in_segment upstream_index delta kind (some seg) s =
      if seg.is_open
      then (delta_at seg.down_index delta ∷ [], s)
      else reopened upstream_index kind
          (synthetic_start_content_block decimal kind upstream_index seg.last_start_block)
          seg.last_start_block delta
          (record s {
            pending_suppressed_stops = discard upstream_index s.pending_suppressed_stops;
          })
  delta_in_segment upstream_index delta thinking none s =
      (content_block_delta (some upstream_index) (some delta) ∷ [], s)
  delta_in_segment upstream_index delta kind none s =
      let block = synthetic_start_content_block decimal kind upstream_index none in
      reopened upstream_index kind block (some block) delta s

  unfoldable pub delta_of_kind :
      ℤ → Delta → Option BlockKind → PolicyState → List Event × PolicyState
  unfolding delta_in_segment
  delta_of_kind upstream_index delta none s =
      (content_block_delta (some upstream_index) (some delta) ∷ [], s)
  delta_of_kind upstream_index delta (some kind) s =
      delta_in_segment upstream_index delta kind (get upstream_index s.by_upstream) s

  unfoldable pub transform_delta : ℤ → Delta → PolicyState → List Event × PolicyState
  unfolding delta_of_kind should_drop_block_type delta_type_to_block_kind
  transform_delta upstream_index delta s =
      if contains upstream_index s.dropped_indexes
      then ([], s)
      else if should_drop_block_type thinking_enabled (delta_type delta)
      then ([], s)
      else delta_of_kind upstream_index delta (delta_type_to_block_kind delta) s

  unfoldable pub stop_segment : ℤ → Option UpstreamBlock → PolicyState → List Event × PolicyState
  stop_segment upstream_index (some seg) s =
      if seg.is_open
      then (
        stop_at seg.down_index ∷ [],
        record s {
          by_upstream = put upstream_index (record seg { is_open = false }) s.by_upstream;
        },
      )
      else ([], s)
  stop_segment upstream_index none s =
      (if thinking_enabled then content_block_stop (some upstream_index) ∷ [] else [], s)

  unfoldable pub transform_stop : ℤ → PolicyState → List Event × PolicyState
  unfolding stop_segment
  transform_stop upstream_index s =
      if contains upstream_index s.dropped_indexes
      then ([], s)
      else if contains upstream_index s.pending_suppressed_stops
      then (
        [],
        record s { pending_suppressed_stops = discard upstream_index s.pending_suppressed_stops },
      )
      else stop_segment upstream_index (get upstream_index s.by_upstream) s

  unfoldable pub transform : Event → PolicyState → List Event × PolicyState
  unfolding transform_start transform_delta transform_stop
  transform (content_block_start (some i) (some block)) s = transform_start i block s
  transform (content_block_delta (some i) (some delta)) s = transform_delta i delta s
  transform (content_block_stop (some i)) s = transform_stop i s
  transform event s = (event ∷ [], s)

  -- The events of a stream, one after the other.
  unfoldable pub transform_all : List Event → PolicyState → List Event × PolicyState
  unfolding transform
  transform_all [] s = ([], s)
  transform_all (e ∷ es) s =
      let (out, s') = transform e s in let (outs, s'') = transform_all es s' in (out ++ outs, s'')
