-- ===== src/Native/Deltas.antt =====
-- A delta keeps the policy in step.
use vega_claude.Prelude.{
  ◌≡◌, refl, ap, ◌∙◌, subst, String, Option, none, some, Bool, true, false, List, [], ◌∷◌, get,
  get-put, contains, discard, ==_refl, if◌then◌else◌, nat_eq,
}
use mathlib.Core.Option
use mathlib.Core.Option.{some-injective}
use vega_claude.Prelude.Int.{ℤ, pos, int_eq}
use vega_claude.Sse.Event.{Event, Block, Delta}
use vega_claude.Sse.Contract.{
  Checker, Kind, ok, storage, check_event, check_events, check_start, check_delta, check_delta_at,
}
use vega_claude.Sse.Sync.{opened}
use vega_claude.Native.Policy.{
  UpstreamBlock, PolicyState, BlockKind, delta_at, delta_type, reopened,
  synthetic_start_content_block, allocate_new_segment, should_drop_block_type,
  delta_type_to_block_kind, transform_delta, delta_of_kind, delta_in_segment,
}
use vega_claude.Native.InStep.{InStep, Placed, Stepped, silent, next_unopened, next_unseen}
use vega_claude.Native.Reopen.{reopen-InStep}
use vega_claude.Native.Inverse.{delta-inverse}

abbrev pub stored_kind : BlockKind → Kind
stored_kind BlockKind.text = Kind.text
stored_kind BlockKind.thinking = Kind.thinking
stored_kind BlockKind.tool_use = Kind.tool_use

-- A delta that the checker accepts names the kind of its block.
pub delta_kind :
    (kind : Kind) (delta : Delta)
    → check_delta kind (some delta) ≡ ok tt
    → Option.map stored_kind (delta_type_to_block_kind delta) ≡ some kind
unfolding check_delta delta_type_to_block_kind
delta_kind Kind.text (Delta.text_delta t) e = refl
delta_kind Kind.text (Delta.thinking_delta t) e = cc
delta_kind Kind.text (Delta.signature_delta t) e = cc
delta_kind Kind.text (Delta.input_json_delta t) e = cc
delta_kind Kind.text (Delta.unknown t) e = cc
delta_kind Kind.text_eager (Delta.text_delta t) e = cc
delta_kind Kind.text_eager (Delta.thinking_delta t) e = cc
delta_kind Kind.text_eager (Delta.signature_delta t) e = cc
delta_kind Kind.text_eager (Delta.input_json_delta t) e = cc
delta_kind Kind.text_eager (Delta.unknown t) e = cc
delta_kind Kind.thinking (Delta.text_delta t) e = cc
delta_kind Kind.thinking (Delta.thinking_delta t) e = refl
delta_kind Kind.thinking (Delta.signature_delta t) e = refl
delta_kind Kind.thinking (Delta.input_json_delta t) e = cc
delta_kind Kind.thinking (Delta.unknown t) e = cc
delta_kind Kind.tool_use (Delta.text_delta t) e = cc
delta_kind Kind.tool_use (Delta.thinking_delta t) e = cc
delta_kind Kind.tool_use (Delta.signature_delta t) e = cc
delta_kind Kind.tool_use (Delta.input_json_delta t) e = refl
delta_kind Kind.tool_use (Delta.unknown t) e = cc
delta_kind Kind.redacted_thinking (Delta.text_delta t) e = cc
delta_kind Kind.redacted_thinking (Delta.thinking_delta t) e = cc
delta_kind Kind.redacted_thinking (Delta.signature_delta t) e = cc
delta_kind Kind.redacted_thinking (Delta.input_json_delta t) e = cc
delta_kind Kind.redacted_thinking (Delta.unknown t) e = cc
delta_kind Kind.server_tool_use (Delta.text_delta t) e = cc
delta_kind Kind.server_tool_use (Delta.thinking_delta t) e = cc
delta_kind Kind.server_tool_use (Delta.signature_delta t) e = cc
delta_kind Kind.server_tool_use (Delta.input_json_delta t) e = cc
delta_kind Kind.server_tool_use (Delta.unknown t) e = cc
delta_kind Kind.web_search_tool_result (Delta.text_delta t) e = cc
delta_kind Kind.web_search_tool_result (Delta.thinking_delta t) e = cc
delta_kind Kind.web_search_tool_result (Delta.signature_delta t) e = cc
delta_kind Kind.web_search_tool_result (Delta.input_json_delta t) e = cc
delta_kind Kind.web_search_tool_result (Delta.unknown t) e = cc
delta_kind Kind.web_fetch_tool_result (Delta.text_delta t) e = cc
delta_kind Kind.web_fetch_tool_result (Delta.thinking_delta t) e = cc
delta_kind Kind.web_fetch_tool_result (Delta.signature_delta t) e = cc
delta_kind Kind.web_fetch_tool_result (Delta.input_json_delta t) e = cc
delta_kind Kind.web_fetch_tool_result (Delta.unknown t) e = cc

storage_of_start :
    (decimal : ℤ → String) (bk : BlockKind) (i : ℤ) (stored : Option Block)
    → storage (some (synthetic_start_content_block decimal bk i stored)) ≡ some (stored_kind bk)
unfolding storage synthetic_start_content_block
storage_of_start decimal BlockKind.text i stored = refl
storage_of_start decimal BlockKind.thinking i stored = refl
storage_of_start decimal BlockKind.tool_use i none = refl
storage_of_start decimal BlockKind.tool_use i (some (Block.text t)) = refl
storage_of_start decimal BlockKind.tool_use i (some (Block.thinking t)) = refl
storage_of_start decimal BlockKind.tool_use i (some (Block.tool_use x n)) = refl
storage_of_start decimal BlockKind.tool_use i (some Block.redacted_thinking) = refl
storage_of_start decimal BlockKind.tool_use i (some Block.server_tool_use) = refl
storage_of_start decimal BlockKind.tool_use i (some Block.web_search_tool_result) = refl
storage_of_start decimal BlockKind.tool_use i (some Block.web_fetch_tool_result) = refl
storage_of_start decimal BlockKind.tool_use i (some (Block.unknown t)) = refl

module _ (allow : Bool) (i : ℤ) (kind : Kind) (delta : Delta) {c d : Checker} {s : PolicyState}
    (h : InStep c s d) (open_up : get i c.open_blocks ≡ some kind)
    (fits : check_delta kind (some delta) ≡ ok tt)
    (kept : contains i s.dropped_indexes ≡ false) where
  pass-Stepped :
      (seg : UpstreamBlock)
      → get (pos seg.down_index) d.open_blocks ≡ some kind
      → Stepped allow c (delta_at seg.down_index delta ∷ []) s d
  unfolding check_events check_event check_delta_at
  pass-Stepped seg e = record { checker = d; accepted = rw e (rw fits refl); in_step = h }

  reopen-Stepped :
      (old : UpstreamBlock) (bk : BlockKind) (block : Block) (stored : Option Block)
      → get i s.by_upstream ≡ some old
      → old.is_open ≡ false
      → storage (some block) ≡ some kind
      → let r =
          reopened i bk block stored delta
            (record s { pending_suppressed_stops = discard i s.pending_suppressed_stops }) in
        Stepped allow c r.0 r.1 d
  unfolding allocate_new_segment check_events check_event check_delta_at check_start
  reopen-Stepped old bk block stored here shut same = record {
    checker = opened d (pos s.next_index) kind;
    accepted = rw same (
        rw (next_unopened h) (
          rw (next_unseen h) (
            rw (get-put (pos s.next_index) (pos s.next_index) kind d.open_blocks)
              (rw (==_refl s.next_index) (rw fits refl)))));
    in_step = reopen-InStep h i kind open_up kept old here shut _ refl refl;
  }

module _ (allow : Bool) (decimal : ℤ → String) (thinking_enabled : Bool) (i : ℤ) (kind : Kind)
    (delta : Delta) {c d : Checker} {s : PolicyState} (h : InStep c s d)
    (open_up : get i c.open_blocks ≡ some kind) (fits : check_delta kind (some delta) ≡ ok tt) where
  segment-Stepped :
      (bk : BlockKind)
      → stored_kind bk ≡ kind
      → contains i s.dropped_indexes ≡ false
      → let r = delta_in_segment decimal thinking_enabled i delta bk (get i s.by_upstream) s in
        Stepped allow c r.0 r.1 d
  unfolding delta_in_segment
  segment-Stepped bk same kept = go (get i s.by_upstream) refl (h.placed i kind open_up kept)
    where
      go :
          (o : Option UpstreamBlock)
          → get i s.by_upstream ≡ o
          → Placed d s.pending_suppressed_stops i kind o
          → let r = delta_in_segment decimal thinking_enabled i delta bk o s in
            Stepped allow c r.0 r.1 d
      go none e p = absurd p
      go (some seg) e p = shown seg.is_open refl
        where
          block : Block
          block = synthetic_start_content_block decimal bk i seg.last_start_block

          shown :
              (b : Bool)
              → seg.is_open ≡ b
              → let r : List Event × PolicyState =
                  if b
                  then (delta_at seg.down_index delta ∷ [], s)
                  else reopened i bk block seg.last_start_block delta (record s {
                    pending_suppressed_stops = discard i s.pending_suppressed_stops;
                  }) in
                Stepped allow c r.0 r.1 d
          shown true q = pass-Stepped allow i kind delta h open_up fits kept seg (p.1 q)
          shown false q =
              reopen-Stepped allow i kind delta h open_up fits kept seg bk block
                seg.last_start_block e q
                (storage_of_start decimal bk i seg.last_start_block ∙ ap some same)

  kind-Stepped :
      contains i s.dropped_indexes ≡ false
      → let r = delta_of_kind decimal thinking_enabled i delta (delta_type_to_block_kind delta) s in
        Stepped allow c r.0 r.1 d
  unfolding delta_of_kind
  kind-Stepped kept = go (delta_type_to_block_kind delta) (delta_kind kind delta fits)
    where
      go :
          (o : Option BlockKind)
          → Option.map stored_kind o ≡ some kind
          → let r = delta_of_kind decimal thinking_enabled i delta o s in Stepped allow c r.0 r.1 d
      go none e = cc
      go (some bk) e = segment-Stepped bk (some-injective (stored_kind bk) kind e) kept

  passing-Stepped :
      let r = transform_delta decimal thinking_enabled i delta s in Stepped allow c r.0 r.1 d
  unfolding transform_delta
  passing-Stepped =
      go (contains i s.dropped_indexes) (should_drop_block_type thinking_enabled (delta_type delta))
        refl
    where
      go :
          (a b : Bool)
          → contains i s.dropped_indexes ≡ a
          → let r : List Event × PolicyState =
              if a
              then ([], s)
              else if b
              then ([], s)
              else delta_of_kind decimal thinking_enabled i delta
                  (delta_type_to_block_kind delta)
                  s in
            Stepped allow c r.0 r.1 d
      go true b e = silent h
      go false true e = silent h
      go false false e = kind-Stepped e

pub transform_delta-Stepped :
    (allow : Bool) (decimal : ℤ → String) (thinking_enabled : Bool) (i : ℤ) (delta : Delta)
    (s : PolicyState) (c c' d : Checker)
    → InStep c s d
    → check_delta_at c (get i c.open_blocks) (some delta) ≡ ok c'
    → let r = transform_delta decimal thinking_enabled i delta s in Stepped allow c' r.0 r.1 d
transform_delta-Stepped allow decimal thinking_enabled i delta s c c' d h e =
    let (kind, open_up, fits, same) = delta-inverse c c' i delta (get i c.open_blocks) e in
    subst
      (λ x. let r = transform_delta decimal thinking_enabled i delta s in Stepped allow x r.0 r.1 d)
      same (passing-Stepped allow decimal thinking_enabled i kind delta h open_up fits)
