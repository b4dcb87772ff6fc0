-- ===== src/Native/Hidden/Steps.antt =====
-- Each kind of event, with thinking disabled.
use vega_claude.Prelude.{
  ◌≡◌, refl, ◌∙◌, sym, subst, String, Option, none, some, Bool, true, false, not, ◌||◌, List, [],
  ◌∷◌, ◌++◌, Dict, All, All-append, get, put, get-put, get-remove, contains, add, discard,
  contains-add, ◌==◌, arith, if◌then◌else◌,
}
use mathlib.Core.Option
use mathlib.Core.Option.{some-injective}
use vega_claude.Prelude.Int.{ℤ, int_eq}
use vega_claude.Prelude.Text.{is_blank}
use vega_claude.Sse.Event.{Event, Block, Delta}
use vega_claude.Sse.Contract.{Checker, Kind, ok, storage, check_delta}
use vega_claude.Sse.Sync.{opened, closed}
use vega_claude.Native.Policy.{
  UpstreamBlock, PolicyState, BlockKind, start_at, delta_at, stop_at, block_type, delta_type,
  should_drop_block_type, delta_type_to_block_kind, close_others, synthetic_close_other_open_blocks,
  allocate_new_segment, synthetic_start_content_block, reopened, transform_start, delta_in_segment,
  delta_of_kind, transform_delta, stop_segment, transform_stop,
}
use vega_claude.Native.Plain.{is_plain_block, is_plain_delta, IsPlain}
use vega_claude.Native.Deltas.{delta_kind, stored_kind}

abbrev is_thought : Kind → Bool
is_thought Kind.thinking = true
is_thought Kind.redacted_thinking = true
is_thought _ = false

-- The thinking blocks that are open upstream are dropped.
abbrev pub Hidden : Checker → PolicyState → Type 0
Hidden c s =
    (i : ℤ) (kind : Kind)
    → get i c.open_blocks ≡ some kind
    → is_thought kind ≡ true
    → contains i s.dropped_indexes ≡ true

abbrev pub Plain : Checker → List Event × PolicyState → Type 0
Plain c r = All IsPlain r.0 × Hidden c r.1

stops-IsPlain :
    (i : ℤ) (pending : List ℤ) (d : Dict ℤ UpstreamBlock)
    → All IsPlain (close_others i pending d).stops
unfolding close_others
stops-IsPlain i pending [] = tt
stops-IsPlain i pending ((j, seg) ∷ d) = go (j == i || not seg.is_open) (stops-IsPlain i pending d)
  where
    go :
        (b : Bool)
        → All IsPlain (close_others i pending d).stops
        → let rest = close_others i pending d in
          All IsPlain
            (if b then record rest { segments = (j, seg) ∷ rest.segments } else record {
              stops = stop_at seg.down_index ∷ rest.stops;
              segments = (j, record seg { is_open = false }) ∷ rest.segments;
              suppressed = add j rest.suppressed;
            }).stops
    go true h = h
    go false h = (tt, h)

unthought : (b : Bool) → is_thought (if b then Kind.text else Kind.text_eager) ≡ false
unthought true = refl
unthought false = refl

plain_of_kind :
    (block : Block) (kind : Kind)
    → storage (some block) ≡ some kind
    → should_drop_block_type false (block_type block) ≡ false
    → (is_plain_block block ≡ true) × (is_thought kind ≡ false)
unfolding storage should_drop_block_type
plain_of_kind (Block.text t) kind e n = (
  refl,
  subst (λ z. is_thought z ≡ false)
      (some-injective (if is_blank t then Kind.text else Kind.text_eager) kind e)
      (unthought (is_blank t)),
)
plain_of_kind (Block.thinking t) kind e n = cc
plain_of_kind (Block.tool_use i x) kind e n =
    (refl, subst (λ z. is_thought z ≡ false) (some-injective Kind.tool_use kind e) refl)
plain_of_kind Block.redacted_thinking kind e n = cc
plain_of_kind Block.server_tool_use kind e n =
    (refl, subst (λ z. is_thought z ≡ false) (some-injective Kind.server_tool_use kind e) refl)
plain_of_kind Block.web_search_tool_result kind e n = (
  refl,
  subst (λ z. is_thought z ≡ false) (some-injective Kind.web_search_tool_result kind e) refl,
)
plain_of_kind Block.web_fetch_tool_result kind e n = (
  refl,
  subst (λ z. is_thought z ≡ false) (some-injective Kind.web_fetch_tool_result kind e) refl,
)
plain_of_kind (Block.unknown t) kind e n = cc

module _ (decimal : ℤ → String) (c : Checker) (s : PolicyState) (h : Hidden c s) (i : ℤ) where
  pub start_hidden :
      (kind : Kind) (block : Block)
      → storage (some block) ≡ some kind
      → Plain (opened c i kind) (transform_start decimal false i block s)
  unfolding transform_start synthetic_close_other_open_blocks allocate_new_segment
  start_hidden kind block e = go (should_drop_block_type false (block_type block)) refl
    where
      go :
          (b : Bool)
          → should_drop_block_type false (block_type block) ≡ b
          → let r : List Event × PolicyState =
              if b
              then ([], record s { dropped_indexes = add i s.dropped_indexes })
              else (let (prefix, s') = synthetic_close_other_open_blocks i s in
                  let (n, s'') = allocate_new_segment i (block_type block) (some block) s' in
                  (prefix ++ start_at n block ∷ [], s'')) in
            Plain (opened c i kind) r
      go true q = (
        tt,
        λ j k x y.
            ground
              (arith, contains-add j i s.dropped_indexes, get-put i j kind c.open_blocks, h j k),
      )
      go false q =
          let (plain, apart) = plain_of_kind block kind e q in
          (
            All-append IsPlain (close_others i s.pending_suppressed_stops s.by_upstream).stops _
                (stops-IsPlain i s.pending_suppressed_stops s.by_upstream) (plain, tt),
            λ j k x y. kept j k apart x y,
          )
        where
          kept :
              (j : ℤ) (k : Kind)
              → is_thought kind ≡ false
              → get j (put i kind c.open_blocks) ≡ some k
              → is_thought k ≡ true
              → contains j s.dropped_indexes ≡ true
          kept j k apart x y = by_key (i == j) (sym (get-put i j kind c.open_blocks) ∙ x)
            where
              by_key :
                  (b : Bool)
                  → (if b then some kind else get j c.open_blocks) ≡ some k
                  → contains j s.dropped_indexes ≡ true
              by_key true w =
                  let z = subst (λ v. is_thought v ≡ false) (some-injective kind k w) apart in cc
              by_key false w = h j k w y

  closed-Hidden : Hidden (closed c i) s
  closed-Hidden j k x y = h j k (ground (arith, get-remove i j c.open_blocks)) y

  segment_hidden :
      (o : Option UpstreamBlock) → Plain (closed c i) (stop_segment decimal false i o s)
  unfolding stop_segment
  segment_hidden none = (tt, closed-Hidden)
  segment_hidden (some seg) = go seg.is_open
    where
      go :
          (b : Bool)
          → let r : List Event × PolicyState =
              if b
              then (
                stop_at seg.down_index ∷ [],
                record s { by_upstream = put i (record seg { is_open = false }) s.by_upstream },
              )
              else ([], s) in
            Plain (closed c i) r
      go true = ((tt, tt), closed-Hidden)
      go false = (tt, closed-Hidden)

  pub stop_hidden : Plain (closed c i) (transform_stop decimal false i s)
  unfolding transform_stop
  stop_hidden = go (contains i s.dropped_indexes) (contains i s.pending_suppressed_stops)
    where
      go :
          (a b : Bool)
          → let r : List Event × PolicyState =
              if a
              then ([], s)
              else if b
              then (
                [],
                record s { pending_suppressed_stops = discard i s.pending_suppressed_stops },
              )
              else stop_segment decimal false i (get i s.by_upstream) s in
            Plain (closed c i) r
      go true b = (tt, closed-Hidden)
      go false true = (tt, closed-Hidden)
      go false false = segment_hidden (get i s.by_upstream)

  plain_synthetic :
      (bk : BlockKind) (o : Option Block)
      → is_thought (stored_kind bk) ≡ false
      → is_plain_block (synthetic_start_content_block decimal bk i o) ≡ true
  unfolding synthetic_start_content_block
  plain_synthetic BlockKind.text o e = refl
  plain_synthetic BlockKind.thinking o e = cc
  plain_synthetic BlockKind.tool_use none e = refl
  plain_synthetic BlockKind.tool_use (some (Block.text t)) e = refl
  plain_synthetic BlockKind.tool_use (some (Block.thinking t)) e = refl
  plain_synthetic BlockKind.tool_use (some (Block.tool_use x n)) e = refl
  plain_synthetic BlockKind.tool_use (some Block.redacted_thinking) e = refl
  plain_synthetic BlockKind.tool_use (some Block.server_tool_use) e = refl
  plain_synthetic BlockKind.tool_use (some Block.web_search_tool_result) e = refl
  plain_synthetic BlockKind.tool_use (some Block.web_fetch_tool_result) e = refl
  plain_synthetic BlockKind.tool_use (some (Block.unknown t)) e = refl

  in_segment_hidden :
      (delta : Delta) (bk : BlockKind) (o : Option UpstreamBlock)
      → is_plain_delta delta ≡ true
      → is_thought (stored_kind bk) ≡ false
      → Plain c (delta_in_segment decimal false i delta bk o s)
  unfolding delta_in_segment allocate_new_segment
  in_segment_hidden delta bk (some seg) p e = go seg.is_open
    where
      go :
          (b : Bool)
          → let r : List Event × PolicyState =
              if b
              then (delta_at seg.down_index delta ∷ [], s)
              else reopened i bk
                  (synthetic_start_content_block decimal bk i seg.last_start_block)
                  seg.last_start_block
                  delta
                  (record s { pending_suppressed_stops = discard i s.pending_suppressed_stops }) in
            Plain c r
      go true = ((p, tt), h)
      go false = ((plain_synthetic bk seg.last_start_block e, (p, tt)), h)
  in_segment_hidden delta BlockKind.thinking none p e = cc
  in_segment_hidden delta BlockKind.text none p e =
      ((plain_synthetic BlockKind.text none e, (p, tt)), h)
  in_segment_hidden delta BlockKind.tool_use none p e =
      ((plain_synthetic BlockKind.tool_use none e, (p, tt)), h)

  plain_of_delta :
      (delta : Delta) (kind : Kind)
      → Option.map stored_kind (delta_type_to_block_kind delta) ≡ some kind
      → is_thought kind ≡ false
      → is_plain_delta delta ≡ true
  unfolding delta_type_to_block_kind
  plain_of_delta (Delta.text_delta t) kind e n = refl
  plain_of_delta (Delta.thinking_delta t) kind e n =
      let q = subst (λ k. is_thought k ≡ false) (sym (some-injective Kind.thinking kind e)) n in cc
  plain_of_delta (Delta.signature_delta t) kind e n =
      let q = subst (λ k. is_thought k ≡ false) (sym (some-injective Kind.thinking kind e)) n in cc
  plain_of_delta (Delta.input_json_delta t) kind e n = refl
  plain_of_delta (Delta.unknown t) kind e n = refl

  kind_hidden :
      (delta : Delta) (kind : Kind)
      → check_delta kind (some delta) ≡ ok tt
      → is_thought kind ≡ false
      → Plain c (delta_of_kind decimal false i delta (delta_type_to_block_kind delta) s)
  unfolding delta_of_kind
  kind_hidden delta kind fits n =
      let e = delta_kind kind delta fits in
      go (delta_type_to_block_kind delta) e (plain_of_delta delta kind e n)
    where
      go :
          (o : Option BlockKind)
          → Option.map stored_kind o ≡ some kind
          → is_plain_delta delta ≡ true
          → Plain c (delta_of_kind decimal false i delta o s)
      go none e p = cc
      go (some bk) e p =
          in_segment_hidden delta bk (get i s.by_upstream) p
            (subst (λ k. is_thought k ≡ false) (sym (some-injective (stored_kind bk) kind e)) n)

  pub delta_hidden :
      (delta : Delta) (kind : Kind)
      → get i c.open_blocks ≡ some kind
      → check_delta kind (some delta) ≡ ok tt
      → Plain c (transform_delta decimal false i delta s)
  unfolding transform_delta
  delta_hidden delta kind open_up fits =
      go (contains i s.dropped_indexes) (should_drop_block_type false (delta_type delta)) refl
    where
      unthought_kind : contains i s.dropped_indexes ≡ false → is_thought kind ≡ false
      unthought_kind q = by_kind (is_thought kind) refl
        where
          by_kind : (b : Bool) → is_thought kind ≡ b → b ≡ false
          by_kind true e = let z = h i kind open_up e in ground arith
          by_kind false e = refl

      go :
          (a b : Bool)
          → contains i s.dropped_indexes ≡ a
          → let r : List Event × PolicyState =
              if a
              then ([], s)
              else if b
              then ([], s)
              else delta_of_kind decimal false i delta (delta_type_to_block_kind delta) s in
            Plain c r
      go true b e = (tt, h)
      go false true e = (tt, h)
      go false false e = kind_hidden delta kind fits (unthought_kind e)
