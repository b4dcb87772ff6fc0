-- ===== src/Sse/Sync/Whole.antt =====
-- A block that is started, written once and stopped at once, as for an error text.
use vega_claude.Prelude.{
  ◌+◌, ◌≡◌, refl, String, some, Bool, List, [], ◌∷◌, put, get-put, get-remove, has-put, has-get,
  contains-add, arith, ==_iff, ==_refl,
}
use vega_claude.Prelude.Int.{ℤ, pos, int_eq}
use vega_claude.Sse.Event.{Event, Block, Delta}
use vega_claude.Sse.Generator.{done}
use vega_claude.Sse.Blocks.{ContentBlockManager}
use vega_claude.Sse.Builder.{SseBuilder, start_event, delta_event, stop_event, emit_error}
use vega_claude.Sse.Contract.{
  Checker, Kind, text, ok, storage, check_delta, check_event, check_events,
}
use vega_claude.Sse.Sync.{live, Sync, opened, closed, fresh_open, is_empty-add, Below-suc}
use vega_claude.Sse.Sync.Ran.{Ran, Done}
use vega_claude.Sse.Sync.Steps.{check_start_fresh}

abbrev pub block_events : ℤ → Block → Delta → List Event
block_events i block delta = start_event i block ∷ delta_event i delta ∷ stop_event i ∷ []

module _ (allow : Bool) {b : ContentBlockManager} {c : Checker} (sync : Sync b c)
    (kind : Kind) where
  abbrev index : ℤ
  index = pos b.next_index

  abbrev passed : Checker
  passed = closed (opened c index kind) index

  check_block :
      (block : Block) (delta : Delta)
      → storage (some block) ≡ some kind
      → check_delta kind (some delta) ≡ ok tt
      → check_events allow c (block_events index block delta) ≡ ok passed
  unfolding check_events check_event
  check_block block delta e d = rw (check_start_fresh allow b c block kind sync e) (
      rw (get-put index index kind c.open_blocks) (
        rw (==_refl index)
          (rw d (rw (has-put index index kind c.open_blocks) (rw (==_refl index))))))

  pub Sync-passed :
      (b' : ContentBlockManager) → b' ≡ record b { next_index = b.next_index + 1 } → Sync b' passed
  unfolding live
  Sync-passed b' e = rw e (record {
    agree = λ k. ground (
      arith,
      get-remove index k (put index kind c.open_blocks),
      get-put index k kind c.open_blocks,
      sync.agree k,
      fresh_open sync,
      ==_iff index k,
      has-get k c.open_blocks,
    );
    live_distinct = sync.live_distinct;
    live_below = λ k h. Below-suc b.next_index k (sync.live_below k h);
    seen_below = λ k h. ground (
      arith,
      contains-add k index c.seen_blocks,
      sync.seen_below k,
      ==_iff index k,
      Below-suc b.next_index k,
    );
    tools_distinct = sync.tools_distinct;
    seen_any = λ _. is_empty-add index c.seen_blocks;
    live_any = λ k _. omega arith;
    text_any = λ _. omega arith;
    thinking_any = λ _. omega arith;
  })

  -- A run that yields one whole block at the next index.
  pub Ran-block :
      (s : SseBuilder) (block : Block) (delta : Delta)
      → s.blocks ≡ record b { next_index = b.next_index + 1 }
      → storage (some block) ≡ some kind
      → check_delta kind (some delta) ≡ ok tt
      → Ran allow Done c
          (record { exit = done; state = s; events = block_events index block delta })
  Ran-block s block delta same e d = record {
    checker = passed;
    accepted = check_block block delta e d;
    sync = Sync-passed s.blocks same;
    ends = refl;
  }

pub emit_error-Ran :
    (allow : Bool) (message : String) (s : SseBuilder) (c : Checker)
    → Sync s.blocks c
    → Ran allow Done c (emit_error message s)
unfolding emit_error storage check_delta
emit_error-Ran allow message s c sync =
    Ran-block allow sync text
      (record s { blocks = record (s.blocks) { next_index = s.blocks.next_index + 1 } })
      (Block.text "") (Delta.text_delta message) refl refl refl
