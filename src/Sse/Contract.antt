-- ===== src/Sse/Contract.antt =====
-- `assert_anthropic_stream_contract` of free-claude-code/core/anthropic/stream_contracts.py.
use vega_claude.Prelude.{
  Option, none, some, Bool, true, false, not, List, [], ◌∷◌, Dict, get, has, put, remove, contains,
  add, is_empty, if◌then◌else◌,
}
use vega_claude.Prelude.Int.{ℤ, int_eq}
use vega_claude.Prelude.Text.{is_blank}
use vega_claude.Sse.Event.{
  Event, Block, Delta, message_start, message_delta, message_stop, content_block_start,
  content_block_delta, content_block_stop, error, other, is_message_start, is_message_stop,
}

-- The assertions, by what their messages say.
pub data Violation : Type 0 where
  no_events no_message_start no_final_message_stop unexpected_error no_index : Violation
  bad_block started_twice reused_after_stop delta_for_unopened unexpected_delta : Violation
  wrong_delta stop_for_unopened unclosed_blocks no_blocks : Violation

pub data Result (A : Type 0) : Type 0 where
  ok : A → Result A
  fails : Violation → Result A

-- What `open_blocks` stores: a block's type, or "text_eager".
pub data Kind : Type 0 where
  text text_eager thinking tool_use redacted_thinking : Kind
  server_tool_use web_search_tool_result web_fetch_tool_result : Kind

pub record Checker : Type 0 where
  pub open_blocks : Dict ℤ Kind
  pub seen_blocks : List ℤ

abbrev pub fresh_checker : Checker
fresh_checker = record { open_blocks = []; seen_blocks = [] }

-- `none`: a type that is not in `_ALLOWED_BLOCK_START_TYPES`.
unfoldable pub storage : Option Block → Option Kind
unfolding is_blank
storage none = none
storage (some (Block.text t)) = some (if is_blank t then text else text_eager)
storage (some (Block.thinking t)) = some thinking
storage (some (Block.tool_use i n)) = some tool_use
storage (some Block.redacted_thinking) = some redacted_thinking
storage (some Block.server_tool_use) = some server_tool_use
storage (some Block.web_search_tool_result) = some web_search_tool_result
storage (some Block.web_fetch_tool_result) = some web_fetch_tool_result
storage (some (Block.unknown t)) = none

-- The checks on a delta for a block of this kind.
unfoldable pub check_delta : Kind → Option Delta → Result (Unit {0})
check_delta text (some (Delta.text_delta t)) = ok tt
check_delta text _ = fails wrong_delta
check_delta thinking (some (Delta.thinking_delta t)) = ok tt
check_delta thinking (some (Delta.signature_delta t)) = ok tt
check_delta thinking _ = fails wrong_delta
check_delta tool_use (some (Delta.input_json_delta t)) = ok tt
check_delta tool_use _ = fails wrong_delta
check_delta _ _ = fails unexpected_delta

unfoldable pub check_start : Checker → ℤ → Option Kind → Result Checker
check_start c index none = fails bad_block
check_start c index (some kind) =
    if has index c.open_blocks
    then fails started_twice
    else if contains index c.seen_blocks
    then fails reused_after_stop
    else ok (record {
      open_blocks = put index kind c.open_blocks;
      seen_blocks = add index c.seen_blocks;
    })

abbrev pub keep : Checker → Result (Unit {0}) → Result Checker
keep c (ok _) = ok c
keep c (fails v) = fails v

unfoldable pub check_delta_at : Checker → Option Kind → Option Delta → Result Checker
unfolding check_delta
check_delta_at c none delta = fails delta_for_unopened
check_delta_at c (some kind) delta = keep c (check_delta kind delta)

unfoldable pub check_stop : Checker → ℤ → Result Checker
check_stop c index =
    if has index c.open_blocks
    then ok (record c { open_blocks = remove index c.open_blocks })
    else fails stop_for_unopened

-- One round of the loop over the events.
unfoldable pub check_event : Bool → Checker → Event → Result Checker
unfolding storage check_start check_delta_at check_stop
check_event allow_error c (error m) = if allow_error then ok c else fails unexpected_error
check_event allow_error c (content_block_start none block) = fails no_index
check_event allow_error c (content_block_start (some index) block) =
    check_start c index (storage block)
check_event allow_error c (content_block_delta none delta) = fails no_index
check_event allow_error c (content_block_delta (some index) delta) =
    check_delta_at c (get index c.open_blocks) delta
check_event allow_error c (content_block_stop none) = fails no_index
check_event allow_error c (content_block_stop (some index)) = check_stop c index
check_event allow_error c (message_start _ _ _) = ok c
check_event allow_error c (message_delta _ _ _) = ok c
check_event allow_error c message_stop = ok c
check_event allow_error c (other _) = ok c

infixl 5 ◌>>=◌
abbrev pub ◌>>=◌ : {A B : Type 0} → Result A → (A → Result B) → Result B
ok a >>= f = f a
fails v >>= f = fails v

unfoldable pub check_events : Bool → Checker → List Event → Result Checker
check_events allow_error c [] = ok c
check_events allow_error c (e ∷ es) = do
  c' ← check_event allow_error c e
  check_events allow_error c' es

abbrev pub ends_with_stop : List Event → Bool
ends_with_stop [] = false
ends_with_stop (e ∷ []) = is_message_stop e
ends_with_stop (e ∷ e' ∷ es) = ends_with_stop (e' ∷ es)

abbrev pub has_message_start : List Event → Bool
has_message_start [] = false
has_message_start (e ∷ es) = if is_message_start e then true else has_message_start es

abbrev pub guard : Bool → Violation → Result (Unit {0})
guard true v = ok tt
guard false v = fails v

unfoldable pub assert_stream_contract : Bool → List Event → Result (Unit {0})
assert_stream_contract allow_error events = do
  _ ← guard (not (is_empty events)) no_events
  _ ← guard (has_message_start events) no_message_start
  _ ← guard (ends_with_stop events) no_final_message_stop
  c ← check_events allow_error fresh_checker events
  _ ← guard (is_empty c.open_blocks) unclosed_blocks
  guard (not (is_empty c.seen_blocks)) no_blocks
