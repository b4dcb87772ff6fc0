-- ===== src/Think.antt =====
-- `ThinkTagParser` of free-claude-code/core/anthropic/thinking.py, over the characters of a text.
pub mod Laws
mod Tests
use Prim.Native.String.{◌++◌}
use vega_claude.Prelude.{
  ℕ, zero, suc, ◌+◌, ◌-◌, String, Option, none, some, Bool, true, false, ◌&&◌, ◌||◌, List, [], ◌∷◌,
  ltb, nat_beq, if◌then◌else◌,
}
use vega_claude.Prelude.Text.{is_null, size, begins, first, rest_from, find, rfind}

pub data ContentType : Type 0 where
  text thinking : ContentType

pub record ContentChunk : Type 0 where
  pub type : ContentType
  pub content : String

pub record ThinkTagParser : Type 0 where
  pub buffer : String
  pub in_think_tag : Bool

abbrev pub open_tag : String
open_tag = "<think>"

abbrev pub close_tag : String
close_tag = "</think>"

abbrev pub new_parser : ThinkTagParser
new_parser = record { buffer = ""; in_think_tag = false }

-- `ContentChunk(type, content)` if there is content, else None
unfoldable pub chunk_of : ContentType → String → Option ContentChunk
chunk_of type content =
    if is_null content then none else some (record { type = type; content = content })

-- What a parse step returns, and the parser after it.
abbrev pub Step : Type 0
Step = Option ContentChunk × ThinkTagParser

-- Emits the buffer up to `i` and keeps it from `j` on.
unfoldable pub cut : ContentType → ℕ → ℕ → Bool → String → Step
unfolding chunk_of
cut type i j in_tag buffer =
    (chunk_of type (first i buffer), record { buffer = rest_from j buffer; in_think_tag = in_tag })

-- Whether the end of the buffer may be the beginning of a tag.
unfoldable pub may_open : String → Bool
unfolding size
may_open tail = ltb (size tail) (size open_tag) && begins tail open_tag

unfoldable pub may_close : String → Bool
unfolding size
may_close tail = ltb (size tail) (size close_tag) && begins tail close_tag

-- No tag starts in the buffer; the place of the last `<` is given.
unfoldable pub emit_outside : String → Option ℕ → Step
unfolding cut may_open may_close
emit_outside buffer none = cut ContentType.text (size buffer) (size buffer) false buffer
emit_outside buffer (some i) =
    if may_open (rest_from i buffer) || may_close (rest_from i buffer)
    then cut ContentType.text i i false buffer
    else cut ContentType.text (size buffer) (size buffer) false buffer

-- The places of the open tag and of an orphan close tag are given.
unfoldable pub outside_at : String → Option ℕ → Option ℕ → Step
unfolding emit_outside
outside_at buffer none none = emit_outside buffer (rfind b'<' buffer)
outside_at buffer none (some j) = cut ContentType.text j (j + size close_tag) false buffer
outside_at buffer (some i) none = cut ContentType.text i (i + size open_tag) true buffer
outside_at buffer (some i) (some j) =
    if ltb j i
    then cut ContentType.text j (j + size close_tag) false buffer
    else cut ContentType.text i (i + size open_tag) true buffer

unfoldable pub parse_outside_think : String → Step
unfolding outside_at
parse_outside_think buffer = outside_at buffer (find open_tag buffer) (find close_tag buffer)

unfoldable pub emit_inside : String → Option ℕ → Step
unfolding cut may_close
emit_inside buffer none = cut ContentType.thinking (size buffer) (size buffer) true buffer
emit_inside buffer (some i) =
    if may_close (rest_from i buffer)
    then cut ContentType.thinking i i true buffer
    else cut ContentType.thinking (size buffer) (size buffer) true buffer

unfoldable pub inside_at : String → Option ℕ → Step
unfolding emit_inside
inside_at buffer none = emit_inside buffer (rfind b'<' buffer)
inside_at buffer (some i) = cut ContentType.thinking i (i + size close_tag) false buffer

unfoldable pub parse_inside_think : String → Step
unfolding inside_at
parse_inside_think buffer = inside_at buffer (find close_tag buffer)

unfoldable pub parse_step : ThinkTagParser → Step
unfolding parse_outside_think parse_inside_think
parse_step p = if p.in_think_tag then parse_inside_think p.buffer else parse_outside_think p.buffer

-- What `feed` yields, and the parser after it; `none` when the fuel runs out.
abbrev pub Feed : Type 0
Feed = Option (List ContentChunk × ThinkTagParser)

abbrev pub yielding : ContentChunk → Feed → Feed
yielding c none = none
yielding c (some (cs, p)) = some (c ∷ cs, p)

-- The end of a round: `size` is the buffer's length before it, and `loop` the rounds after it.
unfoldable pub feed_next : (ThinkTagParser → Feed) → ℕ → Option ContentChunk → ThinkTagParser → Feed
feed_next loop size_before (some c) p = yielding c (loop p)
feed_next loop size_before none p =
    if nat_beq (size p.buffer) size_before then some ([], p) else loop p

-- One round of `while self._buffer`.
unfoldable pub feed_round : (ThinkTagParser → Feed) → ThinkTagParser → Feed
unfolding feed_next
feed_round loop p =
    let (c, p') = parse_step p in
    if is_null p.buffer then some ([], p) else feed_next loop (size p.buffer) c p'

unfoldable pub feed_loop : ℕ → ThinkTagParser → Feed
unfolding feed_round
feed_loop zero p = none
feed_loop (suc fuel) p = feed_round (feed_loop fuel) p

-- Each round but the last shortens the buffer, so its length is fuel enough.
unfoldable pub feed : ThinkTagParser → String → Feed
unfolding feed_loop
feed p content =
    let p' = record p { buffer = p.buffer ++ content } in feed_loop (suc (size p'.buffer)) p'

unfoldable pub flush : ThinkTagParser → Option ContentChunk × ThinkTagParser
unfolding chunk_of
flush p = (
  chunk_of (if p.in_think_tag then ContentType.thinking else ContentType.text) p.buffer,
  record p { buffer = "" },
)
