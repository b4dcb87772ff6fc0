-- ===== src/Native/Plain.antt =====
-- Events that carry no thinking.
use vega_claude.Prelude.{◌≡◌, some, Bool, true, false}
use vega_claude.Sse.Event.{Event, Block, Delta, content_block_start, content_block_delta}

abbrev pub is_plain_block : Block → Bool
is_plain_block (Block.thinking t) = false
is_plain_block Block.redacted_thinking = false
is_plain_block _ = true

abbrev pub is_plain_delta : Delta → Bool
is_plain_delta (Delta.thinking_delta t) = false
is_plain_delta (Delta.signature_delta t) = false
is_plain_delta _ = true

-- The event carries no thinking.
abbrev pub IsPlain : Event → Type 0
IsPlain (content_block_start i (some block)) = is_plain_block block ≡ true
IsPlain (content_block_delta i (some delta)) = is_plain_delta delta ≡ true
IsPlain _ = Unit
