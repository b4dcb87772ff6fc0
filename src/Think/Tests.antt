-- ===== src/Think/Tests.antt =====
-- A run of the think-tag parser.
use Prim.Native.String.{◌++◌}
use vega_claude.Prelude.{◌≡◌, some, List, ◌<◌}
use vega_claude.Prelude.Text.{size}
use vega_claude.Think.{ContentChunk, ThinkTagParser, new_parser, close_tag, feed}
use vega_claude.Think.Laws.{Reads, feed-Reads}

feed-Reads_example :
    (cs : List ContentChunk) × (p : ThinkTagParser) × (feed new_parser "a<think>b</thi"
      ≡ some (cs, p))
    × Reads p.in_think_tag p.buffer new_parser.in_think_tag
        (new_parser.buffer ++ "a<think>b</thi")
        cs
    × (size p.buffer < size close_tag)
feed-Reads_example = feed-Reads new_parser "a<think>b</thi"
