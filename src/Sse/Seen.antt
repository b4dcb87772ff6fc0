-- ===== src/Sse/Seen.antt =====
-- The blocks that the checker of free-claude-code/core/anthropic/stream_contracts.py has seen.
use vega_claude.Prelude.{
  ◌≡◌, subst, Option, none, some, Bool, true, false, List, [], ◌∷◌, get, has, put, add, contains,
  remove, is_empty, if◌then◌else◌,
}
use vega_claude.Prelude.Int.{ℤ, int_eq}
use vega_claude.Sse.Event.{
  Event, Delta, message_start, message_delta, message_stop, content_block_start,
  content_block_delta, content_block_stop, error, other,
}
use vega_claude.Sse.Contract.{
  Checker, Kind, Result, ok, fails, started_twice, reused_after_stop, stop_for_unopened, ◌>>=◌,
  storage, keep, check_start, check_delta, check_delta_at, check_stop, check_event, check_events,
}
use vega_claude.Sse.Sync.{is_empty-add}

abbrev Seen : Result Checker → Type 0
Seen (ok c) = is_empty c.seen_blocks ≡ false
Seen (fails v) = Unit

Seen-check_start :
    (c : Checker) (i : ℤ) (o : Option Kind)
    → is_empty c.seen_blocks ≡ false
    → Seen (check_start c i o)
unfolding check_start
Seen-check_start c i none n = tt
Seen-check_start c i (some k) n = go (has i c.open_blocks) (contains i c.seen_blocks)
  where
    go :
        (a b : Bool)
        → Seen (
            if a
            then fails started_twice
            else if b
            then fails reused_after_stop
            else ok
                (record { open_blocks = put i k c.open_blocks; seen_blocks = add i c.seen_blocks }))
    go true b = tt
    go false true = tt
    go false false = is_empty-add i c.seen_blocks

Seen-check_delta :
    (c : Checker) (o : Option Kind) (d : Option Delta)
    → is_empty c.seen_blocks ≡ false
    → Seen (check_delta_at c o d)
unfolding check_delta_at
Seen-check_delta c none d n = tt
Seen-check_delta c (some k) d n = go (check_delta k d)
  where
    go : (r : Result (Unit {0})) → Seen (keep c r)
    go (ok u) = n
    go (fails v) = tt

Seen-check_stop : (c : Checker) (i : ℤ) → is_empty c.seen_blocks ≡ false → Seen (check_stop c i)
unfolding check_stop
Seen-check_stop c i n = go (has i c.open_blocks)
  where
    go :
        (b : Bool)
        → Seen (
            if b
            then ok (record c { open_blocks = remove i c.open_blocks })
            else fails stop_for_unopened)
    go true = n
    go false = tt

Seen-check_event :
    (allow : Bool) (c : Checker) (e : Event)
    → is_empty c.seen_blocks ≡ false
    → Seen (check_event allow c e)
unfolding check_event
Seen-check_event true c (error m) n = n
Seen-check_event false c (error m) n = tt
Seen-check_event allow c (content_block_start none b) n = tt
Seen-check_event allow c (content_block_start (some i) b) n = Seen-check_start c i (storage b) n
Seen-check_event allow c (content_block_delta none d) n = tt
Seen-check_event allow c (content_block_delta (some i) d) n =
    Seen-check_delta c (get i c.open_blocks) d n
Seen-check_event allow c (content_block_stop none) n = tt
Seen-check_event allow c (content_block_stop (some i)) n = Seen-check_stop c i n
Seen-check_event allow c (message_start a b t) n = n
Seen-check_event allow c (message_delta a b t) n = n
Seen-check_event allow c message_stop n = n
Seen-check_event allow c (other t) n = n

Seen-bind :
    (r : Result Checker) (f : Checker → Result Checker)
    → ((c : Checker) → is_empty c.seen_blocks ≡ false → Seen (f c))
    → Seen r
    → Seen (r >>= f)
Seen-bind (ok c) f h q = h c q
Seen-bind (fails v) f h q = tt

Seen-check_events :
    (allow : Bool) (c : Checker) (es : List Event)
    → is_empty c.seen_blocks ≡ false
    → Seen (check_events allow c es)
unfolding check_events
Seen-check_events allow c [] n = n
Seen-check_events allow c (e ∷ es) n =
    Seen-bind (check_event allow c e) (λ c'. check_events allow c' es)
      (λ c' q. Seen-check_events allow c' es q) (Seen-check_event allow c e n)

-- What was seen stays seen.
pub seen_after :
    (allow : Bool) (c c' : Checker) (es : List Event)
    → check_events allow c es ≡ ok c'
    → is_empty c.seen_blocks ≡ false
    → is_empty c'.seen_blocks ≡ false
seen_after allow c c' es h n = subst Seen h (Seen-check_events allow c es n)
