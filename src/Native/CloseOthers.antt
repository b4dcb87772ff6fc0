-- ===== src/Native/CloseOthers.antt =====
-- The stops of the segments that are open, as the stream contract sees them.
use vega_claude.Prelude.{
  ◌≡◌, refl, ◌≢◌, ap, ◌∙◌, Option, none, some, Bool, true, false, not, ◌||◌, List, [], ◌∷◌, Dict,
  IsDict, All, get, has, has-get, has-remove, contains, contains-add, add, ◌==◌, ==_iff, arith,
  if◌then◌else◌, nat_eq,
}
use vega_claude.Prelude.Int.{ℤ, pos, int_eq}
use vega_claude.Sse.Contract.{Checker, ok, check_event, check_events, check_stop}
use vega_claude.Sse.Sync.{closed}
use vega_claude.Native.Policy.{UpstreamBlock, Closing, stop_at, close_others}

-- No open segment of the list has this index.
abbrev pub Unused : ℤ → Dict ℤ UpstreamBlock → Type 0
Unused k d = All (λ p. p.1.is_open ≡ true → pos p.1.down_index ≢ k) d

-- The open segments are open for the checker, at indices of their own.
abbrev pub Live : Checker → Dict ℤ UpstreamBlock → Type 0
Live c [] = Unit
Live c ((i, seg) ∷ d) =
    (seg.is_open ≡ true
      → (has (pos seg.down_index) c.open_blocks ≡ true) × Unused (pos seg.down_index) d)
    × Live c d

Live-closed :
    (c : Checker) (k : ℤ) (d : Dict ℤ UpstreamBlock) → Unused k d → Live c d → Live (closed c k) d
Live-closed c k [] u h = tt
Live-closed c k ((i, seg) ∷ d) u h = (
  λ e. (
    ground (
      arith,
      has-remove k (pos seg.down_index) c.open_blocks,
      (h.0 e).0,
      u.0 e,
      ==_iff k (pos seg.down_index),
    ),
    (h.0 e).1,
  ),
  Live-closed c k d u.1 h.1,
)

abbrev pub shut : Option UpstreamBlock → Option UpstreamBlock
shut none = none
shut (some seg) = some (record seg { is_open = false })

abbrev pub open_in : Option UpstreamBlock → Bool
open_in none = false
open_in (some seg) = seg.is_open

-- What the loop leaves, where the current block is not among the segments.
pub record Shut (allow : Bool) (c : Checker) (pending : List ℤ) (d : Dict ℤ UpstreamBlock)
    (r : Closing) : Type 0 where
  pub checker : Checker
  pub accepted : check_events allow c r.stops ≡ ok checker
  pub seen_same : checker.seen_blocks ≡ c.seen_blocks
  pub left : (k : ℤ) → has k checker.open_blocks ≡ true → (has k c.open_blocks ≡ true) × Unused k d
  pub segments_shut : (j : ℤ) → get j r.segments ≡ shut (get j d)
  pub keys_same : (j : ℤ) → has j r.segments ≡ has j d
  pub distinct : IsDict r.segments
  pub marked : (j : ℤ) → contains j r.suppressed ≡ (contains j pending || open_in (get j d))

same_if_shut : (seg : UpstreamBlock) → seg.is_open ≡ false → seg ≡ record seg { is_open = false }
same_if_shut seg e = ap (λ b. record seg { is_open = b }) e

get-shut :
    (i : ℤ) (seg seg' : UpstreamBlock) (rest d : Dict ℤ UpstreamBlock)
    → seg' ≡ record seg { is_open = false }
    → ((j : ℤ) → get j rest ≡ shut (get j d))
    → (j : ℤ) → get j ((i, seg') ∷ rest) ≡ shut (get j ((i, seg) ∷ d))
get-shut i seg seg' rest d e h j = go (i == j)
  where
    go : (b : Bool) → (if b then some seg' else get j rest) ≡ shut (if b then some seg else get j d)
    go true = ap some e
    go false = h j

module _ (allow : Bool) (current i : ℤ) (seg : UpstreamBlock) (pending : List ℤ)
    (d : Dict ℤ UpstreamBlock) (c : Checker) (absent : has i d ≡ false) where
  kept_shut :
      seg.is_open ≡ false
      → (r : Closing) → Shut allow c pending d r
      → Shut allow c pending ((i, seg) ∷ d) (record r { segments = (i, seg) ∷ r.segments })
  kept_shut e r h = record {
    checker = h.checker;
    accepted = h.accepted;
    seen_same = h.seen_same;
    left = λ k q. let (o, u) = h.left k q in (o, (λ x. cc, u));
    segments_shut = get-shut i seg seg r.segments d (same_if_shut seg e) h.segments_shut;
    keys_same = λ j. ground (arith, h.keys_same j);
    distinct = (h.keys_same i ∙ absent, h.distinct);
    marked = λ j. ground (arith, h.marked j, has-get j d, ==_iff i j);
  }

  stopped :
      (r : Closing)
      → has (pos seg.down_index) c.open_blocks ≡ true
      → seg.is_open ≡ true
      → Shut allow (closed c (pos seg.down_index)) pending d r
      → Shut allow c pending ((i, seg) ∷ d) (record {
        stops = stop_at seg.down_index ∷ r.stops;
        segments = (i, record seg { is_open = false }) ∷ r.segments;
        suppressed = add i r.suppressed;
      })
  unfolding check_events check_event check_stop
  stopped r live e h = record {
    checker = h.checker;
    accepted = rw live h.accepted;
    seen_same = h.seen_same;
    left = λ k q.
        let (o, u) = h.left k q in
        (
          ground (arith, has-remove (pos seg.down_index) k c.open_blocks),
          (
            λ x y. ground (
              arith,
              has-remove (pos seg.down_index) k c.open_blocks,
              ==_iff (pos seg.down_index) k,
            ),
            u,
          ),
        );
    segments_shut =
        get-shut i seg (record seg { is_open = false }) r.segments d refl h.segments_shut;
    keys_same = λ j. ground (arith, h.keys_same j);
    distinct = (h.keys_same i ∙ absent, h.distinct);
    marked =
        λ j. ground (arith, h.marked j, has-get j d, ==_iff i j, contains-add j i r.suppressed);
  }

  one_more :
      (i == current) ≡ false
      → (seg.is_open ≡ true → has (pos seg.down_index) c.open_blocks ≡ true)
      → (seg.is_open ≡ true
          → Shut allow (closed c (pos seg.down_index)) pending d (close_others current pending d))
      → (seg.is_open ≡ false → Shut allow c pending d (close_others current pending d))
      → Shut allow c pending ((i, seg) ∷ d) (close_others current pending ((i, seg) ∷ d))
  unfolding close_others
  one_more apart live open_case shut_case =
      go (i == current || not seg.is_open) (λ q. ground arith) (λ q. ground arith)
    where
      rest : Closing
      rest = close_others current pending d

      go :
          (t : Bool)
          → (t ≡ true → seg.is_open ≡ false)
          → (t ≡ false → seg.is_open ≡ true)
          → Shut allow c pending ((i, seg) ∷ d) (
              if t then record rest { segments = (i, seg) ∷ rest.segments } else record {
                stops = stop_at seg.down_index ∷ rest.stops;
                segments = (i, record seg { is_open = false }) ∷ rest.segments;
                suppressed = add i rest.suppressed;
              })
      go true q r = kept_shut (q refl) rest (shut_case (q refl))
      go false q r = let e = r refl in stopped rest (live e) e (open_case e)

pub close_others-Shut :
    (allow : Bool) (current : ℤ) (pending : List ℤ) (d : Dict ℤ UpstreamBlock) (c : Checker)
    → IsDict d
    → has current d ≡ false
    → Live c d
    → Shut allow c pending d (close_others current pending d)
unfolding close_others check_events
close_others-Shut allow current pending [] c n a h = record {
  checker = c;
  accepted = refl;
  seen_same = refl;
  left = λ k q. (q, tt);
  segments_shut = λ j. refl;
  keys_same = λ j. refl;
  distinct = tt;
  marked = λ j. ground arith;
}
close_others-Shut allow current pending ((i, seg) ∷ d) c n a h =
    one_more allow current i seg pending d c n.0 (ground (arith, ==_iff i current)) (λ e. (h.0 e).0)
      (λ e.
        close_others-Shut allow current pending d (closed c (pos seg.down_index)) n.1 (ground arith)
          (Live-closed c (pos seg.down_index) d (h.0 e).1 h.1))
      (λ e. close_others-Shut allow current pending d c n.1 (ground arith) h.1)
