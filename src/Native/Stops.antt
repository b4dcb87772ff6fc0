-- ===== src/Native/Stops.antt =====
-- A delta and a stop keep the policy in step.
use vega_claude.Prelude.{
  ◌<◌, ◌≡◌, refl, sym, ap, ◌∙◌, subst, String, Option, none, some, Bool, true, false, List, [], ◌∷◌,
  get, has, has-get, put, remove, has-remove, has-put, get-put, get-remove, put-IsDict, contains,
  contains-discard, discard, ◌==◌, ==_iff, ==_refl, arith, if◌then◌else◌, nat_eq,
}
use mathlib.Core.Option.{some-injective}
use vega_claude.Prelude.Int.{ℤ, pos, int_eq}
use vega_claude.Sse.Event.{Event}
use vega_claude.Sse.Contract.{Checker, Kind, ok, check_event, check_events, check_stop}
use vega_claude.Sse.Sync.{closed}
use vega_claude.Native.Policy.{UpstreamBlock, PolicyState, stop_at, transform_stop, stop_segment}
use vega_claude.Native.CloseOthers.{open_in}
use vega_claude.Native.InStep.{InStep, Placed, Stepped, silent, live_down}
use vega_claude.Native.Inverse.{stop-inverse}

module _ {c d : Checker} {s : PolicyState} (h : InStep c s d) (i : ℤ) where
  -- The upstream block is closed, and no segment of it was open.
  closed-InStep : open_in (get i s.by_upstream) ≡ false → InStep (closed c i) s d
  closed-InStep o = record {
    placed = λ j k e x. h.placed j k (ground (arith, get-remove i j c.open_blocks)) x;
    live =
        λ j e. (ground (arith, has-remove i j c.open_blocks, h.live j, ==_iff i j), (h.live j e).1);
    fresh = h.fresh;
    owned = h.owned;
    alone = h.alone;
    below = h.below;
    seen_below = h.seen_below;
    distinct = h.distinct;
  }

  unmark-InStep :
      has i c.open_blocks ≡ false
      → InStep c (record s { pending_suppressed_stops = discard i s.pending_suppressed_stops }) d
  unmark-InStep n = record {
    placed = λ j k e x.
        unmarked j k (get j s.by_upstream) (ground (arith, has-get j c.open_blocks, ==_iff i j))
          (h.placed j k e x);
    live = h.live;
    fresh = λ j e.
        let q = h.fresh j e in
        (q.0, q.1, ground (arith, contains-discard j i s.pending_suppressed_stops));
    owned = h.owned;
    alone = h.alone;
    below = h.below;
    seen_below = h.seen_below;
    distinct = h.distinct;
  }
    where
      unmarked :
          (j : ℤ) (k : Kind) (o : Option UpstreamBlock)
          → (i == j) ≡ false
          → Placed d s.pending_suppressed_stops j k o
          → Placed d (discard i s.pending_suppressed_stops) j k o
      unmarked j k none apart p = p
      unmarked j k (some seg) apart p =
          (ground (arith, contains-discard j i s.pending_suppressed_stops, p.0), p.1)

  module _ (seg : UpstreamBlock) (here : get i s.by_upstream ≡ some seg)
      (opens : seg.is_open ≡ true) where
    abbrev after : PolicyState
    after = record s { by_upstream = put i (record seg { is_open = false }) s.by_upstream }

    other_open :
        (j : ℤ) (x : UpstreamBlock)
        → get j after.by_upstream ≡ some x
        → x.is_open ≡ true
        → ((i == j) ≡ false) × (get j s.by_upstream ≡ some x)
    other_open j x e o =
        go (i == j) (sym (get-put i j (record seg { is_open = false }) s.by_upstream) ∙ e)
      where
        go :
            (b : Bool)
            → (if b then some (record seg { is_open = false }) else get j s.by_upstream) ≡ some x
            → (b ≡ false) × (get j s.by_upstream ≡ some x)
        go true q =
            let r = ap (λ z. z.is_open) (some-injective (record seg { is_open = false }) x q) ∙ o in
            absurd cc
        go false q = (refl, q)

    Placed-after :
        (j : ℤ) (k : Kind)
        → get j (remove i c.open_blocks) ≡ some k
        → contains j s.dropped_indexes ≡ false
        → Placed
            (closed d (pos seg.down_index))
            s.pending_suppressed_stops
            j
            k
            (get j after.by_upstream)
    Placed-after j k e x =
        let apart : (i == j) ≡ false = ground (arith, get-remove i j c.open_blocks) in
        let old : get j after.by_upstream ≡ get j s.by_upstream =
          get-put i j (record seg { is_open = false }) s.by_upstream ∙ rw apart refl in
        subst (Placed (closed d (pos seg.down_index)) s.pending_suppressed_stops j k) (sym old) (
          go (get j s.by_upstream) refl apart
            (h.placed j k (ground (arith, get-remove i j c.open_blocks)) x))
      where
        go :
            (o : Option UpstreamBlock)
            → get j s.by_upstream ≡ o
            → (i == j) ≡ false
            → Placed d s.pending_suppressed_stops j k o
            → Placed (closed d (pos seg.down_index)) s.pending_suppressed_stops j k o
        go none q apart p = p
        go (some y) q apart p = (
          p.0,
          λ o. ground (
            arith,
            p.1 o,
            get-remove (pos seg.down_index) (pos y.down_index) d.open_blocks,
            ==_iff (pos seg.down_index) (pos y.down_index),
            ==_iff i j,
            h.alone i j seg y here q opens o,
          ),
        )

    live_after :
        (j : ℤ)
        → open_in (get j after.by_upstream) ≡ true
        → ((i == j) ≡ false) × (open_in (get j s.by_upstream) ≡ true)
    live_after j e = go (get j after.by_upstream) refl e
      where
        go :
            (o : Option UpstreamBlock)
            → get j after.by_upstream ≡ o
            → open_in o ≡ true
            → ((i == j) ≡ false) × (open_in (get j s.by_upstream) ≡ true)
        go none q r = absurd cc
        go (some x) q r = let (apart, old) = other_open j x q r in (apart, ap open_in old ∙ r)

    owned_after :
        (k : ℤ)
        → has k (remove (pos seg.down_index) d.open_blocks) ≡ true
        → (j : ℤ) × (x : UpstreamBlock) × (get j after.by_upstream ≡ some x)
          × (x.is_open ≡ true)
          × (pos x.down_index ≡ k)
    owned_after k e =
        let (j, x, q, o, p) =
          h.owned k (ground (arith, has-remove (pos seg.down_index) k d.open_blocks)) in
        (j, x, kept j x q p, o, p)
      where
        kept :
            (j : ℤ) (x : UpstreamBlock)
            → get j s.by_upstream ≡ some x
            → pos x.down_index ≡ k
            → get j after.by_upstream ≡ some x
        kept j x q p = ground (
          arith,
          get-put i j (record seg { is_open = false }) s.by_upstream,
          ==_iff i j,
          has-remove (pos seg.down_index) k d.open_blocks,
          ==_iff (pos seg.down_index) k,
          here,
        )

    below_after :
        (j : ℤ) (x : UpstreamBlock) → get j after.by_upstream ≡ some x → x.down_index < s.next_index
    below_after j x e =
        go (i == j) (sym (get-put i j (record seg { is_open = false }) s.by_upstream) ∙ e)
      where
        go :
            (b : Bool)
            → (if b then some (record seg { is_open = false }) else get j s.by_upstream) ≡ some x
            → x.down_index < s.next_index
        go true r =
            let q = ap (λ z. z.down_index) (some-injective (record seg { is_open = false }) x r) in
            omega (arith, h.below i seg here)
        go false r = h.below j x r

    stop-InStep : InStep (closed c i) after (closed d (pos seg.down_index))
    stop-InStep = record {
      placed = Placed-after;
      live = λ j e.
          let (apart, old) = live_after j e in
          (ground (arith, has-remove i j c.open_blocks, h.live j), (h.live j old).1);
      fresh = λ j e.
          let q = h.fresh j e in
          (
            ground (
              arith,
              has-put i j (record seg { is_open = false }) s.by_upstream,
              ==_iff i j,
              has-get i s.by_upstream,
              here,
            ),
            q.1,
            q.2,
          );
      owned = owned_after;
      alone =
          λ j k x y e e' o o'. h.alone j k x y (other_open j x e o).1 (other_open k y e' o').1 o o';
      below = below_after;
      seen_below = h.seen_below;
      distinct = put-IsDict i (record seg { is_open = false }) s.by_upstream h.distinct;
    }

stop-Stepped :
    (allow : Bool) {c d : Checker} {s : PolicyState} (h : InStep c s d) (i : ℤ)
    (seg : UpstreamBlock)
    → (here : get i s.by_upstream ≡ some seg) → (opens : seg.is_open ≡ true)
    → Stepped allow
        (closed c i)
        (stop_at seg.down_index ∷ [])
        (record s { by_upstream = put i (record seg { is_open = false }) s.by_upstream })
        d
unfolding check_events check_event check_stop
stop-Stepped allow {d = d} h i seg here opens = record {
  checker = closed d (pos seg.down_index);
  accepted = rw (live_down h i seg here opens) refl;
  in_step = stop-InStep h i seg here opens;
}

module _ (allow : Bool) (decimal : ℤ → String) (thinking_enabled : Bool) (i : ℤ) (kind : Kind)
    {c d : Checker} {s : PolicyState} (h : InStep c s d)
    (open_up : get i c.open_blocks ≡ some kind) where
  stop_segment-Stepped :
      contains i s.dropped_indexes ≡ false
      → contains i s.pending_suppressed_stops ≡ false
      → let r = stop_segment decimal thinking_enabled i (get i s.by_upstream) s in
        Stepped allow (closed c i) r.0 r.1 d
  unfolding stop_segment
  stop_segment-Stepped kept unmarked = go (get i s.by_upstream) refl (h.placed i kind open_up kept)
    where
      go :
          (o : Option UpstreamBlock)
          → get i s.by_upstream ≡ o
          → Placed d s.pending_suppressed_stops i kind o
          → let r = stop_segment decimal thinking_enabled i o s in
            Stepped allow (closed c i) r.0 r.1 d
      go none e p = absurd p
      go (some seg) e p = shown seg.is_open refl (ground (arith, p.0))
        where
          shown :
              (b : Bool)
              → seg.is_open ≡ b
              → b ≡ true
              → let r : List Event × PolicyState =
                  if b
                  then (
                    stop_at seg.down_index ∷ [],
                    record s { by_upstream = put i (record seg { is_open = false }) s.by_upstream },
                  )
                  else ([], s) in
                Stepped allow (closed c i) r.0 r.1 d
          shown true q x = stop-Stepped allow h i seg e q
          shown false q x = cc

  not_open :
      contains i s.pending_suppressed_stops ≡ true
      → contains i s.dropped_indexes ≡ false
      → open_in (get i s.by_upstream) ≡ false
  not_open marked kept = go (get i s.by_upstream) (h.placed i kind open_up kept)
    where
      go :
          (o : Option UpstreamBlock)
          → Placed d s.pending_suppressed_stops i kind o
          → open_in o ≡ false
      go none p = absurd p
      go (some seg) p = ground (arith, p.0)

  closing-Stepped :
      let r = transform_stop decimal thinking_enabled i s in Stepped allow (closed c i) r.0 r.1 d
  unfolding transform_stop
  closing-Stepped =
      go (contains i s.dropped_indexes) (contains i s.pending_suppressed_stops) refl refl
    where
      go :
          (a b : Bool)
          → contains i s.dropped_indexes ≡ a
          → contains i s.pending_suppressed_stops ≡ b
          → let r : List Event × PolicyState =
              if a
              then ([], s)
              else if b
              then (
                [],
                record s { pending_suppressed_stops = discard i s.pending_suppressed_stops },
              )
              else stop_segment decimal thinking_enabled i (get i s.by_upstream) s in
            Stepped allow (closed c i) r.0 r.1 d
      go true b e q = silent (closed-InStep h i (ground (arith, h.live i)))
      go false true e q = silent (
          unmark-InStep (closed-InStep h i (not_open q e)) i
            (ground (arith, has-remove i i c.open_blocks, ==_refl i)))
      go false false e q = stop_segment-Stepped e q

pub transform_stop-Stepped :
    (allow : Bool) (decimal : ℤ → String) (thinking_enabled : Bool) (i : ℤ) (s : PolicyState)
    (c c' d : Checker)
    → InStep c s d
    → check_stop c i ≡ ok c'
    → let r = transform_stop decimal thinking_enabled i s in Stepped allow c' r.0 r.1 d
transform_stop-Stepped allow decimal thinking_enabled i s c c' d h e =
    let (kind, open_up, same) = stop-inverse c c' i e in
    subst (λ x. let r = transform_stop decimal thinking_enabled i s in Stepped allow x r.0 r.1 d)
      same (closing-Stepped allow decimal thinking_enabled i kind h open_up)
