-- ===== src/Native/Starts.antt =====
-- A start keeps the policy in step.
use vega_claude.Prelude.{
  ℕ, ◌+◌, ◌<◌, ◌≡◌, refl, ◌≢◌, sym, ap, ◌∙◌, subst, String, Option, none, some, Bool, true, false,
  ◌||◌, List, [], ◌∷◌, ◌++◌, get, has, has-get, put, has-put, get-put, put-IsDict, contains,
  contains-add, add, ◌==◌, ==_iff, ==_refl, nil_of_get-none, arith, if◌then◌else◌, nat_eq,
}
use mathlib.Core.Option.{some-injective}
use vega_claude.Prelude.Int.{ℤ, pos, int_eq}
use vega_claude.Sse.Event.{Event, Block}
use vega_claude.Sse.Contract.{Checker, Kind, ok, storage, check_event, check_events, check_start}
use vega_claude.Sse.Sync.{Below-suc, opened}
use vega_claude.Sse.Sync.Ran.{check_events-append}
use vega_claude.Native.Policy.{
  UpstreamBlock, PolicyState, Closing, close_others, block_type, start_at, transform_start,
  synthetic_close_other_open_blocks, allocate_new_segment, should_drop_block_type,
}
use vega_claude.Native.CloseOthers.{Shut, shut, open_in, close_others-Shut}
use vega_claude.Native.InStep.{InStep, Placed, Stepped, silent, live_down, get-All, Live-of}
use vega_claude.Native.Inverse.{start-inverse}

module _ {c d : Checker} {s : PolicyState} (h : InStep c s d) (i : ℤ) (kind : Kind)
    (unseen : contains i c.seen_blocks ≡ false) where
  drop-InStep : InStep (opened c i kind) (record s { dropped_indexes = add i s.dropped_indexes }) d
  drop-InStep = record {
    placed = λ j k e x.
        h.placed j k
          (ground (arith, get-put i j kind c.open_blocks, contains-add j i s.dropped_indexes))
          (ground (arith, contains-add j i s.dropped_indexes));
    live = λ j e. (
      ground (arith, has-put i j kind c.open_blocks, h.live j),
      ground (
        arith,
        contains-add j i s.dropped_indexes,
        h.live j,
        h.fresh i unseen,
        ==_iff i j,
        has-get j s.by_upstream,
      ),
    );
    fresh = λ j e.
        let q = h.fresh j (ground (arith, contains-add j i c.seen_blocks)) in
        (
          q.0,
          ground (arith, contains-add j i c.seen_blocks, contains-add j i s.dropped_indexes),
          q.2,
        );
    owned = h.owned;
    alone = h.alone;
    below = h.below;
    seen_below = h.seen_below;
    distinct = h.distinct;
  }

Placed-shut :
    (d d' : Checker) (pending pending' : List ℤ) (j : ℤ) (k : Kind) (o : Option UpstreamBlock)
    → Placed d pending j k o
    → contains j pending' ≡ (contains j pending || open_in o)
    → Placed d' pending' j k (shut o)
Placed-shut d d' pending pending' j k none p e = p
Placed-shut d d' pending pending' j k (some seg) p e = (ground (arith, p.0), λ q. cc)

below_shut :
    (o : Option UpstreamBlock) (x : UpstreamBlock) (n : ℕ)
    → ((seg : UpstreamBlock) → o ≡ some seg → seg.down_index < n)
    → shut o ≡ some x
    → x.down_index < n
below_shut none x n h e = cc
below_shut (some seg) x n h e =
    subst (λ z. z.down_index < n) (some-injective (record seg { is_open = false }) x e) (h seg refl)

closed_shut :
    (o : Option UpstreamBlock) (x : UpstreamBlock) → shut o ≡ some x → x.is_open ≡ true → ⊥
closed_shut none x e q = cc
closed_shut (some seg) x e q =
    let r = ap (λ z. z.is_open) (some-injective (record seg { is_open = false }) x e) ∙ q in cc

module _ {c d : Checker} {s : PolicyState} (h : InStep c s d) (i : ℤ) (kind : Kind)
    (unseen : contains i c.seen_blocks ≡ false) (seg : UpstreamBlock)
    (down : seg.down_index ≡ s.next_index) (opens : seg.is_open ≡ true) (allow : Bool) where
  abbrev closing : Closing
  closing = close_others i s.pending_suppressed_stops s.by_upstream

  all_shut : Shut allow d s.pending_suppressed_stops s.by_upstream closing
  all_shut =
      close_others-Shut allow i s.pending_suppressed_stops s.by_upstream d h.distinct
        (h.fresh i unseen).0 (Live-of d s.by_upstream h.distinct (live_down h) h.alone)

  nothing_open : (all_shut.checker).open_blocks ≡ []
  nothing_open =
      nil_of_get-none (all_shut.checker).open_blocks
        (λ k. go k (get k (all_shut.checker).open_blocks) refl)
    where
      go : (k : ℤ) (o : Option Kind) → get k (all_shut.checker).open_blocks ≡ o → o ≡ none
      go k none e = refl
      go k (some x) e =
          let (was_open, unused) =
            all_shut.left k (ground (arith, has-get k (all_shut.checker).open_blocks)) in
          let (j, y, q, o, p) = h.owned k was_open in
          absurd
            (get-All (λ x. x.is_open ≡ true → pos x.down_index ≢ k) s.by_upstream j y unused q o p)

  abbrev after : PolicyState
  after = record s {
    next_index = s.next_index + 1;
    by_upstream = put i seg closing.segments;
    pending_suppressed_stops = closing.suppressed;
  }

  get-after :
      (j : ℤ) → get j after.by_upstream ≡ (if i == j then some seg else shut (get j s.by_upstream))
  get-after j = ground (arith, get-put i j seg closing.segments, all_shut.segments_shut j)

  only_open :
      (j : ℤ) (x : UpstreamBlock) → get j after.by_upstream ≡ some x → x.is_open ≡ true → i ≡ j
  only_open j x e o = go (i == j) refl (sym (get-after j) ∙ e)
    where
      go :
          (b : Bool)
          → (i == j) ≡ b
          → (if b then some seg else shut (get j s.by_upstream)) ≡ some x
          → i ≡ j
      go true q r = ground (arith, ==_iff i j)
      go false q r = absurd (closed_shut (get j s.by_upstream) x r o)

  Placed-after :
      (j : ℤ) (k : Kind)
      → get j (opened c i kind).open_blocks ≡ some k
      → contains j s.dropped_indexes ≡ false
      → Placed
          (opened (all_shut.checker) (pos s.next_index) kind)
          after.pending_suppressed_stops
          j
          k
          (get j after.by_upstream)
  Placed-after j k e x =
      subst
        (Placed (opened (all_shut.checker) (pos s.next_index) kind) after.pending_suppressed_stops j
          k)
        (sym (get-after j)) (go (i == j) refl (sym (get-put i j kind c.open_blocks) ∙ e))
    where
      here :
          (k : Kind)
          → some kind ≡ some k
          → get (pos seg.down_index) (opened (all_shut.checker) (pos s.next_index) kind).open_blocks
            ≡ some k
      here k r =
          subst
            (λ n.
              get (pos n) (opened (all_shut.checker) (pos s.next_index) kind).open_blocks ≡ some k)
            (sym down)
            (get-put (pos s.next_index) (pos s.next_index) kind (all_shut.checker).open_blocks
              ∙ rw (==_refl s.next_index) r)

      go :
          (b : Bool)
          → (i == j) ≡ b
          → (if b then some kind else get j c.open_blocks) ≡ some k
          → Placed
              (opened (all_shut.checker) (pos s.next_index) kind)
              after.pending_suppressed_stops
              j
              k
              (if b then some seg else shut (get j s.by_upstream))
      go true q r = (
        ground (arith, all_shut.marked j, h.fresh i unseen, has-get j s.by_upstream, ==_iff i j),
        λ _. here k r,
      )
      go false q r =
          Placed-shut d (opened (all_shut.checker) (pos s.next_index) kind)
            s.pending_suppressed_stops after.pending_suppressed_stops j k (get j s.by_upstream)
            (h.placed j k r x) (all_shut.marked j)

  live_after : (j : ℤ) → open_in (get j after.by_upstream) ≡ true → i ≡ j
  live_after j e = go (get j after.by_upstream) refl e
    where
      go : (o : Option UpstreamBlock) → get j after.by_upstream ≡ o → open_in o ≡ true → i ≡ j
      go none q r = cc
      go (some x) q r = only_open j x q r

  fresh_after :
      (j : ℤ)
      → contains j (add i c.seen_blocks) ≡ false
      → (has j after.by_upstream ≡ false)
        × (contains j s.dropped_indexes ≡ false)
        × (contains j after.pending_suppressed_stops ≡ false)
  fresh_after j e =
      let apart : (i == j) ≡ false = ground (arith, contains-add j i c.seen_blocks) in
      let q = h.fresh j (ground (arith, contains-add j i c.seen_blocks)) in
      (
        ground (arith, has-put i j seg closing.segments, all_shut.keys_same j),
        q.1,
        ground (arith, all_shut.marked j, has-get j s.by_upstream),
      )

  below_after :
      (j : ℤ) (x : UpstreamBlock)
      → get j after.by_upstream ≡ some x
      → x.down_index < s.next_index + 1
  below_after j x e = go (i == j) (sym (get-after j) ∙ e)
    where
      go :
          (b : Bool)
          → (if b then some seg else shut (get j s.by_upstream)) ≡ some x
          → x.down_index < s.next_index + 1
      go true r = let q = ap (λ z. z.down_index) (some-injective seg x r) in omega arith
      go false r =
          let q = below_shut (get j s.by_upstream) x s.next_index (λ y. h.below j y) r in
          omega arith

  start-InStep : InStep (opened c i kind) after (opened (all_shut.checker) (pos s.next_index) kind)
  start-InStep = record {
    placed = Placed-after;
    live = λ j e.
        let q = live_after j e in
        (
          ground (arith, has-put i j kind c.open_blocks, ==_iff i j),
          subst (λ k. contains k s.dropped_indexes ≡ false) q (h.fresh i unseen).1,
        );
    fresh = fresh_after;
    owned = λ k e. (
      i,
      seg,
      rw (get-after i) (rw (==_refl i) refl),
      opens,
      ground (
        arith,
        has-put (pos s.next_index) k kind (all_shut.checker).open_blocks,
        nothing_open,
        ==_iff (pos s.next_index) k,
      ),
    );
    alone = λ j k x y e e' o o' same. sym (only_open j x e o) ∙ only_open k y e' o';
    below = below_after;
    seen_below = λ k e. ground (
      arith,
      contains-add k (pos s.next_index) (all_shut.checker).seen_blocks,
      all_shut.seen_same,
      h.seen_below k,
      ==_iff (pos s.next_index) k,
      Below-suc s.next_index k,
    );
    distinct = put-IsDict i seg closing.segments all_shut.distinct;
  }

  start_ok :
      check_start (all_shut.checker) (pos s.next_index) (some kind)
      ≡ ok (opened (all_shut.checker) (pos s.next_index) kind)
  unfolding check_start
  start_ok = ground (arith, nothing_open, all_shut.seen_same, h.seen_below (pos s.next_index))

  start-Stepped :
      (block : Block)
      → storage (some block) ≡ some kind
      → Stepped allow (opened c i kind) (closing.stops ++ start_at s.next_index block ∷ []) after d
  unfolding check_events check_event
  start-Stepped block e = record {
    checker = opened (all_shut.checker) (pos s.next_index) kind;
    accepted =
        rw (check_events-append allow d closing.stops _)
          (rw all_shut.accepted (rw e (rw start_ok refl)));
    in_step = start-InStep;
  }

pub transform_start-Stepped :
    (allow : Bool) (decimal : ℤ → String) (thinking_enabled : Bool) (i : ℤ) (block : Block)
    (s : PolicyState) (c c' d : Checker)
    → InStep c s d
    → check_start c i (storage (some block)) ≡ ok c'
    → let r = transform_start decimal thinking_enabled i block s in Stepped allow c' r.0 r.1 d
unfolding transform_start synthetic_close_other_open_blocks allocate_new_segment
transform_start-Stepped allow decimal thinking_enabled i block s c c' d h e =
    let (kind, same, unseen, q) = start-inverse c c' i (storage (some block)) e in
    subst
      (λ x. let r = transform_start decimal thinking_enabled i block s in Stepped allow x r.0 r.1 d)
      q (go kind same unseen (should_drop_block_type thinking_enabled (block_type block)))
  where
    go :
        (kind : Kind)
        → storage (some block) ≡ some kind
        → contains i c.seen_blocks ≡ false
        → (b : Bool)
        → let r : List Event × PolicyState =
            if b
            then ([], record s { dropped_indexes = add i s.dropped_indexes })
            else (let (prefix, s') = synthetic_close_other_open_blocks i s in
                let (n, s'') = allocate_new_segment i (block_type block) (some block) s' in
                (prefix ++ start_at n block ∷ [], s'')) in
          Stepped allow (opened c i kind) r.0 r.1 d
    go kind same unseen true = silent (drop-InStep h i kind unseen)
    go kind same unseen false = start-Stepped h i kind unseen _ refl refl allow block same
