-- ===== src/Native/Reopen.antt =====
-- A segment that is opened again keeps the policy in step.
use vega_claude.Prelude.{
  ◌+◌, ◌<◌, ◌≡◌, refl, sym, ap, ◌∙◌, subst, Option, none, some, Bool, true, false, get, has, ◌⊎◌,
  inl, inr, has-get, put, has-put, get-put, put-IsDict, contains, contains-add, contains-discard,
  discard, ◌==◌, ==_iff, ==_refl, arith, if◌then◌else◌, nat_eq,
}
use mathlib.Core.Option.{some-injective}
use vega_claude.Prelude.Int.{ℤ, pos, int_eq}
use vega_claude.Sse.Contract.{Checker, Kind}
use vega_claude.Sse.Sync.{Below-suc, opened}
use vega_claude.Native.Policy.{UpstreamBlock, PolicyState}
use vega_claude.Native.CloseOthers.{open_in}
use vega_claude.Native.InStep.{InStep, Placed}

module _ {c d : Checker} {s : PolicyState} (h : InStep c s d) (i : ℤ) (kind : Kind)
    (open_up : get i c.open_blocks ≡ some kind) (kept : contains i s.dropped_indexes ≡ false)
    (old : UpstreamBlock) (here : get i s.by_upstream ≡ some old) (shut : old.is_open ≡ false)
    (seg : UpstreamBlock) (down : seg.down_index ≡ s.next_index) (opens : seg.is_open ≡ true) where
  abbrev pub after : PolicyState
  after = record s {
    next_index = s.next_index + 1;
    by_upstream = put i seg s.by_upstream;
    pending_suppressed_stops = discard i s.pending_suppressed_stops;
  }

  abbrev pub checker_after : Checker
  checker_after = opened d (pos s.next_index) kind

  Placed-after :
      (j : ℤ) (k : Kind)
      → get j c.open_blocks ≡ some k
      → contains j s.dropped_indexes ≡ false
      → Placed checker_after after.pending_suppressed_stops j k (get j after.by_upstream)
  Placed-after j k e x =
      subst (Placed checker_after after.pending_suppressed_stops j k)
        (sym (get-put i j seg s.by_upstream)) (go (i == j) refl)
    where
      here_kind : i ≡ j → get (pos seg.down_index) checker_after.open_blocks ≡ some k
      here_kind q =
          subst (λ n. get (pos n) checker_after.open_blocks ≡ some k) (sym down)
            (get-put (pos s.next_index) (pos s.next_index) kind d.open_blocks
              ∙ rw (==_refl s.next_index) (sym open_up ∙ ap (λ z. get z c.open_blocks) q ∙ e))

      still :
          (o : Option UpstreamBlock)
          → get j s.by_upstream ≡ o
          → (i == j) ≡ false
          → Placed d s.pending_suppressed_stops j k o
          → Placed checker_after after.pending_suppressed_stops j k o
      still none r q p = p
      still (some y) r q p = (
        ground (arith, p.0, contains-discard j i s.pending_suppressed_stops),
        λ o. ground (
          arith,
          p.1 o,
          h.below j y r,
          get-put (pos s.next_index) (pos y.down_index) kind d.open_blocks,
          ==_iff s.next_index y.down_index,
        ),
      )

      go :
          (b : Bool)
          → (i == j) ≡ b
          → Placed checker_after after.pending_suppressed_stops j k
              (if b then some seg else get j s.by_upstream)
      go true q = (
        ground (arith, contains-discard j i s.pending_suppressed_stops),
        λ _. here_kind (ground (arith, ==_iff i j)),
      )
      go false q = still (get j s.by_upstream) refl q (h.placed j k e x)

  live_after :
      (j : ℤ)
      → open_in (get j after.by_upstream) ≡ true
      → (has j c.open_blocks ≡ true) × (contains j s.dropped_indexes ≡ false)
  live_after j e = go (i == j) refl (sym (ap open_in (get-put i j seg s.by_upstream)) ∙ e)
    where
      go :
          (b : Bool)
          → (i == j) ≡ b
          → open_in (if b then some seg else get j s.by_upstream) ≡ true
          → (has j c.open_blocks ≡ true) × (contains j s.dropped_indexes ≡ false)
      go true q r =
          subst (λ z. (has z c.open_blocks ≡ true) × (contains z s.dropped_indexes ≡ false))
            (ground (arith, ==_iff i j)) (ground (arith, has-get i c.open_blocks), kept)
      go false q r = h.live j r

  fresh_after :
      (j : ℤ)
      → contains j c.seen_blocks ≡ false
      → (has j after.by_upstream ≡ false)
        × (contains j s.dropped_indexes ≡ false)
        × (contains j after.pending_suppressed_stops ≡ false)
  fresh_after j e =
      let q = h.fresh j e in
      (
        ground (arith, has-put i j seg s.by_upstream, ==_iff i j, has-get i s.by_upstream, here),
        q.1,
        ground (arith, contains-discard j i s.pending_suppressed_stops),
      )

  owned_after :
      (k : ℤ)
      → has k checker_after.open_blocks ≡ true
      → (j : ℤ) × (x : UpstreamBlock) × (get j after.by_upstream ≡ some x)
        × (x.is_open ≡ true)
        × (pos x.down_index ≡ k)
  owned_after k e =
      go (pos s.next_index == k) refl (sym (has-put (pos s.next_index) k kind d.open_blocks) ∙ e)
    where
      go :
          (b : Bool)
          → (pos s.next_index == k) ≡ b
          → (if b then true else has k d.open_blocks) ≡ true
          → (j : ℤ) × (x : UpstreamBlock) × (get j after.by_upstream ≡ some x)
            × (x.is_open ≡ true)
            × (pos x.down_index ≡ k)
      go true q r = (
        i,
        seg,
        ground (arith, get-put i i seg s.by_upstream, ==_refl i),
        opens,
        ap pos down ∙ ground (arith, ==_iff (pos s.next_index) k),
      )
      go false q r =
          let (j, x, w, o, p) = h.owned k r in
          (j, x, ground (arith, get-put i j seg s.by_upstream, ==_iff i j, here), o, p)

  -- An open segment is the new one, or an older one.
  which :
      (j : ℤ) (x : UpstreamBlock)
      → get j after.by_upstream ≡ some x
      → ((i ≡ j) × (x.down_index ≡ s.next_index)) ⊎ (get j s.by_upstream ≡ some x)
  which j x e = go (i == j) refl (sym (get-put i j seg s.by_upstream) ∙ e)
    where
      go :
          (b : Bool)
          → (i == j) ≡ b
          → (if b then some seg else get j s.by_upstream) ≡ some x
          → ((i ≡ j) × (x.down_index ≡ s.next_index)) ⊎ (get j s.by_upstream ≡ some x)
      go true q r =
          inl (
            ground (arith, ==_iff i j),
            sym (ap (λ z. z.down_index) (some-injective seg x r)) ∙ down,
          )
      go false q r = inr r

  alone_after :
      (j k : ℤ) (x y : UpstreamBlock)
      → get j after.by_upstream ≡ some x
      → get k after.by_upstream ≡ some y
      → x.is_open ≡ true
      → y.is_open ≡ true
      → x.down_index ≡ y.down_index
      → j ≡ k
  alone_after j k x y e e' o o' same = go (which j x e) (which k y e')
    where
      go :
          ((i ≡ j) × (x.down_index ≡ s.next_index)) ⊎ (get j s.by_upstream ≡ some x)
          → ((i ≡ k) × (y.down_index ≡ s.next_index)) ⊎ (get k s.by_upstream ≡ some y)
          → j ≡ k
      go (inl p) (inl q) = sym p.0 ∙ q.0
      go (inl p) (inr q) = absurd (let r = h.below k y q in let t = p.1 in omega arith)
      go (inr p) (inl q) = absurd (let r = h.below j x p in let t = q.1 in omega arith)
      go (inr p) (inr q) = h.alone j k x y p q o o' same

  below_after :
      (j : ℤ) (x : UpstreamBlock)
      → get j after.by_upstream ≡ some x
      → x.down_index < s.next_index + 1
  below_after j x e = go (which j x e)
    where
      go :
          ((i ≡ j) × (x.down_index ≡ s.next_index)) ⊎ (get j s.by_upstream ≡ some x)
          → x.down_index < s.next_index + 1
      go (inl p) = let t = p.1 in omega arith
      go (inr p) = let r = h.below j x p in omega arith

  pub reopen-InStep : InStep c after checker_after
  reopen-InStep = record {
    placed = Placed-after;
    live = live_after;
    fresh = fresh_after;
    owned = owned_after;
    alone = alone_after;
    below = below_after;
    seen_below = λ k e. ground (
      arith,
      contains-add k (pos s.next_index) d.seen_blocks,
      h.seen_below k,
      ==_iff (pos s.next_index) k,
      Below-suc s.next_index k,
    );
    distinct = put-IsDict i seg s.by_upstream h.distinct;
  }
