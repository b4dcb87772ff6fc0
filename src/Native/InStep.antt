-- ===== src/Native/InStep.antt =====
-- The policy's state between the checker of the upstream events and that of its output.
use vega_claude.Prelude.{
  ◌<◌, ◌≡◌, refl, ◌≢◌, sym, ap, ◌∙◌, subst, Option, none, some, Bool, true, false, not, List, [],
  ◌∷◌, Dict, IsDict, All, get, has, has-get, contains, ◌==◌, ==_iff, ==_refl, arith, if◌then◌else◌,
  nat_eq,
}
use mathlib.Core.Option.{some-injective}
use vega_claude.Prelude.Int.{ℤ, pos, to_nat, int_eq}
use vega_claude.Sse.Event.{Event}
use vega_claude.Sse.Contract.{Checker, Kind, ok, check_events}
use vega_claude.Sse.Sync.{Below}
use vega_claude.Native.Policy.{UpstreamBlock, PolicyState}
use vega_claude.Native.CloseOthers.{Live, open_in}

-- Where the open block `i` stands downstream: its segment is open there with the same kind, or
-- was closed, and then the upstream stop is to be suppressed.
abbrev pub Placed : Checker → List ℤ → ℤ → Kind → Option UpstreamBlock → Type 0
Placed d pending i kind none = ⊥
Placed d pending i kind (some seg) =
    (contains i pending ≡ not seg.is_open)
    × (seg.is_open ≡ true → get (pos seg.down_index) d.open_blocks ≡ some kind)

-- `c` has checked what came from upstream, `d` what went out.
pub record InStep (c : Checker) (s : PolicyState) (d : Checker) : Type 0 where
  pub placed :
      (i : ℤ) (kind : Kind)
      → get i c.open_blocks ≡ some kind
      → contains i s.dropped_indexes ≡ false
      → Placed d s.pending_suppressed_stops i kind (get i s.by_upstream)
  pub live :
      (i : ℤ)
      → open_in (get i s.by_upstream) ≡ true
      → (has i c.open_blocks ≡ true) × (contains i s.dropped_indexes ≡ false)
  pub fresh :
      (i : ℤ)
      → contains i c.seen_blocks ≡ false
      → (has i s.by_upstream ≡ false)
        × (contains i s.dropped_indexes ≡ false)
        × (contains i s.pending_suppressed_stops ≡ false)
  pub owned :
      (k : ℤ)
      → has k d.open_blocks ≡ true
      → (i : ℤ) × (seg : UpstreamBlock) × (get i s.by_upstream ≡ some seg)
        × (seg.is_open ≡ true)
        × (pos seg.down_index ≡ k)
  pub alone :
      (i j : ℤ) (seg other : UpstreamBlock)
      → get i s.by_upstream ≡ some seg
      → get j s.by_upstream ≡ some other
      → seg.is_open ≡ true
      → other.is_open ≡ true
      → seg.down_index ≡ other.down_index
      → i ≡ j
  pub below :
      (i : ℤ) (seg : UpstreamBlock) → get i s.by_upstream ≡ some seg → seg.down_index < s.next_index
  pub seen_below : (k : ℤ) → contains k d.seen_blocks ≡ true → Below s.next_index k
  pub distinct : IsDict s.by_upstream

-- A step: what goes out is accepted, and all are in step again.
pub record Stepped (allow : Bool) (c' : Checker) (out : List Event) (s' : PolicyState) (d : Checker)
    : Type 0 where
  pub checker : Checker
  pub accepted : check_events allow d out ≡ ok checker
  pub in_step : InStep c' s' checker

pub silent :
    {allow : Bool} {c : Checker} {s : PolicyState} {d : Checker}
    → InStep c s d
    → Stepped allow c [] s d
unfolding check_events
silent {d = d} h = record { checker = d; accepted = refl; in_step = h }

-- A segment that is open upstream is open for the checker of the output.
pub live_down :
    {c d : Checker} {s : PolicyState}
    → InStep c s d
    → (i : ℤ) (seg : UpstreamBlock) → get i s.by_upstream ≡ some seg
    → seg.is_open ≡ true
    → has (pos seg.down_index) d.open_blocks ≡ true
live_down {c} {d} {s} h i seg e o =
    let (open_up, kept) = h.live i (ap open_in e ∙ o) in go (get i c.open_blocks) refl kept
  where
    go :
        (k : Option Kind)
        → get i c.open_blocks ≡ k
        → contains i s.dropped_indexes ≡ false
        → has (pos seg.down_index) d.open_blocks ≡ true
    go none q x = ground (arith, has-get i c.open_blocks, h.live i)
    go (some k) q x =
        let p = subst (Placed d s.pending_suppressed_stops i k) e (h.placed i k q x) in
        ground (arith, has-get (pos seg.down_index) d.open_blocks, p.1 o)

module _ (P : UpstreamBlock → Type 0) where
  pub All-get :
      (l : Dict ℤ UpstreamBlock)
      → IsDict l
      → ((j : ℤ) (seg : UpstreamBlock) → get j l ≡ some seg → P seg)
      → All (λ p. P p.1) l
  All-get [] n h = tt
  All-get ((i, seg) ∷ l) n h = (
    h i seg (ground (arith, ==_refl i)),
    All-get l n.1 (λ j x e. h j x (ground (arith, ==_iff i j, has-get j l))),
  )

  pub get-All :
      (l : Dict ℤ UpstreamBlock) (j : ℤ) (seg : UpstreamBlock)
      → All (λ p. P p.1) l
      → get j l ≡ some seg
      → P seg
  get-All [] j seg a e = cc
  get-All ((i, x) ∷ l) j seg a e = go (i == j) e (get-All l j seg a.1)
    where
      go :
          (b : Bool)
          → (if b then some x else get j l) ≡ some seg
          → (get j l ≡ some seg → P seg)
          → P seg
      go true q r = subst P (some-injective x seg q) a.0
      go false q r = r q

clash :
    (i j : ℤ) (x : UpstreamBlock) (l : Dict ℤ UpstreamBlock)
    → has i l ≡ false
    → get j l ≡ some x
    → i ≡ j
    → ⊥
clash i j x l n e same = ground (arith, has-get j l, subst (λ k. has k l ≡ false) same n)

pub Live-of :
    (d : Checker) (l : Dict ℤ UpstreamBlock)
    → IsDict l
    → ((i : ℤ) (seg : UpstreamBlock)
        → get i l ≡ some seg
        → seg.is_open ≡ true
        → has (pos seg.down_index) d.open_blocks ≡ true)
    → ((i j : ℤ) (seg other : UpstreamBlock)
        → get i l ≡ some seg
        → get j l ≡ some other
        → seg.is_open ≡ true
        → other.is_open ≡ true
        → seg.down_index ≡ other.down_index
        → i ≡ j)
    → Live d l
Live-of d [] n h alone = tt
Live-of d ((i, seg) ∷ l) n h alone = (
  λ o. (
    h i seg (ground (arith, ==_refl i)) o,
    All-get (λ x. x.is_open ≡ true → pos x.down_index ≢ pos seg.down_index) l n.1
        (λ j x e o' same.
          clash i j x l n.0 e (
            alone i j seg x (ground (arith, ==_refl i)) (later j x e) o o' (sym (ap to_nat same)))),
  ),
  Live-of d l n.1 (λ j x e. h j x (later j x e))
      (λ j k x y e e'. alone j k x y (later j x e) (later k y e')),
)
  where
    later : (j : ℤ) (x : UpstreamBlock) → get j l ≡ some x → get j ((i, seg) ∷ l) ≡ some x
    later j x e = ground (arith, ==_iff i j, has-get j l)

-- The next index is neither open nor seen downstream.
pub next_unopened :
    {c d : Checker} {s : PolicyState} → InStep c s d → has (pos s.next_index) d.open_blocks ≡ false
next_unopened {c} {d} {s} h = go (has (pos s.next_index) d.open_blocks) refl
  where
    go : (b : Bool) → has (pos s.next_index) d.open_blocks ≡ b → b ≡ false
    go true e =
        let (j, x, q, o, p) = h.owned (pos s.next_index) e in
        absurd (let r = h.below j x q in let t = ap to_nat p in omega arith)
    go false e = refl

pub next_unseen :
    {c d : Checker} {s : PolicyState}
    → InStep c s d
    → contains (pos s.next_index) d.seen_blocks ≡ false
next_unseen {c} {d} {s} h = ground (arith, h.seen_below (pos s.next_index))
