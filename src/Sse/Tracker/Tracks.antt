-- ===== src/Sse/Tracker/Tracks.antt =====
-- The tracker follows the checker: its stack is what is open, its maximum bounds what was seen.
use vega_claude.Prelude.{
  zero, suc, ◌<◌, ◌≡◌, refl, subst, Option, none, some, Bool, true, false, List, [], ◌∷◌, get, has,
  has-put, has-remove, contains, contains-add, is_empty, arith, ◌==◌, ==_iff, if◌then◌else◌,
}
use vega_claude.Prelude.Int.{ℤ, pos, negsuc, int_eq, max_int, next_int, to_nat}
use vega_claude.Sse.Event.{
  Event, message_start, message_delta, message_stop, content_block_start, content_block_delta,
  content_block_stop, error, other, Delta,
}
use vega_claude.Sse.Contract.{
  Checker, Kind, fresh_checker, ok, check_event, check_start, check_stop, check_delta_at, storage,
}
use vega_claude.Sse.Sync.{opened, closed, is_empty-add}
use vega_claude.Sse.Tracker.{Tracker, new_tracker, remove_bottom, close_index, observe}

-- The index stands once at most.
abbrev pub Distinct : List ℤ → Type 0
Distinct [] = Unit
Distinct (x ∷ xs) = (contains x xs ≡ false) × Distinct xs

contains-remove_bottom :
    (i k : ℤ) (xs : List ℤ)
    → Distinct xs
    → contains k (remove_bottom i xs) ≡ (if i == k then false else contains k xs)
unfolding remove_bottom
contains-remove_bottom i k [] d = ground arith
contains-remove_bottom i k (x ∷ xs) d =
    ground (arith, contains-remove_bottom i k xs d.1, ==_iff x i, ==_iff i k, ==_iff x k)

Distinct-remove_bottom : (i : ℤ) (xs : List ℤ) → Distinct xs → Distinct (remove_bottom i xs)
unfolding remove_bottom
Distinct-remove_bottom i [] d = tt
Distinct-remove_bottom i (x ∷ xs) d =
    ground (arith, Distinct-remove_bottom i xs d.1, contains-remove_bottom i x xs d.1, ==_iff i x)

contains-close_index :
    (i k : ℤ) (xs : List ℤ)
    → Distinct xs
    → contains k (close_index i xs) ≡ (if i == k then false else contains k xs)
unfolding close_index
contains-close_index i k [] d = ground arith
contains-close_index i k (x ∷ xs) d =
    ground (arith, contains-remove_bottom i k (x ∷ xs) d, ==_iff x i, ==_iff i k, ==_iff x k)

Distinct-close_index : (i : ℤ) (xs : List ℤ) → Distinct xs → Distinct (close_index i xs)
unfolding close_index
Distinct-close_index i [] d = tt
Distinct-close_index i (x ∷ xs) d = ground (arith, Distinct-remove_bottom i (x ∷ xs) d)

abbrev pub UpTo : ℤ → ℤ → Type 0
UpTo (pos n) m = n < to_nat (next_int m)
UpTo (negsuc n) m = Unit

-- The tracker's stack holds what the checker has open, and its maximum bounds what was seen.
pub record Tracks (t : Tracker) (c : Checker) : Type 0 where
  pub stack : (k : ℤ) → contains k t.open_stack ≡ has k c.open_blocks
  pub distinct : Distinct t.open_stack
  pub seen_open : (k : ℤ) → has k c.open_blocks ≡ true → contains k c.seen_blocks ≡ true
  pub bound : (k : ℤ) → contains k c.seen_blocks ≡ true → UpTo k t.max_index
  pub seen_any : 0 < to_nat (next_int t.max_index) → is_empty c.seen_blocks ≡ false

UpTo-self : (k m : ℤ) → UpTo k (max_int m k)
UpTo-self (pos n) (pos m) = omega arith
UpTo-self (pos n) (negsuc m) = omega arith
UpTo-self (negsuc n) m = tt

UpTo-max : (k m i : ℤ) → UpTo k m → UpTo k (max_int m i)
UpTo-max (pos n) (pos m) (pos i) h = omega arith
UpTo-max (pos n) (pos m) (negsuc i) h = h
UpTo-max (pos n) (negsuc zero) (pos i) h = omega arith
UpTo-max (pos n) (negsuc (suc m)) (pos i) h = omega arith
UpTo-max (pos n) (negsuc zero) (negsuc i) h = omega arith
UpTo-max (pos n) (negsuc (suc m)) (negsuc i) h = omega arith
UpTo-max (negsuc n) m i h = tt

pub new-Tracks : Tracks new_tracker fresh_checker
new-Tracks = record {
  stack = λ k. refl;
  distinct = tt;
  seen_open = λ k h. cc;
  bound = λ k h. cc;
  seen_any = λ h. absurd (omega arith);
}

-- What one accepted event does to both.
pub record Observed (t : Tracker) (c' : Checker) (e : Event) : Type 0 where
  pub after : Tracker
  pub observed : observe t e ≡ some after
  pub tracks : Tracks after c'

same-Observed :
    {t : Tracker} {c c' : Checker} (e : Event) (t' : Tracker)
    → Tracks t c
    → observe t e ≡ some t'
    → t'.open_stack ≡ t.open_stack
    → t'.max_index ≡ t.max_index
    → c ≡ c'
    → Observed t c' e
same-Observed {t} {c} {c'} e t' h o st mx same =
    subst (λ x. Observed t x e) same
      (record {
        after = t';
        observed = o;
        tracks = record {
          stack = λ k. rw st (h.stack k);
          distinct = rw st h.distinct;
          seen_open = h.seen_open;
          bound = λ k q. rw mx (h.bound k q);
          seen_any = λ q. h.seen_any (rw mx at q);
        };
      })

start_inv :
    (c c' : Checker) (k : ℤ) (o : Option Kind)
    → check_start c k o ≡ ok c'
    → (kind : Kind) × (opened c k kind ≡ c')
      × (has k c.open_blocks ≡ false)
      × (contains k c.seen_blocks ≡ false)
unfolding check_start
start_inv c c' k none e = cc
start_inv c c' k (some kind) e = (kind, ground arith, ground arith, ground arith)

stop_inv :
    (c c' : Checker) (k : ℤ)
    → check_stop c k ≡ ok c'
    → (closed c k ≡ c') × (has k c.open_blocks ≡ true)
unfolding check_stop
stop_inv c c' k e = ground arith

delta_inv :
    (c c' : Checker) (o : Option Kind) (d : Option Delta) → check_delta_at c o d ≡ ok c' → c ≡ c'
unfolding check_delta_at
delta_inv c c' none d e = cc
delta_inv c c' (some kind) d e = ground arith

module _ (t : Tracker) (c : Checker) (h : Tracks t c) (k : ℤ) where
  start-Tracks :
      (kind : Kind)
      → has k c.open_blocks ≡ false
      → Tracks
          (record t { max_index = max_int t.max_index k; open_stack = k ∷ t.open_stack })
          (opened c k kind)
  start-Tracks kind f = record {
    stack = λ j. ground (arith, h.stack j, has-put k j kind c.open_blocks);
    distinct = (rw (h.stack k) f, h.distinct);
    seen_open = λ j q.
        ground
          (arith, h.seen_open j, has-put k j kind c.open_blocks, contains-add j k c.seen_blocks);
    bound = λ j q. ground (
      arith,
      h.bound j,
      contains-add j k c.seen_blocks,
      UpTo-max j t.max_index k,
      UpTo-self k t.max_index,
      ==_iff k j,
    );
    seen_any = λ q. is_empty-add k c.seen_blocks;
  }

  stop-Tracks : Tracks (record t { open_stack = close_index k t.open_stack }) (closed c k)
  stop-Tracks = record {
    stack = λ j. ground (
      arith,
      h.stack j,
      has-remove k j c.open_blocks,
      contains-close_index k j t.open_stack h.distinct,
    );
    distinct = Distinct-close_index k t.open_stack h.distinct;
    seen_open = λ j q. ground (arith, h.seen_open j, has-remove k j c.open_blocks);
    bound = h.bound;
    seen_any = h.seen_any;
  }

module _ (allow : Bool) (t : Tracker) (c c' : Checker) (h : Tracks t c) where
  pub observe-Observed : (e : Event) → check_event allow c e ≡ ok c' → Observed t c' e
  unfolding observe check_event
  observe-Observed (message_start a b n) e = same-Observed _ _ h refl refl refl (cc)
  observe-Observed (message_delta a n m) e = same-Observed _ t h refl refl refl (cc)
  observe-Observed message_stop e = same-Observed _ t h refl refl refl (cc)
  observe-Observed (content_block_start none b) e = cc
  observe-Observed (content_block_start (some k) b) e =
      let (kind, same, f, _) = start_inv c c' k (storage b) e in
      subst (λ x. Observed t x (content_block_start (some k) b)) same
        (record { after = _; observed = refl; tracks = start-Tracks t c h k kind f })
  observe-Observed (content_block_delta none d) e = cc
  observe-Observed (content_block_delta (some k) d) e =
      same-Observed _ t h refl refl refl (delta_inv c c' (get k c.open_blocks) d e)
  observe-Observed (content_block_stop none) e = cc
  observe-Observed (content_block_stop (some k)) e =
      subst (λ x. Observed t x (content_block_stop (some k))) (stop_inv c c' k e).0
        (record { after = _; observed = refl; tracks = stop-Tracks t c h k })
  observe-Observed (error m) e = same-Observed _ t h refl refl refl (ground arith)
  observe-Observed (other m) e = same-Observed _ t h refl refl refl (cc)
