-- ===== src/Native/Inverse.antt =====
-- What an accepted event tells of the checker of
-- free-claude-code/core/anthropic/stream_contracts.py.
use vega_claude.Prelude.{
  ◌≡◌, refl, subst, Option, none, some, Bool, true, false, List, [], ◌∷◌, get, has, has-get,
  contains, arith, if◌then◌else◌, nat_eq, not, is_empty,
}
use vega_claude.Prelude.Int.{ℤ, int_eq}
use vega_claude.Sse.Event.{Event, Delta}
use vega_claude.Sse.Contract.{
  Checker, Kind, Result, ok, fails, started_twice, reused_after_stop, check_event, check_events,
  check_start, check_stop, stop_for_unopened, check_delta, check_delta_at, keep, ◌>>=◌,
  fresh_checker, assert_stream_contract, has_message_start, ends_with_stop, guard, no_events,
  no_message_start, no_final_message_stop, unclosed_blocks, no_blocks,
}
use vega_claude.Sse.Sync.{opened, closed}

pub result-injective : (a b : Checker) → ok a ≡ ok b → a ≡ b
result-injective a b e = subst (λ r. a ≡ value r) e refl
  where
    value : Result Checker → Checker
    value (ok x) = x
    value (fails v) = a

pub record Met (allow : Bool) (es : List Event) : Type 0 where
  pub checker : Checker
  pub started : has_message_start es ≡ true
  pub stopped : ends_with_stop es ≡ true
  pub accepted : check_events allow fresh_checker es ≡ ok checker
  pub empty : checker.open_blocks ≡ []
  pub seen : is_empty checker.seen_blocks ≡ false

pub start-inverse :
    (c c' : Checker) (i : ℤ) (o : Option Kind)
    → check_start c i o ≡ ok c'
    → (kind : Kind) × (o ≡ some kind) × (contains i c.seen_blocks ≡ false) × (opened c i kind ≡ c')
unfolding check_start
start-inverse c c' i none e = cc
start-inverse c c' i (some kind) e = go (has i c.open_blocks) (contains i c.seen_blocks) refl e
  where
    go :
        (a b : Bool)
        → contains i c.seen_blocks ≡ b
        → (if a
            then fails started_twice
            else if b
            then fails reused_after_stop
            else ok (opened c i kind))
          ≡ ok c'
        → (k : Kind) × (some kind ≡ some k)
          × (contains i c.seen_blocks ≡ false)
          × (opened c i k ≡ c')
    go true b q r = cc
    go false true q r = cc
    go false false q r = (kind, refl, q, result-injective (opened c i kind) c' r)

pub stop-inverse :
    (c c' : Checker) (i : ℤ)
    → check_stop c i ≡ ok c'
    → (kind : Kind) × (get i c.open_blocks ≡ some kind) × (closed c i ≡ c')
unfolding check_stop
stop-inverse c c' i e = go (has i c.open_blocks) refl e (get i c.open_blocks) refl
  where
    go :
        (b : Bool)
        → has i c.open_blocks ≡ b
        → (if b then ok (closed c i) else fails stop_for_unopened) ≡ ok c'
        → (o : Option Kind) → get i c.open_blocks ≡ o
        → (kind : Kind) × (o ≡ some kind) × (closed c i ≡ c')
    go true q r none x = ground (arith, has-get i c.open_blocks)
    go true q r (some kind) x = (kind, refl, result-injective (closed c i) c' r)
    go false q r o x = cc

pub delta-inverse :
    (c c' : Checker) (i : ℤ) (delta : Delta) (o : Option Kind)
    → check_delta_at c o (some delta) ≡ ok c'
    → (kind : Kind) × (o ≡ some kind) × (check_delta kind (some delta) ≡ ok tt) × (c ≡ c')
unfolding check_delta_at
delta-inverse c c' i delta none e = cc
delta-inverse c c' i delta (some kind) e = go (check_delta kind (some delta)) refl e
  where
    go :
        (r : Result (Unit {0}))
        → check_delta kind (some delta) ≡ r
        → keep c r ≡ ok c'
        → (k : Kind) × (some kind ≡ some k) × (check_delta k (some delta) ≡ ok tt) × (c ≡ c')
    go (ok u) q e = (kind, refl, q, result-injective c c' e)
    go (fails v) q e = cc

pub no_delta : (c c' : Checker) (o : Option Kind) → check_delta_at c o none ≡ ok c' → ⊥
unfolding check_delta_at check_delta
no_delta c c' none e = cc
no_delta c c' (some Kind.text) e = cc
no_delta c c' (some Kind.text_eager) e = cc
no_delta c c' (some Kind.thinking) e = cc
no_delta c c' (some Kind.tool_use) e = cc
no_delta c c' (some Kind.redacted_thinking) e = cc
no_delta c c' (some Kind.server_tool_use) e = cc
no_delta c c' (some Kind.web_search_tool_result) e = cc
no_delta c c' (some Kind.web_fetch_tool_result) e = cc

pub checked_cons :
    (allow : Bool) (c c' : Checker) (x : Event) (es : List Event)
    → check_events allow c (x ∷ es) ≡ ok c'
    → (c1 : Checker) × (check_event allow c x ≡ ok c1) × (check_events allow c1 es ≡ ok c')
unfolding check_events
checked_cons allow c c' x es e = go (check_event allow c x) e
  where
    go :
        (r : Result Checker)
        → (r >>= λ z. check_events allow z es) ≡ ok c'
        → (c1 : Checker) × (r ≡ ok c1) × (check_events allow c1 es ≡ ok c')
    go (ok c1) q = (c1, refl, q)
    go (fails v) q = cc

pub nil_of_is_empty : {A : Type 0} (xs : List A) → is_empty xs ≡ true → xs ≡ []
nil_of_is_empty [] h = refl
nil_of_is_empty (x ∷ xs) h = cc

-- What the contract asserts.
pub contract-inverse :
    (allow : Bool) (es : List Event) → assert_stream_contract allow es ≡ ok tt → Met allow es
unfolding assert_stream_contract
contract-inverse allow es h =
    go (is_empty es) (has_message_start es) (ends_with_stop es) refl refl
      (check_events allow fresh_checker es) refl h
  where
    ends :
        (c : Checker) (a b : Bool)
        → has_message_start es ≡ true
        → ends_with_stop es ≡ true
        → check_events allow fresh_checker es ≡ ok c
        → is_empty c.open_blocks ≡ a
        → is_empty c.seen_blocks ≡ b
        → (do _ ← guard a unclosed_blocks; guard (not b) no_blocks) ≡ ok tt
        → Met allow es
    ends c false b p q r x y z = cc
    ends c true true p q r x y z = cc
    ends c true false p q r x y z = record {
      checker = c;
      started = p;
      stopped = q;
      accepted = r;
      empty = nil_of_is_empty c.open_blocks x;
      seen = y;
    }

    go :
        (a b d : Bool)
        → has_message_start es ≡ b
        → ends_with_stop es ≡ d
        → (r : Result Checker) → check_events allow fresh_checker es ≡ r
        → (do
          _ ← guard (not a) no_events
          _ ← guard b no_message_start
          _ ← guard d no_final_message_stop
          c ← r
          _ ← guard (is_empty c.open_blocks) unclosed_blocks
          guard (not (is_empty c.seen_blocks)) no_blocks)
          ≡ ok tt
        → Met allow es
    go true b d p q r e x = cc
    go false false d p q r e x = cc
    go false true false p q r e x = cc
    go false true true p q (fails v) e x = cc
    go false true true p q (ok c) e x =
        ends c (is_empty c.open_blocks) (is_empty c.seen_blocks) p q e refl refl x
