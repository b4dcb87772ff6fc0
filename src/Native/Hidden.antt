-- ===== src/Native/Hidden.antt =====
-- With thinking disabled, the policy lets no thinking through.
pub mod Steps
use vega_claude.Prelude.{
  ◌≡◌, refl, ap, ◌∙◌, sym, subst, String, Option, none, some, Bool, true, false, not, ◌||◌, List,
  [], ◌∷◌, ◌++◌, Dict, All, All-append, get, has, put, remove, get-put, get-remove, contains, add,
  discard, contains-add, ◌==◌, ==_iff, is_empty, arith, if◌then◌else◌,
}
use mathlib.Core.Option
use mathlib.Core.Option.{some-injective}
use vega_claude.Prelude.Int.{ℤ, pos, int_eq}
use vega_claude.Prelude.Text.{is_blank}
use vega_claude.Sse.Event.{
  Event, Block, Delta, message_start, message_delta, message_stop, content_block_start,
  content_block_delta, content_block_stop, error, other,
}
use vega_claude.Sse.Contract.{
  Checker, Kind, ok, fails, unexpected_error, storage, fresh_checker, check_event, check_events,
  check_start, check_delta,
}
use vega_claude.Sse.Sync.{opened, closed}
use vega_claude.Native.Policy.{
  UpstreamBlock, PolicyState, BlockKind, new_policy, start_at, delta_at, stop_at, block_type,
  delta_type, should_drop_block_type, delta_type_to_block_kind, close_others,
  synthetic_close_other_open_blocks, allocate_new_segment, synthetic_start_content_block, reopened,
  transform_start, delta_in_segment, delta_of_kind, transform_delta, stop_segment, transform_stop,
  transform, transform_all,
}
use vega_claude.Native.Plain.{IsPlain}
use vega_claude.Native.Hidden.Steps.{Hidden, Plain, start_hidden, stop_hidden, delta_hidden}
use vega_claude.Native.Deltas.{delta_kind, stored_kind}
use vega_claude.Native.Inverse.{
  result-injective, start-inverse, stop-inverse, delta-inverse, no_delta, checked_cons, Met,
  nil_of_is_empty, contract-inverse,
}

module _ (allow : Bool) (decimal : ℤ → String) where
  same-Hidden :
      (c c' : Checker) (s : PolicyState) (e : Event)
      → Hidden c s
      → IsPlain e
      → c ≡ c'
      → Plain c' (e ∷ [], s)
  same-Hidden c c' s e h p q = ((p, tt), subst (λ z. Hidden z s) q h)

  step-Hidden :
      (c c' : Checker) (s : PolicyState) (e : Event)
      → Hidden c s
      → check_event allow c e ≡ ok c'
      → Plain c' (transform decimal false e s)
  unfolding transform check_event storage check_start
  step-Hidden c c' s (content_block_start (some i) (some block)) h e =
      let (kind, same, unseen, q) = start-inverse c c' i (storage (some block)) e in
      subst (λ z. Plain z (transform_start decimal false i block s)) q
        (start_hidden decimal c s h i kind block same)
  step-Hidden c c' s (content_block_start (some i) none) h e = cc
  step-Hidden c c' s (content_block_start none b) h e = cc
  step-Hidden c c' s (content_block_delta (some i) (some delta)) h e =
      let (kind, open_up, fits, q) = delta-inverse c c' i delta (get i c.open_blocks) e in
      subst (λ z. Plain z (transform_delta decimal false i delta s)) q
        (delta_hidden decimal c s h i delta kind open_up fits)
  step-Hidden c c' s (content_block_delta (some i) none) h e =
      absurd (no_delta c c' (get i c.open_blocks) e)
  step-Hidden c c' s (content_block_delta none x) h e = cc
  step-Hidden c c' s (content_block_stop (some i)) h e =
      let (kind, open_up, q) = stop-inverse c c' i e in
      subst (λ z. Plain z (transform_stop decimal false i s)) q (stop_hidden decimal c s h i)
  step-Hidden c c' s (content_block_stop none) h e = cc
  step-Hidden c c' s (error m) h e = error_hidden allow e
    where
      error_hidden :
          (b : Bool)
          → (if b then ok c else fails unexpected_error) ≡ ok c'
          → Plain c' (error m ∷ [], s)
      error_hidden true q = same-Hidden c c' s (error m) h tt (result-injective c c' q)
      error_hidden false q = cc
  step-Hidden c c' s (message_start a b n) h e =
      same-Hidden c c' s (message_start a b n) h tt (result-injective c c' e)
  step-Hidden c c' s (message_delta a b n) h e =
      same-Hidden c c' s (message_delta a b n) h tt (result-injective c c' e)
  step-Hidden c c' s message_stop h e =
      same-Hidden c c' s message_stop h tt (result-injective c c' e)
  step-Hidden c c' s (other t) h e = same-Hidden c c' s (other t) h tt (result-injective c c' e)

  All-Hidden :
      (es : List Event) (c c' : Checker) (s : PolicyState)
      → Hidden c s
      → check_events allow c es ≡ ok c'
      → All IsPlain (transform_all decimal false es s).0
  unfolding transform_all
  All-Hidden [] c c' s h e = tt
  All-Hidden (x ∷ es) c c' s h e =
      let (c1, q, p) = checked_cons allow c c' x es e in
      let (plain, h1) = step-Hidden c c1 s x h q in
      All-append IsPlain (transform decimal false x s).0 _ plain (All-Hidden es c1 c' _ h1 p)

-- With thinking disabled, the policy lets no thinking block and no delta of one through, if the
-- contract's loop accepts the upstream events.
pub policy_hides_thinking :
    (allow : Bool) (decimal : ℤ → String) (es : List Event) (c : Checker)
    → check_events allow fresh_checker es ≡ ok c
    → All IsPlain (transform_all decimal false es new_policy).0
policy_hides_thinking allow decimal es c h =
    All-Hidden allow decimal es fresh_checker c new_policy (λ i k e x. cc) h
