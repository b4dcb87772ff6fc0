-- ===== src/Ralph/LoopGuard/Rules.antt =====
-- When the loop guard says what.
use vega_claude.Prelude.{
  ℕ, zero, suc, ◌+◌, ◌≤◌, ◌<◌, ◌≡◌, ◌≢◌, ◌↔◌, ◌⊎◌, refl, sym, ap, subst, ◌∙◌, ◌++◌, String, true,
  List, [], ◌∷◌, length, arith, string_eq, ==_iff, ==_refl,
}
use mathlib.Core.List.{reverse, reverse-append, reverse-reverse}
use native.Mathlib.Numerals.{add-two}
use vega_claude.Prelude.Text.{strip, size}
use vega_claude.Ralph.LoopGuard.{
  continue, retry, debug, escalate, stop, LoopGuard, record_error, count_same,
  consecutive_identical, count_consecutive_identical_errors, has_no_progress, short_summary,
  evaluate,
}

-- The same error stands three times at the end of a history.
unfoldable pub SameThrice : List String → Type 0
SameThrice errors = (before : List String) × (e : String) × (errors ≡ before ++ (e ∷ e ∷ e ∷ []))

-- The last summary, without the white space around it, has fewer than ten characters.
unfoldable pub ShortLast : List String → Type 0
ShortLast summaries =
    (before : List String) × (last : String) × (summaries ≡ before ++ (last ∷ []))
    × (size (strip last) < 10)

three_same :
    (x y z : String) (hs : List String)
    → 3 ≤ consecutive_identical (x ∷ y ∷ z ∷ hs)
    → (y ≡ x) × (z ≡ x)
unfolding consecutive_identical count_same
three_same x y z hs h = ground (arith, ==_iff y x, ==_iff z x)

same_first : (hs : List String) → 3 ≤ consecutive_identical hs → SameThrice (reverse hs)
unfolding consecutive_identical count_same SameThrice
same_first [] h = absurd (omega arith)
same_first (x ∷ []) h = absurd (omega arith)
same_first (x ∷ y ∷ []) h = absurd (ground arith)
same_first (x ∷ y ∷ z ∷ hs) h =
    let (p, q) = three_same x y z hs h in
    (reverse hs, x, reverse-append (x ∷ y ∷ z ∷ []) hs ∙ ap (λ t. reverse hs ++ t) (cc))

first_same : (e : String) (hs : List String) → 3 ≤ consecutive_identical (e ∷ e ∷ e ∷ hs)
unfolding consecutive_identical count_same
first_same e hs = rw (==_refl e) (omega arith)

-- Three or more are counted exactly when the same error ends the history three times.
count-SameThrice :
    (g : LoopGuard) → (3 ≤ count_consecutive_identical_errors g) ↔ SameThrice g.error_history
unfolding count_consecutive_identical_errors SameThrice
count-SameThrice g = (
  (λ h.
      subst SameThrice (reverse-reverse g.error_history) (same_first (reverse g.error_history) h)),
  (λ (before, e, q).
      subst (λ hs. 3 ≤ consecutive_identical hs)
        (sym (ap reverse q ∙ reverse-append before (e ∷ e ∷ e ∷ [])))
        (first_same e (reverse before))),
)

short_first : (ks : List String) → short_summary ks ≡ true → ShortLast (reverse ks)
unfolding short_summary ShortLast
short_first [] h = cc
short_first (last ∷ rest) h = (reverse rest, last, reverse-append (last ∷ []) rest, ground arith)

first_short :
    (last : String) (rest : List String)
    → size (strip last) < 10
    → short_summary (last ∷ rest) ≡ true
unfolding short_summary
first_short last rest h = ground arith

no_progress-ShortLast :
    (g : LoopGuard) → (has_no_progress g ≡ true) ↔ ShortLast g.progress_summaries
unfolding has_no_progress ShortLast
no_progress-ShortLast g = (
  (λ h.
      subst ShortLast (reverse-reverse g.progress_summaries)
        (short_first (reverse g.progress_summaries) h)),
  (λ (before, last, q, n).
      subst (λ ks. short_summary ks ≡ true) (sym (ap reverse q ∙ reverse-append before (last ∷ [])))
        (first_short last (reverse before) n)),
)

-- The guard stops exactly at the iteration limit or at three critic rejections. When it does not
-- stop, it escalates exactly when the same error stands three times at the end of the history; else
-- it debugs exactly at five verification failures; else it retries exactly when the last summary,
-- without the white space around it, has fewer than ten characters, and continues when it does not.
pub evaluate_iff :
    (i : ℕ) (g : LoopGuard)
    → let action = (evaluate i g).action in
      let stops = (g.max_iterations ≤ i) ⊎ (3 ≤ g.critic_rejections) in
      ((action ≡ stop) ↔ stops)
      × ((action ≡ escalate) ↔ ((¬ stops) × SameThrice g.error_history))
      × ((action ≡ debug)
          ↔ ((¬ stops) × (¬ SameThrice g.error_history) × (5 ≤ length g.verification_failures)))
      × ((action ≡ retry) ↔ (
          (¬ stops)
          × (¬ SameThrice g.error_history)
          × (length g.verification_failures < 5)
          × ShortLast g.progress_summaries))
      × ((action ≡ continue) ↔ (
          (i < g.max_iterations)
          × (g.critic_rejections < 3)
          × (¬ SameThrice g.error_history)
          × (length g.verification_failures < 5)
          × (¬ ShortLast g.progress_summaries)))
unfolding evaluate
evaluate_iff i g = ground (arith, count-SameThrice g, no_progress-ShortLast g)

unfoldable pub record_times : ℕ → String → LoopGuard → LoopGuard
record_times zero e g = g
record_times (suc n) e g = record_error e (record_times n e g)

count_same-other : (e : String) (hs : List String) → (count_same e (e ∷ hs)) ≡ suc (count_same e hs)
unfolding count_same
count_same-other e hs = rw (==_refl e)

-- The newest error of a history, if any, is another one.
abbrev pub EndsOther : String → List String → Type 0
EndsOther e [] = Unit
EndsOther e (x ∷ hs) = x ≢ e

count_same-EndsOther : (e : String) (hs : List String) → EndsOther e hs → count_same e hs ≡ 0
unfolding count_same
count_same-EndsOther e [] h = refl
count_same-EndsOther e (x ∷ hs) h = ground (arith, ==_iff x e)

abbrev repeated : ℕ → String → List String → List String
repeated zero e hs = hs
repeated (suc n) e hs = e ∷ repeated n e hs

reverse-record_times :
    (n : ℕ) (e : String) (g : LoopGuard)
    → reverse (record_times n e g).error_history ≡ repeated n e (reverse g.error_history)
unfolding record_times record_error
reverse-record_times zero e g = refl
reverse-record_times (suc n) e g =
    reverse-append (record_times n e g).error_history (e ∷ [])
    ∙ ap (λ hs. e ∷ hs) (reverse-record_times n e g)

count_same-repeated :
    (n : ℕ) (e : String) (hs : List String) → EndsOther e hs → count_same e (repeated n e hs) ≡ n
count_same-repeated zero e hs h = count_same-EndsOther e hs h
count_same-repeated (suc n) e hs h =
    count_same-other e (repeated n e hs) ∙ ap suc (count_same-repeated n e hs h)

identical-repeated :
    (n : ℕ) (e : String) (hs : List String)
    → EndsOther e hs
    → consecutive_identical (repeated (suc (suc n)) e hs) ≡ suc (suc n)
unfolding consecutive_identical
identical-repeated n e hs h =
    omega (arith, count_same-other e (repeated n e hs), count_same-repeated n e hs h)

-- Recording the same error two or more times on a guard whose newest error is another one counts
-- exactly those records.
pub count-record_times :
    (n : ℕ) (e : String) (g : LoopGuard)
    → EndsOther e (reverse g.error_history)
    → count_consecutive_identical_errors (record_times (n + 2) e g) ≡ n + 2
unfolding count_consecutive_identical_errors
count-record_times n e g h = rw (add-two n) (
    rw (reverse-record_times (suc (suc n)) e g)
      (identical-repeated n e (reverse g.error_history) h))
