-- ===== src/Ralph/LoopGuard.antt =====
-- `LoopGuard` of free-claude-code/core/ralph/loop_guard.py. The `reason` texts are not modelled.
pub mod Rules
use vega_claude.Prelude.{
  ℕ, zero, suc, ◌+◌, String, Option, none, some, Bool, true, false, List, [], ◌∷◌, ◌++◌, ltb, leb,
  length, string_eq, ◌==◌, if◌then◌else◌,
}
use mathlib.Core.List.{reverse}
use vega_claude.Prelude.Text.{strip, size}

pub data LoopAction : Type 0 where
  continue retry debug escalate stop : LoopAction

pub record LoopGuardDecision : Type 0 where
  pub action : LoopAction
  pub repeated_failure_count : ℕ
  pub max_iterations_reached : Bool
  pub no_progress_detected : Bool

abbrev pub retry_threshold : ℕ
retry_threshold = 3

abbrev pub debug_threshold : ℕ
debug_threshold = 5

abbrev pub progress_min_summary_length : ℕ
progress_min_summary_length = 10

abbrev pub critic_rejection_limit : ℕ
critic_rejection_limit = 3

pub record LoopGuard : Type 0 where
  pub max_iterations : ℕ
  pub error_history : List String
  pub verification_failures : List String
  pub progress_summaries : List String
  pub critic_rejections : ℕ

-- `none` is the ValueError of the constructor.
unfoldable pub new_guard : ℕ → Option LoopGuard
new_guard max_iterations =
    if ltb max_iterations 1
    then none
    else some (record {
      max_iterations = max_iterations;
      error_history = [];
      verification_failures = [];
      progress_summaries = [];
      critic_rejections = 0;
    })

unfoldable pub record_error : String → LoopGuard → LoopGuard
record_error error g = record g { error_history = g.error_history ++ error ∷ [] }

unfoldable pub record_verification_failure : String → LoopGuard → LoopGuard
record_verification_failure detail g = record g {
  verification_failures = g.verification_failures ++ detail ∷ [];
}

unfoldable pub record_progress_summary : String → LoopGuard → LoopGuard
record_progress_summary summary g = record g {
  progress_summaries = g.progress_summaries ++ summary ∷ [];
}

unfoldable pub record_critic_rejection : LoopGuard → LoopGuard
record_critic_rejection g = record g { critic_rejections = g.critic_rejections + 1 }

-- The loop over the reversed history, with its `break`.
unfoldable pub count_same : String → List String → ℕ
count_same last [] = 0
count_same last (err ∷ errs) =
    let rest = count_same last errs in if err == last then suc rest else 0

-- The history, the newest first.
unfoldable pub consecutive_identical : List String → ℕ
unfolding count_same
consecutive_identical [] = 0
consecutive_identical (last ∷ []) = 0
consecutive_identical (last ∷ err ∷ errs) = 1 + count_same last (err ∷ errs)

unfoldable pub count_consecutive_identical_errors : LoopGuard → ℕ
unfolding consecutive_identical
count_consecutive_identical_errors g = consecutive_identical (reverse g.error_history)

unfoldable pub short_summary : List String → Bool
unfolding strip size
short_summary [] = false
short_summary (last ∷ rest) = ltb (size (strip last)) progress_min_summary_length

unfoldable pub has_no_progress : LoopGuard → Bool
unfolding short_summary
has_no_progress g = short_summary (reverse g.progress_summaries)

abbrev pub decision : LoopAction → ℕ → Bool → Bool → LoopGuardDecision
decision action count reached no_progress = record {
  action = action;
  repeated_failure_count = count;
  max_iterations_reached = reached;
  no_progress_detected = no_progress;
}

unfoldable pub evaluate : ℕ → LoopGuard → LoopGuardDecision
evaluate current_iteration g =
    let repeated_errors = count_consecutive_identical_errors g in
    if leb g.max_iterations current_iteration
    then decision stop (length g.error_history) true false
    else if leb critic_rejection_limit g.critic_rejections
    then decision stop g.critic_rejections false false
    else if leb retry_threshold repeated_errors
    then decision escalate repeated_errors false false
    else if leb debug_threshold (length g.verification_failures)
    then decision debug (length g.verification_failures) false false
    else if has_no_progress g
    then decision retry (length g.error_history) false true
    else decision continue 0 false false

unfoldable pub reset : LoopGuard → LoopGuard
reset g = record g {
  error_history = [];
  verification_failures = [];
  progress_summaries = [];
  critic_rejections = 0;
}
