-- ===== src/Ralph/Tests.antt =====
-- Runs of the loop guard.
use vega_claude.Prelude.{
  ℕ, ◌≤◌, ◌<◌, ◌+◌, ◌≡◌, ◌↔◌, ◌⊎◌, refl, true, List, [], ◌∷◌, length, none, contains, get,
  string_eq,
}
use vega_claude.Ralph.RunTable.{RunTableEntry, TaskStatus, or_nil, add_entry, record_task_error}
use vega_claude.Ralph.RunTable.Index.{Edit, perform, perform_all, empty_table, perform_all-Indexed}
use vega_claude.Ralph.LoopGuard.{
  continue, retry, debug, escalate, stop, LoopGuard, evaluate, count_consecutive_identical_errors,
}
use vega_claude.Ralph.LoopGuard.Rules.{
  SameThrice, ShortLast, evaluate_iff, count-record_times, record_times,
}

abbrev failed_once : LoopGuard
failed_once = record {
  max_iterations = 20;
  error_history = "timeout" ∷ [];
  verification_failures = [];
  progress_summaries = [];
  critic_rejections = 0;
}

evaluate_iff_example :
    let action = (evaluate 4 failed_once).action in
    let stops = (20 ≤ 4) ⊎ (3 ≤ 0) in
    ((action ≡ stop) ↔ stops)
    × ((action ≡ escalate) ↔ ((¬ stops) × SameThrice failed_once.error_history))
    × ((action ≡ debug) ↔ (
        (¬ stops)
        × (¬ SameThrice failed_once.error_history)
        × (5 ≤ length failed_once.verification_failures)))
    × ((action ≡ retry) ↔ (
        (¬ stops)
        × (¬ SameThrice failed_once.error_history)
        × (length failed_once.verification_failures < 5)
        × ShortLast failed_once.progress_summaries))
    × ((action ≡ continue) ↔ (
        (4 < 20)
        × (0 < 3)
        × (¬ SameThrice failed_once.error_history)
        × (length failed_once.verification_failures < 5)
        × (¬ ShortLast failed_once.progress_summaries)))
evaluate_iff_example = evaluate_iff 4 failed_once

count-record_times_example :
    count_consecutive_identical_errors (record_times (1 + 2) "no such file" failed_once) ≡ 1 + 2
count-record_times_example = count-record_times 1 "no such file" failed_once (λ e. cc)

abbrev first_task : RunTableEntry ℕ
first_task = record {
  run_id = "run";
  task_id = "t1";
  task_title = "Parser";
  status = TaskStatus.pending;
  score = none;
  last_error = "";
}

abbrev two_edits : List (Edit ℕ)
two_edits = Edit.adds first_task ∷ Edit.sets_error "t1" "timeout" ∷ []

perform_all-Indexed_example :
    (first_task.task_id ≡ "t1")
    × (contains "t1" (or_nil (get "run" (perform_all two_edits empty_table).run_entries)) ≡ true)
unfolding perform_all perform add_entry record_task_error
perform_all-Indexed_example =
    perform_all-Indexed two_edits "t1" (record first_task { last_error = "timeout" }) refl
