-- ===== src/Limits/Tests.antt =====
-- Runs of the limiter: two acquisitions in a window of ten ticks.
use vega_claude.Prelude.{◌≤◌, ◌+◌, ◌≡◌, refl, [], ◌∷◌, arith, count_if}
use vega_claude.Limits.Window.{Limiter, new_limiter, acquired, attempt}
use vega_claude.Limits.Strict.{Run, begun, took, within, window_bound, acquire_wakes}

abbrev limiter : Limiter
limiter = record { rate_limit = 2; rate_window = 10; times = [] }

abbrev first_round : Limiter
first_round = (attempt 3 limiter).1

abbrev second_round : Limiter
second_round = (attempt 5 first_round).1

abbrev two_taken : Run limiter second_round 5 (5 ∷ 3 ∷ [])
unfolding attempt
two_taken = took 5 (took 3 begun (omega arith) refl) (omega arith) refl

window_bound_example : count_if (within 10 1) (5 ∷ 3 ∷ []) ≤ 2
unfolding new_limiter
window_bound_example = window_bound 2 10 limiter second_round 5 (5 ∷ 3 ∷ []) 1 refl two_taken

acquire_wakes_example : (attempt (6 + 7) (attempt 6 second_round).1).0 ≡ acquired
unfolding new_limiter attempt
acquire_wakes_example =
    acquire_wakes 2 10 limiter second_round 5 (5 ∷ 3 ∷ []) 6 7 refl two_taken refl
