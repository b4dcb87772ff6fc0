-- ===== src/Limits/Queue/Tests.antt =====
-- Runs of the queue.
use vega_claude.Prelude.{ℕ, ◌+◌, ◌≡◌, String, false, List, [], ◌∷◌, length, string_eq}
use vega_claude.Limits.Queue.Runs.{
  Step, enqueue, work, new_course, perform_all, occurrences, enqueued, waiting,
}
use vega_claude.Limits.Queue.Futures.{perform_all-kept, work_times, work_times-gives}

-- Two updates of one message with another message between them, and a round of the worker.
abbrev steps : List (Step String)
steps =
    enqueue "draft" (1 ∷ []) "edit:1" false
    ∷ enqueue "other" (2 ∷ []) "edit:2" false
    ∷ enqueue "final" (3 ∷ []) "edit:1" false
    ∷ work
    ∷ []

perform_all-kept_example :
    ((perform_all steps new_course).failed ≡ false)
    × ((x : ℕ)
        → occurrences x (perform_all steps new_course).given
            + waiting x (perform_all steps new_course).queue.queue_map
          ≡ occurrences x (enqueued steps))
perform_all-kept_example = perform_all-kept steps

work_times-gives_example :
    let c = perform_all steps new_course in
    let end = perform_all (work_times (length c.queue.queue_list)) c in
    (end.queue.queue_list ≡ [])
    × (end.queue.queue_map ≡ [])
    × (occurrences 2 end.given ≡ occurrences 2 (enqueued steps))
work_times-gives_example = work_times-gives steps 2
