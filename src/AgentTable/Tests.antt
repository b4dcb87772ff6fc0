-- ===== src/AgentTable/Tests.antt =====
-- Runs of a machine with a guard on its only way out of a state.
use vega_claude.Prelude.{
  ◌≡◌, ◌≤◌, ◌↔◌, contains, string_eq, refl, map, length, String, none, some, Bool, true, false,
  List, [], ◌∷◌, ◌++◌,
}
use vega_claude.AgentTable.Fsm.{
  Transition, TransitionRecord, Machine, new_machine, add_transition, first_allowed,
  sort_by_priority, trigger, can_trigger,
}
use vega_claude.AgentTable.Fsm.Trigger.{is_moved, Triggered, can_trigger-trigger, trigger-Triggered}
use vega_claude.AgentTable.Fsm.Reachable.{reachable_states, Leads, reachable_states-Leads}
use vega_claude.AgentTable.Fsm.Protocol.{build_protocol_fsm, try_all}
use vega_claude.AgentTable.Fsm.Protocol.Phases.{Phase, next, machine_at, outcome, trigger-next}
use vega_claude.AgentTable.Fsm.Protocol.Course.{
  Walk, approval, try_all-Walk, finalized_by_approval, can_finalize,
}

abbrev approve : Transition Bool
approve = record {
  source = "review";
  target = "done";
  event = "approve";
  guard = some (λ b. b);
  action = none;
  description = "";
  priority = 1;
}

abbrev in_review : Machine Bool
in_review = add_transition approve (new_machine "review")

can_trigger-trigger_example :
    can_trigger "approve" true in_review ≡ is_moved (trigger "approve" true in_review)
can_trigger-trigger_example = can_trigger-trigger "approve" true in_review

trigger-Triggered_example : Triggered "approve" true in_review (trigger "approve" true in_review)
trigger-Triggered_example = trigger-Triggered "approve" true in_review

abbrev plan_then_stop : List (String × Bool)
plan_then_stop =
    ("plan_approved", true)
    ∷ ("review_rejected", false)
    ∷ ("review_approved", true)
    ∷ ("approved", true)
    ∷ []

trigger-next_example :
    trigger "plan_rejected" true (machine_at (λ b. b) Phase.plan [] none)
    ≡ outcome
        (λ b. b)
        "plan_rejected"
        true
        Phase.plan
        []
        none
        (next true Phase.plan "plan_rejected")
trigger-next_example = trigger-next (λ b. b) "plan_rejected" true [] none Phase.plan

try_all-Walk_example :
    (p : Phase) × (h : List TransitionRecord) × Walk Phase.plan h p
    × (try_all plan_then_stop (build_protocol_fsm (λ b. b)) ≡ machine_at (λ b. b) p h none)
try_all-Walk_example = try_all-Walk (λ b. b) plan_then_stop

finalized_by_approval_example :
    (before : List TransitionRecord) × ((try_all plan_then_stop
        (build_protocol_fsm (λ b. b))).history
      ≡ before ++ approval ∷ [])
unfolding try_all build_protocol_fsm first_allowed sort_by_priority
finalized_by_approval_example = finalized_by_approval (λ b. b) plan_then_stop refl

can_finalize_example :
    (more : List String) × (length more ≤ 3)
    × ((c : Bool)
        → (try_all
            (map (λ event. (event, c)) more)
            (try_all plan_then_stop (build_protocol_fsm (λ b. b)))).current
          ≡ "finalized")
can_finalize_example = can_finalize (λ b. b) plan_then_stop

reachable_states-Leads_example :
    (found : List String) × (reachable_states in_review ≡ some found)
    × ((x : String) → (contains x found ≡ true) ↔ Leads in_review.transitions in_review.current x)
reachable_states-Leads_example = reachable_states-Leads in_review
