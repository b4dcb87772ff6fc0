-- ===== src/AgentTable/Fsm/Protocol.antt =====
-- `build_protocol_fsm` of copilot-ralph-mode/ralph_mode/agent_table/fsm.py. What
-- `c.get("auto_escalate", False)` gives of a context, as a truth value, is the parameter.
pub mod Course
pub mod Phases
use vega_claude.Prelude.{ℕ, String, Option, none, some, Bool, false, true, not, List, [], ◌∷◌}
use vega_claude.AgentTable.Fsm.{
  Transition, Machine, Outcome, moved, refused, plain_info, add_state, new_machine, add_transition,
  trigger,
}

module _ {C : Type 0} where
  -- A transition without an action.
  abbrev edge : String → String → String → Option (C → Bool) → String → ℕ → Transition C
  edge source target event guard description priority = record {
    source = source;
    target = target;
    event = event;
    guard = guard;
    action = none;
    description = description;
    priority = priority;
  }

  abbrev protocol_edges : (C → Bool) → List (Transition C)
  protocol_edges auto_escalate =
      edge "plan" "implement" "plan_approved" none
        "Critic approved the plan → move to implementation" 0
      ∷ edge "plan" "resolve" "plan_rejected" (some auto_escalate)
          "Critic rejected with auto-escalate → Arbiter resolves" 10
      ∷ edge "plan" "plan" "plan_rejected" (some (λ c. not (auto_escalate c)))
          "Critic rejected without auto-escalate → Doer revises" 0
      ∷ edge "implement" "approve" "review_approved" none
          "Critic approved implementation → Arbiter gives final approval" 0
      ∷ edge "implement" "resolve" "review_rejected" (some auto_escalate)
          "Critic rejected review with auto-escalate → Arbiter resolves" 10
      ∷ edge "implement" "implement" "review_rejected" (some (λ c. not (auto_escalate c)))
          "Critic rejected review → Doer revises implementation" 0
      ∷ edge "implement" "resolve" "escalated" none "Manual escalation to Arbiter" 100
      ∷ edge "resolve" "approve" "decision_made" none "Arbiter made a decision → move to approval" 0
      ∷ edge "resolve" "plan" "decision_restart" none "Arbiter decides to restart from planning" 0
      ∷ edge "approve" "finalized" "approved" none "Arbiter approved → task complete" 0
      ∷ edge "approve" "plan" "rejected" none "Arbiter rejected → start new round from plan" 0
      ∷ edge "plan" "resolve" "force_escalate" none "Force escalation from plan to Arbiter" 50
      ∷ edge "implement" "resolve" "force_escalate" none
          "Force escalation from implement to Arbiter" 50
      ∷ []

  abbrev pub add_all : List (Transition C) → Machine C → Machine C
  add_all [] m = m
  add_all (t ∷ ts) m = add_all ts (add_transition t m)

  unfoldable pub build_protocol_fsm : (C → Bool) → Machine C
  unfolding add_state new_machine add_transition
  build_protocol_fsm auto_escalate =
      let m = new_machine "plan" in
      let m = add_state "plan" (plain_info false) m in
      let m = add_state "implement" (plain_info false) m in
      let m = add_state "resolve" (plain_info false) m in
      let m = add_state "approve" (plain_info false) m in
      let m = add_state "finalized" (plain_info true) m in add_all (protocol_edges auto_escalate) m

  -- The machine that `try_trigger` leaves: a refusal changes nothing.
  abbrev machine_of : Machine C → Outcome C → Machine C
  machine_of m (moved m' c) = m'
  machine_of m (refused e) = m

  unfoldable pub try_trigger : String → C → Machine C → Machine C
  unfolding trigger
  try_trigger event context m = machine_of m (trigger event context m)

  -- Events with their contexts, one after the other.
  unfoldable pub try_all : List (String × C) → Machine C → Machine C
  unfolding try_trigger
  try_all [] m = m
  try_all ((event, context) ∷ es) m = try_all es (try_trigger event context m)
