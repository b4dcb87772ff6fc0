-- ===== src/AgentTable/Fsm/Protocol/Phases.antt =====
-- The deliberation protocol as a table of phases, and the machine's agreement with it.
use vega_claude.Prelude.{
  ◌≡◌, refl, subst, ◌⊎◌, inl, inr, String, Option, none, some, Bool, true, false, List, [], ◌∷◌,
  ◌++◌, string_eq, ◌==◌, ==_iff, Bool-cases, if◌then◌else◌,
}
use vega_claude.AgentTable.Fsm.{
  TransitionRecord, Machine, Outcome, terminal, no_transition, moved, refused, trigger, in_terminal,
  candidates, call_any, plain_info, terminal_info, sort_by_priority, insert_by_priority,
  first_allowed, is_allowed, trigger_from, execute_transition, call, exit_of, enter_of, register,
  add_state, new_machine, add_transition,
}
use vega_claude.AgentTable.Fsm.Protocol.{build_protocol_fsm, protocol_edges}

pub data Phase : Type 0 where
  plan implement resolve approve finalized : Phase

abbrev pub name : Phase → String
name plan = "plan"
name implement = "implement"
name resolve = "resolve"
name approve = "approve"
name finalized = "finalized"

-- The phase that follows, if the event means anything in this one.
abbrev pub next : Bool → Phase → String → Option Phase
next escalate plan event =
    if "plan_approved" == event
    then some implement
    else if "plan_rejected" == event
    then some (if escalate then resolve else plan)
    else if "force_escalate" == event
    then some resolve
    else none
next escalate implement event =
    if "review_approved" == event
    then some approve
    else if "review_rejected" == event
    then some (if escalate then resolve else implement)
    else if "escalated" == event
    then some resolve
    else if "force_escalate" == event
    then some resolve
    else none
next escalate resolve event =
    if "decision_made" == event
    then some approve
    else if "decision_restart" == event
    then some plan
    else none
next escalate approve event =
    if "approved" == event then some finalized else if "rejected" == event then some plan else none
next escalate finalized event = none

string_cases : (s event : String) → (s ≡ event) ⊎ ((s == event) ≡ false)
string_cases s event = elim (Bool-cases (s == event)) [
  | inl e ↦ inl ((==_iff s event).0 e)
  | inr e ↦ inr e
]

module _ {C : Type 0} (auto_escalate : C → Bool) where
  -- The protocol's machine in a phase, with some history and a callback.
  abbrev pub machine_at :
      Phase → List TransitionRecord → Option (String → String → String → C → C) → Machine C
  machine_at p h f = record {
    current = name p;
    states =
        ("plan", plain_info false)
        ∷ ("implement", plain_info false)
        ∷ ("resolve", plain_info false)
        ∷ ("approve", plain_info false)
        ∷ ("finalized", plain_info true)
        ∷ [];
    transitions = protocol_edges auto_escalate;
    history = h;
    on_any = f;
  }

  pub build_protocol_fsm-machine_at : build_protocol_fsm auto_escalate ≡ machine_at plan [] none
  unfolding build_protocol_fsm add_state new_machine add_transition register
  build_protocol_fsm-machine_at = refl

  -- What `trigger` gives for the phase that follows `p`.
  abbrev pub outcome :
      String
      → C
      → Phase
      → List TransitionRecord
      → Option (String → String → String → C → C)
      → Option Phase
      → Outcome C
  outcome event c p h f (some q) =
      moved
        (machine_at q (h ++ record { from_state = name p; to_state = name q; event = event } ∷ [])
          f)
        (call_any f (name p) (name q) event c)
  outcome event c finalized h f none = refused terminal
  outcome event c p h f none = refused no_transition

  module _ (event : String) (c : C) (h : List TransitionRecord)
      (f : Option (String → String → String → C → C)) where
    abbrev Agrees : Phase → String → Type 0
    Agrees p e = trigger e c (machine_at p h f) ≡ outcome e c p h f (next (auto_escalate c) p e)

    plan-rejected : Agrees plan "plan_rejected"
    unfolding trigger in_terminal candidates terminal_info sort_by_priority insert_by_priority
        first_allowed is_allowed trigger_from execute_transition call exit_of enter_of
    plan-rejected = elim (Bool-cases (auto_escalate c)) [ inl e ↦ rw e refl | inr e ↦ rw e refl ]

    plan-Agrees : Agrees plan event
    unfolding trigger in_terminal candidates terminal_info sort_by_priority insert_by_priority
        first_allowed is_allowed trigger_from execute_transition call exit_of enter_of
    plan-Agrees = elim (string_cases "plan_approved" event) [
      | inl e ↦ subst (Agrees plan) e refl
      | inr n1 ↦ elim (string_cases "plan_rejected" event) [
        | inl e ↦ subst (Agrees plan) e plan-rejected
        | inr n2 ↦ elim (string_cases "force_escalate" event) [
          | inl e ↦ subst (Agrees plan) e refl
          | inr n3 ↦ rw (n1, n2, n3) refl
        ]
      ]
    ]

    implement-rejected : Agrees implement "review_rejected"
    unfolding trigger in_terminal candidates terminal_info sort_by_priority insert_by_priority
        first_allowed is_allowed trigger_from execute_transition call exit_of enter_of
    implement-rejected = elim (Bool-cases (auto_escalate c)) [
      | inl e ↦ rw e refl
      | inr e ↦ rw e refl
    ]

    implement-Agrees : Agrees implement event
    unfolding trigger in_terminal candidates terminal_info sort_by_priority insert_by_priority
        first_allowed is_allowed trigger_from execute_transition call exit_of enter_of
    implement-Agrees = elim (string_cases "review_approved" event) [
      | inl e ↦ subst (Agrees implement) e refl
      | inr n1 ↦ elim (string_cases "review_rejected" event) [
        | inl e ↦ subst (Agrees implement) e implement-rejected
        | inr n2 ↦ elim (string_cases "escalated" event) [
          | inl e ↦ subst (Agrees implement) e refl
          | inr n3 ↦ elim (string_cases "force_escalate" event) [
            | inl e ↦ subst (Agrees implement) e refl
            | inr n4 ↦ rw (n1, n2, n3, n4) refl
          ]
        ]
      ]
    ]

    resolve-Agrees : Agrees resolve event
    unfolding trigger in_terminal candidates terminal_info sort_by_priority insert_by_priority
        first_allowed is_allowed trigger_from execute_transition call exit_of enter_of
    resolve-Agrees = elim (string_cases "decision_made" event) [
      | inl e ↦ subst (Agrees resolve) e refl
      | inr n1 ↦ elim (string_cases "decision_restart" event) [
        | inl e ↦ subst (Agrees resolve) e refl
        | inr n2 ↦ rw (n1, n2) refl
      ]
    ]

    approve-Agrees : Agrees approve event
    unfolding trigger in_terminal candidates terminal_info sort_by_priority insert_by_priority
        first_allowed is_allowed trigger_from execute_transition call exit_of enter_of
    approve-Agrees = elim (string_cases "approved" event) [
      | inl e ↦ subst (Agrees approve) e refl
      | inr n1 ↦ elim (string_cases "rejected" event) [
        | inl e ↦ subst (Agrees approve) e refl
        | inr n2 ↦ rw (n1, n2) refl
      ]
    ]

    finalized-Agrees : Agrees finalized event
    unfolding trigger in_terminal terminal_info
    finalized-Agrees = refl

    -- In every phase of the protocol, for every event and context, `trigger` does what the table says:
    -- it moves to the phase the table gives, or refuses because the phase is final or the event has
    -- no meaning in it. The guards never block an event.
    pub trigger-next :
        (p : Phase)
        → trigger event c (machine_at p h f)
          ≡ outcome event c p h f (next (auto_escalate c) p event)
    trigger-next plan = plan-Agrees
    trigger-next implement = implement-Agrees
    trigger-next resolve = resolve-Agrees
    trigger-next approve = approve-Agrees
    trigger-next finalized = finalized-Agrees
