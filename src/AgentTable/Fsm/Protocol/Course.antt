-- ===== src/AgentTable/Fsm/Protocol/Course.antt =====
-- Whole deliberations: where the protocol goes under any sequence of events, and how it ends.
use vega_claude.Prelude.{
  ◌≡◌, ◌≤◌, refl, sym, ap, ◌∙◌, String, Option, none, some, Bool, false, List, [], ◌∷◌, ◌++◌,
  string_eq, ◌==◌, ==_iff, arith, length, map,
}
use vega_claude.AgentTable.Fsm.{TransitionRecord, Machine}
use vega_claude.AgentTable.Fsm.Protocol.{build_protocol_fsm, try_trigger, try_all, machine_of}
use vega_claude.AgentTable.Fsm.Protocol.Phases.{
  Phase, plan, implement, resolve, approve, finalized, name, next, machine_at, outcome,
  trigger-next, build_protocol_fsm-machine_at,
}

-- A history that leads from one phase to another by the table's steps.
pub data Walk : Phase → List TransitionRecord → Phase → Type 0 where
  start : (p : Phase) → Walk p [] p
  step :
      {p : Phase} {h : List TransitionRecord} (escalate : Bool) (q r : Phase) (event : String)
      → Walk p h q
      → next escalate q event ≡ some r
      → Walk p (h ++ record { from_state = name q; to_state = name r; event = event } ∷ []) r

not_final : {A : Type 0} (s : String) → (s == "finalized") ≡ false → s ≡ "finalized" → A
not_final s e h = ground (arith, ==_iff s "finalized")

name_inj_final : (p : Phase) → name p ≡ "finalized" → p ≡ finalized
name_inj_final plan h = not_final (name plan) refl h
name_inj_final implement h = not_final (name implement) refl h
name_inj_final resolve h = not_final (name resolve) refl h
name_inj_final approve h = not_final (name approve) refl h
name_inj_final finalized h = refl

-- The step before the final phase is the approval.
next-finalized :
    (b : Bool) (q : Phase) (event : String)
    → next b q event ≡ some finalized
    → (q ≡ approve) × (event ≡ "approved")
next-finalized b plan event h = ground arith
next-finalized b implement event h = ground arith
next-finalized b resolve event h = ground arith
next-finalized b approve event h = ground (arith, ==_iff "approved" event)
next-finalized b finalized event h = cc

-- The last record of a history that ends in the final phase.
abbrev pub approval : TransitionRecord
approval = record { from_state = "approve"; to_state = "finalized"; event = "approved" }

Walk-approval :
    {h : List TransitionRecord} {p : Phase}
    → Walk plan h p
    → p ≡ finalized
    → (before : List TransitionRecord) × (h ≡ before ++ approval ∷ [])
Walk-approval (Walk.start p) e = cc
Walk-approval (Walk.step {h = before} escalate q r event w n) e =
    let (x, y) = next-finalized escalate q event (n ∙ ap some e) in (before, rw (x, y, e) refl)

-- Events that finish the deliberation from a phase.
abbrev pub finish : Phase → List String
finish plan = "plan_approved" ∷ "review_approved" ∷ "approved" ∷ []
finish implement = "review_approved" ∷ "approved" ∷ []
finish resolve = "decision_made" ∷ "approved" ∷ []
finish approve = "approved" ∷ []
finish finalized = []

module _ {C : Type 0} (auto_escalate : C → Bool) where
  -- The machine is the protocol's, and its history leads to its phase.
  record Deliberating (m : Machine C) : Type 0 where
    phase : Phase
    history : List TransitionRecord
    walk : Walk plan history phase
    is_protocol : m ≡ machine_at auto_escalate phase history none

  machine_of-outcome :
      (event : String) (c : C) (p : Phase) (h : List TransitionRecord)
      → machine_of (machine_at auto_escalate p h none) (outcome auto_escalate event c p h none none)
        ≡ machine_at auto_escalate p h none
  machine_of-outcome event c plan h = refl
  machine_of-outcome event c implement h = refl
  machine_of-outcome event c resolve h = refl
  machine_of-outcome event c approve h = refl
  machine_of-outcome event c finalized h = refl

  machine_of-Deliberating :
      (event : String) (c : C) (p : Phase) (h : List TransitionRecord) (o : Option Phase)
      → Walk plan h p
      → next (auto_escalate c) p event ≡ o
      → Deliberating (
          machine_of (machine_at auto_escalate p h none) (outcome auto_escalate event c p h none o))
  machine_of-Deliberating event c p h (some q) w e = record {
    phase = q;
    history = h ++ record { from_state = name p; to_state = name q; event = event } ∷ [];
    walk = Walk.step (auto_escalate c) p q event w e;
    is_protocol = refl;
  }
  machine_of-Deliberating event c p h none w e =
      rw (machine_of-outcome event c p h)
        (record { phase = p; history = h; walk = w; is_protocol = refl })

  try_trigger-Deliberating :
      (event : String) (c : C) (m : Machine C)
      → Deliberating m
      → Deliberating (try_trigger event c m)
  unfolding try_trigger
  try_trigger-Deliberating event c m d =
      rw (d.is_protocol, trigger-next auto_escalate event c d.history none d.phase)
        (machine_of-Deliberating event c d.phase d.history _ d.walk refl)

  try_all-Deliberating :
      (es : List (String × C)) (m : Machine C) → Deliberating m → Deliberating (try_all es m)
  unfolding try_all
  try_all-Deliberating [] m d = d
  try_all-Deliberating ((event, c) ∷ es) m d =
      try_all-Deliberating es (try_trigger event c m) (try_trigger-Deliberating event c m d)

  built-Deliberating :
      (es : List (String × C)) → Deliberating (try_all es (build_protocol_fsm auto_escalate))
  built-Deliberating es = try_all-Deliberating es (build_protocol_fsm auto_escalate) (record {
    phase = plan;
    history = [];
    walk = Walk.start plan;
    is_protocol = build_protocol_fsm-machine_at auto_escalate;
  })

  -- However the events and contexts fall, the protocol's machine stands in one of its five phases, with
  -- its states and transitions unchanged, and its history leads there from the plan phase by steps
  -- of the table.
  pub try_all-Walk :
      (es : List (String × C))
      → (p : Phase) × (h : List TransitionRecord) × Walk plan h p
        × (try_all es (build_protocol_fsm auto_escalate) ≡ machine_at auto_escalate p h none)
  try_all-Walk es = let d = built-Deliberating es in (d.phase, d.history, d.walk, d.is_protocol)

  -- A protocol machine that events alone (`try_trigger`, never `force_state`) have brought to
  -- "finalized" has the arbiter's approval as its last step: the event "approved" in the phase
  -- "approve".
  pub finalized_by_approval :
      (es : List (String × C))
      → (try_all es (build_protocol_fsm auto_escalate)).current ≡ "finalized"
      → (before : List TransitionRecord) × ((try_all es (build_protocol_fsm auto_escalate)).history
          ≡ before ++ approval ∷ [])
  finalized_by_approval es h =
      let (p, g, w, e) = try_all-Walk es in
      let final = name_inj_final p (ap (λ m. m.current) (sym e) ∙ h) in
      let (before, last) = Walk-approval w final in (before, ap (λ m. m.history) e ∙ last)

  try_trigger-next :
      (p q : Phase) (event : String) (c : C) (h : List TransitionRecord)
      → next (auto_escalate c) p event ≡ some q
      → try_trigger event c (machine_at auto_escalate p h none)
        ≡ machine_at auto_escalate q
            (h ++ record { from_state = name p; to_state = name q; event = event } ∷ [])
            none
  unfolding try_trigger
  try_trigger-next p q event c h e = rw (trigger-next auto_escalate event c h none p) (rw e refl)

  approve-finalized :
      (h : List TransitionRecord) (c : C)
      → (try_trigger "approved" c (machine_at auto_escalate approve h none)).current ≡ "finalized"
  approve-finalized h c = rw (try_trigger-next approve finalized "approved" c h refl) refl

  finish-finalized :
      (p : Phase) (h : List TransitionRecord) (c : C)
      → (try_all (map (λ event. (event, c)) (finish p)) (machine_at auto_escalate p h none)).current
        ≡ "finalized"
  unfolding try_all
  finish-finalized plan h c =
      rw (try_trigger-next plan implement "plan_approved" c h refl)
        (rw (try_trigger-next implement approve "review_approved" c _ refl) (approve-finalized _ c))
  finish-finalized implement h c =
      rw (try_trigger-next implement approve "review_approved" c h refl) (approve-finalized _ c)
  finish-finalized resolve h c =
      rw (try_trigger-next resolve approve "decision_made" c h refl) (approve-finalized _ c)
  finish-finalized approve h c = approve-finalized h c
  finish-finalized finalized h c = refl

  finish-short : (p : Phase) → length (finish p) ≤ 3
  finish-short plan = omega arith
  finish-short implement = omega arith
  finish-short resolve = omega arith
  finish-short approve = omega arith
  finish-short finalized = omega arith

  -- Whatever came before, at most three more events finish the deliberation, the same ones in every
  -- context.
  pub can_finalize :
      (es : List (String × C))
      → (more : List String) × (length more ≤ 3)
        × ((c : C)
            → (try_all
                (map (λ event. (event, c)) more)
                (try_all es (build_protocol_fsm auto_escalate))).current
              ≡ "finalized")
  can_finalize es =
      let (p, h, w, e) = try_all-Walk es in
      (finish p, finish-short p, λ c. rw e (finish-finalized p h c))
