-- ===== src/AgentTable/Fsm.antt =====
-- `FiniteStateMachine` of copilot-ralph-mode/ralph_mode/agent_table/fsm.py. Callbacks act on the
-- context dict, a parameter `C`: a guard that raises counts as false, so it is a test; actions and
-- callbacks that raise are not modelled. Priorities
-- are natural numbers, as at every call. Timestamps and context snapshots are left out.
pub mod Protocol
pub mod Trigger
pub mod Reachable
use vega_claude.Prelude.{
  ℕ, zero, suc, String, Option, none, some, Bool, true, false, not, ◌&&◌, ◌||◌, List, [], ◌∷◌, ◌++◌,
  Dict, get, has, put, select, length, contains, add, leb, is_empty, string_eq, ◌==◌, if◌then◌else◌,
}
use vega_claude.Prelude.Int.{ℤ, pos, negsuc}

pub record Transition (C : Type 0) : Type 0 where
  pub source : String
  pub target : String
  pub event : String
  pub guard : Option (C → Bool)
  pub action : Option (C → C)
  pub description : String
  pub priority : ℕ

pub record TransitionRecord : Type 0 where
  pub from_state : String
  pub to_state : String
  pub event : String

pub record StateInfo (C : Type 0) : Type 0 where
  pub on_enter : Option (C → C)
  pub on_exit : Option (C → C)
  pub is_terminal : Bool

pub record Machine (C : Type 0) : Type 0 where
  pub current : String
  pub states : Dict String (StateInfo C)
  pub transitions : List (Transition C)
  pub history : List TransitionRecord
  pub on_any : Option (String → String → String → C → C)

-- Why `trigger` raises an FSMError.
pub data FsmError : Type 0 where
  terminal no_transition guards_blocked : FsmError

-- The outcome of a call of `trigger`: an error leaves the machine and the context as they are.
pub data Outcome (C : Type 0) : Type 0 where
  moved : Machine C → C → Outcome C
  refused : FsmError → Outcome C

abbrev pub forced : String
forced = "_force"

module _ {C : Type 0} where
  unfoldable pub is_allowed : Transition C → C → Bool
  is_allowed t context = elim t.guard [ none ↦ true | some g ↦ g context ]

  abbrev pub plain_info : Bool → StateInfo C
  plain_info is_terminal = record { on_enter = none; on_exit = none; is_terminal = is_terminal }

  unfoldable pub add_state : String → StateInfo C → Machine C → Machine C
  add_state name info m = record m { states = put name info m.states }

  unfoldable pub new_machine : String → Machine C
  unfolding add_state
  new_machine initial =
      add_state initial (plain_info false)
        (record { current = initial; states = []; transitions = []; history = []; on_any = none })

  register : String → Machine C → Machine C
  unfolding add_state
  register name m = if has name m.states then m else add_state name (plain_info false) m

  unfoldable pub add_transition : Transition C → Machine C → Machine C
  unfolding register
  add_transition t m =
      let m' = register t.target (register t.source m) in
      record m' { transitions = m'.transitions ++ t ∷ [] }

  unfoldable pub on_any_transition : (String → String → String → C → C) → Machine C → Machine C
  on_any_transition callback m = record m { on_any = some callback }

  unfoldable pub terminal_info : Option (StateInfo C) → Bool
  terminal_info none = false
  terminal_info (some info) = info.is_terminal

  unfoldable pub in_terminal : Machine C → Bool
  unfolding terminal_info
  in_terminal m = terminal_info (get m.current m.states)

  -- [t for t in self._transitions if t.source == self._current and t.event == event]
  unfoldable pub candidates : String → Machine C → List (Transition C)
  candidates event m = select (λ t. t.source == m.current && t.event == event) m.transitions

  -- `sort(key=priority, reverse=True)` is stable: equal priorities keep their order.
  unfoldable pub insert_by_priority : Transition C → List (Transition C) → List (Transition C)
  insert_by_priority t [] = t ∷ []
  insert_by_priority t (u ∷ us) =
      let later = u ∷ insert_by_priority t us in
      if leb u.priority t.priority then t ∷ u ∷ us else later

  unfoldable pub sort_by_priority : List (Transition C) → List (Transition C)
  unfolding insert_by_priority
  sort_by_priority [] = []
  sort_by_priority (t ∷ ts) = insert_by_priority t (sort_by_priority ts)

  unfoldable pub first_allowed : C → List (Transition C) → Option (Transition C)
  unfolding is_allowed
  first_allowed context [] = none
  first_allowed context (t ∷ ts) =
      let later = first_allowed context ts in if is_allowed t context then some t else later

  call : Option (C → C) → C → C
  call none context = context
  call (some f) context = f context

  exit_of : Option (StateInfo C) → Option (C → C)
  exit_of none = none
  exit_of (some info) = info.on_exit

  enter_of : Option (StateInfo C) → Option (C → C)
  enter_of none = none
  enter_of (some info) = info.on_enter

  abbrev pub call_any : Option (String → String → String → C → C) → String → String → String → C → C
  call_any none old new event context = context
  call_any (some f) old new event context = f old new event context

  -- The machine and the context after the transition.
  unfoldable pub execute_transition : Transition C → C → Machine C → Machine C × C
  unfolding call exit_of enter_of
  execute_transition t context m =
      let c1 = call (exit_of (get m.current m.states)) context in
      let c2 = call t.action c1 in
      let c3 = call (enter_of (get t.target m.states)) c2 in
      (
        record m {
          current = t.target;
          history =
              m.history
              ++ record { from_state = m.current; to_state = t.target; event = t.event } ∷ [];
        },
        call_any m.on_any m.current t.target t.event c3,
      )

  unfoldable pub trigger_from : Option (Transition C) → C → Machine C → Outcome C
  trigger_from none context m = refused guards_blocked
  trigger_from (some t) context m = let (m', c') = execute_transition t context m in moved m' c'

  unfoldable pub trigger : String → C → Machine C → Outcome C
  unfolding in_terminal candidates trigger_from execute_transition
  trigger event context m =
      if in_terminal m
      then refused terminal
      else if is_empty (candidates event m)
      then refused no_transition
      else trigger_from (first_allowed context (sort_by_priority (candidates event m))) context m

  unfoldable pub any_allowed : C → List (Transition C) → Bool
  unfolding is_allowed
  any_allowed context [] = false
  any_allowed context (t ∷ ts) = is_allowed t context || any_allowed context ts

  unfoldable pub can_trigger : String → C → Machine C → Bool
  unfolding in_terminal any_allowed candidates
  can_trigger event context m =
      if in_terminal m then false else any_allowed context (candidates event m)

  unfoldable pub force_state : String → Machine C → Machine C
  unfolding register
  force_state state m =
      let m' = register state m in
      record m' {
        current = state;
        history =
            m'.history ++ record { from_state = m'.current; to_state = state; event = forced } ∷ [];
      }

  -- The set of the events, as a list of distinct ones.
  events_from : String → List (Transition C) → List String
  events_from state [] = []
  events_from state (t ∷ ts) =
      let rest = events_from state ts in if t.source == state then add t.event rest else rest

  unfoldable pub available_events : Machine C → List String
  unfolding events_from
  available_events m = events_from m.current m.transitions

  is_open : Option C → Transition C → Bool
  is_open none t = true
  is_open (some context) t = is_allowed t context

  unfoldable pub available_transitions : Option C → Machine C → List (Transition C)
  unfolding is_open
  available_transitions context m =
      select (λ t. t.source == m.current && is_open context t) m.transitions

  unfoldable pub is_in_state : String → Machine C → Bool
  is_in_state state m = m.current == state
