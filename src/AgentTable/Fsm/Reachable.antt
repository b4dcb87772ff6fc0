-- ===== src/AgentTable/Fsm/Reachable.antt =====
-- `reachable_states` of copilot-ralph-mode/ralph_mode/agent_table/fsm.py. The loop runs on fuel, one
-- more than the number of transitions.
use vega_claude.Prelude.{
  ℕ, zero, suc, ◌+◌, ◌≤◌, ◌≡◌, refl, sym, subst, ◌↔◌, String, Option, none, some, Bool, true, false,
  not, ◌&&◌, ◌||◌, List, [], ◌∷◌, ◌++◌, length, length-append, contains, contains-append,
  contains-add, add, string_eq, ◌==◌, ==_iff, ==_refl, arith, if◌then◌else◌,
}
use vega_claude.AgentTable.Fsm.{Transition, Machine}

module _ {C : Type 0} where
  -- The targets that a visit of the state appends to the queue.
  abbrev pub appended : String → List String → List (Transition C) → List String
  appended state visited [] = []
  appended state visited (t ∷ ts) =
      let rest = appended state visited ts in
      if t.source == state && not (contains t.target visited) then t.target ∷ rest else rest

  -- One round: the states visited and the queue after it.
  abbrev pub visit :
      List (Transition C) → List String → String → List String → List String × List String
  visit ts visited state queue =
      if contains state visited
      then (visited, queue)
      else (add state visited, queue ++ appended state (add state visited) ts)

  unfoldable pub search : ℕ → List (Transition C) → List String → List String → Option (List String)
  search fuel ts visited [] = some visited
  search zero ts visited (state ∷ queue) = none
  search (suc fuel) ts visited (state ∷ queue) =
      let (visited', queue') = visit ts visited state queue in search fuel ts visited' queue'

  unfoldable pub reachable_states : Machine C → Option (List String)
  unfolding search
  reachable_states m = search (suc (length m.transitions)) m.transitions [] (m.current ∷ [])

  abbrev pub has_edge : String → String → List (Transition C) → Bool
  has_edge x y [] = false
  has_edge x y (t ∷ ts) = t.source == x && t.target == y || has_edge x y ts

  -- Transitions lead from one state to the other.
  pub data Leads (ts : List (Transition C)) (start : String) : String → Type 0 where
    stay : Leads ts start start
    move : (x y : String) → Leads ts start x → has_edge x y ts ≡ true → Leads ts start y

  -- The transitions whose source was not visited yet.
  abbrev unexpanded : List String → List (Transition C) → ℕ
  unexpanded visited [] = 0
  unexpanded visited (t ∷ ts) = (if contains t.source visited then 0 else 1) + unexpanded visited ts

  appended-unexpanded :
      (state : String) (visited : List String) (ts : List (Transition C))
      → contains state visited ≡ false
      → length (appended state (add state visited) ts) + unexpanded (add state visited) ts
        ≤ unexpanded visited ts
  appended-unexpanded state visited [] n = omega arith
  appended-unexpanded state visited (t ∷ ts) n = ground (
    arith,
    appended-unexpanded state visited ts n,
    contains-add t.source state visited,
    ==_iff t.source state,
    ==_iff state t.source,
  )

  appended-has_edge :
      (state x : String) (visited : List String) (ts : List (Transition C))
      → contains x (appended state visited ts) ≡ true
      → has_edge state x ts ≡ true
  appended-has_edge state x visited [] h = cc
  appended-has_edge state x visited (t ∷ ts) h =
      ground (arith, appended-has_edge state x visited ts)

  has_edge-appended :
      (state y : String) (visited : List String) (ts : List (Transition C))
      → has_edge state y ts ≡ true
      → (contains y visited || contains y (appended state visited ts)) ≡ true
  has_edge-appended state y visited [] h = cc
  has_edge-appended state y visited (t ∷ ts) h =
      ground (arith, has_edge-appended state y visited ts, ==_iff t.target y)

  -- What holds between two rounds.
  record Searching (ts : List (Transition C)) (start : String) (visited queue : List String)
      : Type 0 where
    sound : (x : String) → (contains x visited || contains x queue) ≡ true → Leads ts start x
    closed :
        (x y : String)
        → contains x visited ≡ true
        → has_edge x y ts ≡ true
        → (contains y visited || contains y queue) ≡ true
    begun : (contains start visited || contains start queue) ≡ true

  visit-Searching :
      (ts : List (Transition C)) (start state : String) (visited queue : List String)
      → Searching ts start visited (state ∷ queue)
      → let r = visit ts visited state queue in Searching ts start r.0 r.1
  visit-Searching ts start state visited queue h = go (contains state visited) refl
    where
      more : List String
      more = appended state (add state visited) ts

      go :
          (b : Bool)
          → contains state visited ≡ b
          → let r : List String × List String =
              if b then (visited, queue) else (add state visited, queue ++ more) in
            Searching ts start r.0 r.1
      go true e = record {
        sound = λ x q. h.sound x (ground arith);
        closed = λ x y q r. ground (arith, h.closed x y q r, ==_iff state y);
        begun = ground (arith, h.begun, ==_iff state start);
      }
      go false e = record {
        sound = λ x q. known x q (contains x more) refl;
        closed = λ x y q r. onward x y q r (state == x) refl;
        begun =
            ground
              (arith, h.begun, contains-add start state visited, contains-append start queue more);
      }
        where
          known :
              (x : String)
              → (contains x (add state visited) || contains x (queue ++ more)) ≡ true
              → (b : Bool) → contains x more ≡ b
              → Leads ts start x
          known x q true w =
              Leads.move state x (h.sound state (ground (arith, ==_refl state)))
                (appended-has_edge state x (add state visited) ts w)
          known x q false w =
              h.sound x (ground (arith, contains-add x state visited, contains-append x queue more))

          onward :
              (x y : String)
              → contains x (add state visited) ≡ true
              → has_edge x y ts ≡ true
              → (b : Bool) → (state == x) ≡ b
              → (contains y (add state visited) || contains y (queue ++ more)) ≡ true
          onward x y q r true w =
              let same : state ≡ x = ground (arith, ==_iff state x) in
              ground (
                arith,
                contains-append y queue more,
                has_edge-appended state y (add state visited) ts
                    (subst (λ z. has_edge z y ts ≡ true) (sym same) r),
              )
          onward x y q r false w = ground (
            arith,
            h.closed x y (ground (arith, contains-add x state visited)) r,
            contains-add y state visited,
            contains-append y queue more,
          )

  visit-shorter :
      (ts : List (Transition C)) (state : String) (visited queue : List String) (n : ℕ)
      → length (state ∷ queue) + unexpanded visited ts ≤ suc n
      → let r = visit ts visited state queue in length r.1 + unexpanded r.0 ts ≤ n
  visit-shorter ts state visited queue n h = go (contains state visited) refl
    where
      more : List String
      more = appended state (add state visited) ts

      go :
          (b : Bool)
          → contains state visited ≡ b
          → let r : List String × List String =
              if b then (visited, queue) else (add state visited, queue ++ more) in
            length r.1 + unexpanded r.0 ts ≤ n
      go true e = omega arith
      go false e =
          let p = appended-unexpanded state visited ts e in
          let q = length-append queue more in omega arith

  search-finds :
      (n : ℕ) (ts : List (Transition C)) (start : String) (visited queue : List String)
      → length queue + unexpanded visited ts ≤ n
      → Searching ts start visited queue
      → (found : List String) × (search n ts visited queue ≡ some found)
        × Searching ts start found []
  unfolding search
  search-finds n ts start visited [] le h = (visited, refl, h)
  search-finds zero ts start visited (state ∷ queue) le h = absurd (omega arith)
  search-finds (suc n) ts start visited (state ∷ queue) le h =
      let r = visit ts visited state queue in
      search-finds n ts start r.0 r.1 (visit-shorter ts state visited queue n le)
        (visit-Searching ts start state visited queue h)

  unexpanded_all : (ts : List (Transition C)) → unexpanded [] ts ≡ length ts
  unexpanded_all [] = refl
  unexpanded_all (t ∷ ts) = omega (arith, unexpanded_all ts)

  led :
      (ts : List (Transition C)) (start : String) (found : List String)
      → Searching ts start found []
      → (x : String) → Leads ts start x
      → contains x found ≡ true
  led ts start found h _ stay = ground (arith, h.begun)
  led ts start found h _ (move y z p e) =
      let q = led ts start found h y p in ground (arith, h.closed y z q e)

  at_start : (m : Machine C) → Searching m.transitions m.current [] (m.current ∷ [])
  at_start m = record {
    sound = λ x q.
        subst (Leads m.transitions m.current) (ground (arith, ==_iff m.current x)) Leads.stay;
    closed = λ x y q r. cc;
    begun = ground (arith, ==_refl m.current);
  }

  -- The search ends within its fuel, and finds exactly the states to which transitions lead from the
  -- current one.
  pub reachable_states-Leads :
      (m : Machine C)
      → (found : List String) × (reachable_states m ≡ some found)
        × ((x : String) → (contains x found ≡ true) ↔ Leads m.transitions m.current x)
  unfolding reachable_states
  reachable_states-Leads m =
      let (found, e, h) =
        search-finds (suc (length m.transitions)) m.transitions m.current [] (m.current ∷ [])
          (let q = unexpanded_all m.transitions in omega arith) (at_start m) in
      (found, e, λ x. (λ q. h.sound x (ground arith), led m.transitions m.current found h x))
