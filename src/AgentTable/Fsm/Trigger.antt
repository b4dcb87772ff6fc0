-- ===== src/AgentTable/Fsm/Trigger.antt =====
-- Which transition `trigger` takes, and when it takes one.
use vega_claude.Prelude.{
  ◌≤◌, ◌≡◌, refl, ap, subst, String, Option, none, some, Bool, true, false, ◌&&◌, ◌||◌, List, [],
  ◌∷◌, ◌++◌, All, select, leb, is_empty, string_eq, ◌==◌, ==_iff, if◌then◌else◌, arith,
}
use mathlib.Core.List.{Memᴰ}
use mathlib.Core.Option.{some-injective}
use vega_claude.AgentTable.Fsm.{
  Transition, Machine, terminal, no_transition, guards_blocked, Outcome, moved, refused, is_allowed,
  in_terminal, candidates, insert_by_priority, sort_by_priority, first_allowed, any_allowed,
  trigger_from, execute_transition, trigger, can_trigger,
}

abbrev pub is_moved : {C : Type 0} → Outcome C → Bool
is_moved (moved m c) = true
is_moved (refused e) = false

module _ {C : Type 0} where
  any_allowed-insert :
      (c : C) (t : Transition C) (ts : List (Transition C))
      → any_allowed c (insert_by_priority t ts) ≡ (is_allowed t c || any_allowed c ts)
  unfolding any_allowed insert_by_priority
  any_allowed-insert c t [] = refl
  any_allowed-insert c t (u ∷ us) = ground (arith, any_allowed-insert c t us)

  any_allowed-sort :
      (c : C) (ts : List (Transition C)) → any_allowed c (sort_by_priority ts) ≡ any_allowed c ts
  unfolding any_allowed sort_by_priority
  any_allowed-sort c [] = refl
  any_allowed-sort c (t ∷ ts) =
      ground (arith, any_allowed-insert c t (sort_by_priority ts), any_allowed-sort c ts)

  trigger_from-moved :
      (c : C) (m : Machine C) (ts : List (Transition C))
      → is_moved (trigger_from (first_allowed c ts) c m) ≡ any_allowed c ts
  unfolding first_allowed any_allowed trigger_from
  trigger_from-moved c m [] = refl
  trigger_from-moved c m (t ∷ ts) = ground (arith, trigger_from-moved c m ts)

  any_allowed-nil :
      (c : C) (ts : List (Transition C)) → is_empty ts ≡ true → any_allowed c ts ≡ false
  unfolding any_allowed
  any_allowed-nil c [] h = refl
  any_allowed-nil c (t ∷ ts) h = cc

  -- `can_trigger` answers whether `trigger` makes a transition.
  pub can_trigger-trigger :
      (event : String) (c : C) (m : Machine C)
      → can_trigger event c m ≡ is_moved (trigger event c m)
  unfolding can_trigger trigger
  can_trigger-trigger event c m =
      let ts = candidates event m in
      ground (
        arith,
        any_allowed-nil c ts,
        any_allowed-sort c ts,
        trigger_from-moved c m (sort_by_priority ts),
      )

  -- From a higher to a lower priority.
  abbrev Descends : List (Transition C) → Type 0
  Descends [] = Unit
  Descends (t ∷ ts) = All (λ u. u.priority ≤ t.priority) ts × Descends ts

  All-if :
      (P : Transition C → Type 0) (b : Bool) (xs ys : List (Transition C))
      → All P xs
      → All P ys
      → All P (if b then xs else ys)
  All-if P true xs ys x y = x
  All-if P false xs ys x y = y

  All-insert :
      (P : Transition C → Type 0) (t : Transition C) (ts : List (Transition C))
      → P t
      → All P ts
      → All P (insert_by_priority t ts)
  unfolding insert_by_priority
  All-insert P t [] h a = (h, tt)
  All-insert P t (u ∷ us) h a =
      All-if P (leb u.priority t.priority) (t ∷ u ∷ us) (u ∷ insert_by_priority t us) (h, a)
        (a.0, All-insert P t us h a.1)

  All-sort :
      (P : Transition C → Type 0) (ts : List (Transition C))
      → All P ts
      → All P (sort_by_priority ts)
  unfolding sort_by_priority
  All-sort P [] a = tt
  All-sort P (t ∷ ts) a = All-insert P t (sort_by_priority ts) a.0 (All-sort P ts a.1)

  All-insert_inv :
      (P : Transition C → Type 0) (t : Transition C) (ts : List (Transition C))
      → All P (insert_by_priority t ts)
      → P t × All P ts
  unfolding insert_by_priority
  All-insert_inv P t [] a = (a.0, tt)
  All-insert_inv P t (u ∷ us) a = go (leb u.priority t.priority) a (All-insert_inv P t us)
    where
      go :
          (b : Bool)
          → All P (if b then t ∷ u ∷ us else u ∷ insert_by_priority t us)
          → (All P (insert_by_priority t us) → P t × All P us)
          → P t × All P (u ∷ us)
      go true h r = (h.0, h.1)
      go false h r = let (x, y) = r h.1 in (x, (h.0, y))

  All-sort_inv :
      (P : Transition C → Type 0) (ts : List (Transition C))
      → All P (sort_by_priority ts)
      → All P ts
  unfolding sort_by_priority
  All-sort_inv P [] a = tt
  All-sort_inv P (t ∷ ts) a =
      let (x, y) = All-insert_inv P t (sort_by_priority ts) a in (x, All-sort_inv P ts y)

  All-map :
      (P Q : Transition C → Type 0) (ts : List (Transition C))
      → ((u : Transition C) → P u → Q u)
      → All P ts
      → All Q ts
  All-map P Q [] f a = tt
  All-map P Q (t ∷ ts) f a = (f t a.0, All-map P Q ts f a.1)

  All-select_inv :
      (P : Transition C → Type 0) (p : Transition C → Bool) (ts : List (Transition C))
      → All P (select p ts)
      → All (λ u. p u ≡ true → P u) ts
  All-select_inv P p [] a = tt
  All-select_inv P p (t ∷ ts) a = go (p t) refl a (All-select_inv P p ts)
    where
      go :
          (b : Bool)
          → p t ≡ b
          → All P (if b then t ∷ select p ts else select p ts)
          → (All P (select p ts) → All (λ u. p u ≡ true → P u) ts)
          → (p t ≡ true → P t) × All (λ u. p u ≡ true → P u) ts
      go true e h r = ((λ q. h.0), r h.1)
      go false e h r = ((λ q. cc), r h)

  All-select :
      (P : Transition C → Type 0) (p : Transition C → Bool) (ts : List (Transition C))
      → All P ts
      → All (λ u. p u ≡ true × P u) (select p ts)
  All-select P p [] a = tt
  All-select P p (t ∷ ts) a = go (p t) refl (All-select P p ts a.1)
    where
      go :
          (b : Bool)
          → p t ≡ b
          → All (λ u. p u ≡ true × P u) (select p ts)
          → All (λ u. p u ≡ true × P u) (if b then t ∷ select p ts else select p ts)
      go true e h = ((e, a.0), h)
      go false e h = h

  insert-Descends :
      (t : Transition C) (ts : List (Transition C))
      → Descends ts
      → Descends (insert_by_priority t ts)
  unfolding insert_by_priority
  insert-Descends t [] d = (tt, tt)
  insert-Descends t (u ∷ us) d = go (leb u.priority t.priority) refl (insert-Descends t us d.1)
    where
      go :
          (b : Bool)
          → leb u.priority t.priority ≡ b
          → Descends (insert_by_priority t us)
          → Descends (if b then t ∷ u ∷ us else u ∷ insert_by_priority t us)
      go true e h = (
        (
          grind arith,
          All-map (λ v. v.priority ≤ u.priority) (λ v. v.priority ≤ t.priority) us
              (λ v l. grind arith) d.0,
        ),
        d,
      )
      go false e h = (All-insert (λ v. v.priority ≤ u.priority) t us (grind arith) d.0, h)

  sort-Descends : (ts : List (Transition C)) → Descends (sort_by_priority ts)
  unfolding sort_by_priority
  sort-Descends [] = tt
  sort-Descends (t ∷ ts) = insert-Descends t (sort_by_priority ts) (sort-Descends ts)

  first_allowed-Descends :
      (c : C) (ts : List (Transition C)) (t : Transition C)
      → Descends ts
      → first_allowed c ts ≡ some t
      → is_allowed t c ≡ true × All (λ u. is_allowed u c ≡ true → u.priority ≤ t.priority) ts
  unfolding first_allowed
  first_allowed-Descends c [] t d h = cc
  first_allowed-Descends c (u ∷ us) t d h =
      go (is_allowed u c) refl h (first_allowed-Descends c us t d.1)
    where
      go :
          (b : Bool)
          → is_allowed u c ≡ b
          → (if b then some u else first_allowed c us) ≡ some t
          → (first_allowed c us ≡ some t
              → is_allowed t c ≡ true
                × All (λ u. is_allowed u c ≡ true → u.priority ≤ t.priority) us)
          → is_allowed t c ≡ true
            × All (λ u. is_allowed u c ≡ true → u.priority ≤ t.priority) (u ∷ us)
      go true e q r =
          subst
            (λ v.
              is_allowed v c ≡ true
              × All (λ w. is_allowed w c ≡ true → w.priority ≤ v.priority) (u ∷ us))
            (some-injective u t q)
            (
              e,
              (
                (λ i. omega arith),
                All-map (λ v. v.priority ≤ u.priority)
                    (λ w. is_allowed w c ≡ true → w.priority ≤ u.priority) us (λ w l i. l) d.0,
              ),
            )
      go false e q r = let (x, y) = r q in (x, ((λ i. cc), y))

  first_allowed-All :
      (P : Transition C → Type 0) (c : C) (ts : List (Transition C)) (t : Transition C)
      → All P ts
      → first_allowed c ts ≡ some t
      → P t
  unfolding first_allowed
  first_allowed-All P c [] t a h = cc
  first_allowed-All P c (u ∷ us) t a h = go (is_allowed u c) h (first_allowed-All P c us t a.1)
    where
      go :
          (b : Bool)
          → (if b then some u else first_allowed c us) ≡ some t
          → (first_allowed c us ≡ some t → P t)
          → P t
      go true q r = subst P (some-injective u t q) a.0
      go false q r = r q

  All-Memᴰ : (ts : List (Transition C)) → All (λ u. Memᴰ u ts) ts
  All-Memᴰ [] = tt
  All-Memᴰ (t ∷ ts) = (
    Memᴰ.head refl,
    All-map (λ u. Memᴰ u ts) (λ u. Memᴰ u (t ∷ ts)) ts (λ u i. Memᴰ.tail i) (All-Memᴰ ts),
  )

  -- Whether the transition starts in the machine's state and carries the event.
  abbrev is_candidate : String → Machine C → Transition C → Bool
  is_candidate event m t = t.source == m.current && t.event == event

  -- The transition a machine must take: one of its own, for the event in its state, that its guard
  -- allows, and no allowed one has a higher priority.
  abbrev Takes : String → C → Machine C → Transition C → Type 0
  Takes event c m t =
      Memᴰ t m.transitions
      × (is_candidate event m t ≡ true)
      × (is_allowed t c ≡ true)
      × All (λ u. is_candidate event m u ≡ true → is_allowed u c ≡ true → u.priority ≤ t.priority)
          m.transitions

  first_allowed-Takes :
      (event : String) (c : C) (m : Machine C) (t : Transition C)
      → first_allowed c (sort_by_priority (candidates event m)) ≡ some t
      → Takes event c m t
  unfolding candidates
  first_allowed-Takes event c m t h =
      let ts = sort_by_priority (candidates event m) in
      let p = is_candidate event m in
      let (i, j) =
        first_allowed-All (λ u. p u ≡ true × Memᴰ u m.transitions) c ts t
          (All-sort (λ u. p u ≡ true × Memᴰ u m.transitions) (candidates event m)
            (All-select (λ u. Memᴰ u m.transitions) p m.transitions (All-Memᴰ m.transitions)))
          h in
      let (a, b) = first_allowed-Descends c ts t (sort-Descends (candidates event m)) h in
      (
        j,
        i,
        a,
        All-select_inv (λ u. is_allowed u c ≡ true → u.priority ≤ t.priority) p m.transitions
            (All-sort_inv (λ u. is_allowed u c ≡ true → u.priority ≤ t.priority)
              (candidates event m) b),
      )

  -- What a call of `trigger` does: it moves along a transition `Takes` describes to that transition's
  -- target and records the step at the end of the history, its states and transitions unchanged; or
  -- it refuses because the state is terminal, because no transition is a candidate, or because the
  -- guards block all of them.
  abbrev pub Triggered : String → C → Machine C → Outcome C → Type 0
  Triggered event c m (moved m' c') =
      (in_terminal m ≡ false)
      × (t : Transition C) × Takes event c m t
      × (m'.current ≡ t.target)
      × (m'.history
          ≡ m.history ++ record { from_state = m.current; to_state = t.target; event = event } ∷ [])
      × (m'.states ≡ m.states)
      × (m'.transitions ≡ m.transitions)
  Triggered event c m (refused terminal) = in_terminal m ≡ true
  Triggered event c m (refused no_transition) =
      (in_terminal m ≡ false) × All (λ u. is_candidate event m u ≡ false) m.transitions
  Triggered event c m (refused guards_blocked) =
      (in_terminal m ≡ false)
      × All (λ u. is_candidate event m u ≡ true → is_allowed u c ≡ false) m.transitions

  All-none :
      (p : Transition C → Bool) (ts : List (Transition C))
      → is_empty (select p ts) ≡ true
      → All (λ u. p u ≡ false) ts
  All-none p [] h = tt
  All-none p (t ∷ ts) h = go (p t) refl h (All-none p ts)
    where
      go :
          (b : Bool)
          → p t ≡ b
          → is_empty (if b then t ∷ select p ts else select p ts) ≡ true
          → (is_empty (select p ts) ≡ true → All (λ u. p u ≡ false) ts)
          → (p t ≡ false) × All (λ u. p u ≡ false) ts
      go true e h r = cc
      go false e h r = (e, r h)

  first_allowed-none :
      (c : C) (ts : List (Transition C))
      → first_allowed c ts ≡ none
      → All (λ u. is_allowed u c ≡ false) ts
  unfolding first_allowed
  first_allowed-none c [] h = tt
  first_allowed-none c (t ∷ ts) h = go (is_allowed t c) refl h (first_allowed-none c ts)
    where
      go :
          (b : Bool)
          → is_allowed t c ≡ b
          → (if b then some t else first_allowed c ts) ≡ none
          → (first_allowed c ts ≡ none → All (λ u. is_allowed u c ≡ false) ts)
          → (is_allowed t c ≡ false) × All (λ u. is_allowed u c ≡ false) ts
      go true e h r = cc
      go false e h r = (e, r h)

  event-candidate :
      (event : String) (m : Machine C) (t : Transition C)
      → is_candidate event m t ≡ true
      → t.event ≡ event
  event-candidate event m t h = ground (arith, ==_iff t.event event)

  trigger_from-Triggered :
      (event : String) (c : C) (m : Machine C) (o : Option (Transition C))
      → in_terminal m ≡ false
      → first_allowed c (sort_by_priority (candidates event m)) ≡ o
      → Triggered event c m (trigger_from o c m)
  unfolding trigger_from execute_transition candidates
  trigger_from-Triggered event c m none k h = (
    k,
    All-select_inv (λ u. is_allowed u c ≡ false) (is_candidate event m) m.transitions
        (All-sort_inv (λ u. is_allowed u c ≡ false) (candidates event m)
          (first_allowed-none c (sort_by_priority (candidates event m)) h)),
  )
  trigger_from-Triggered event c m (some t) k h =
      let e = first_allowed-Takes event c m t h in
      (
        k,
        t,
        e,
        refl,
        ap
            (λ x.
              m.history ++ record { from_state = m.current; to_state = t.target; event = x } ∷ [])
            (event-candidate event m t e.1),
        refl,
        refl,
      )

  -- A call of `trigger` that moves is not in a terminal state and follows one of the machine's
  -- transitions for the event in that state whose guard allows it and that no allowed one exceeds in
  -- priority: the machine goes to its target, the history grows by this step, and the states and the
  -- transitions stay. A call that refuses is in a terminal state, or has no such transition, or has
  -- only ones that their guards block, as its error says.
  pub trigger-Triggered :
      (event : String) (c : C) (m : Machine C) → Triggered event c m (trigger event c m)
  unfolding trigger candidates
  trigger-Triggered event c m = go (in_terminal m) (is_empty (candidates event m)) refl refl
    where
      go :
          (b d : Bool)
          → in_terminal m ≡ b
          → is_empty (candidates event m) ≡ d
          → Triggered event c m (
              if b
              then refused terminal
              else if d
              then refused no_transition
              else trigger_from (first_allowed c (sort_by_priority (candidates event m))) c m)
      go true d h k = h
      go false true h k = (h, All-none (is_candidate event m) m.transitions k)
      go false false h k =
          trigger_from-Triggered event c m (first_allowed c (sort_by_priority (candidates event m)))
            h refl
