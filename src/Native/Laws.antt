-- ===== src/Native/Laws.antt =====
-- The policy on a whole stream that the contract's loop accepts.
use vega_claude.Prelude.{
  ◌≡◌, refl, ap, ◌∙◌, subst, String, Option, none, some, Bool, true, false, List, [], ◌∷◌, get, has,
  has-get, nil_of_get-none, arith,
}
use vega_claude.Prelude.Int.{ℤ, int_eq}
use vega_claude.Sse.Event.{
  Event, message_start, message_delta, message_stop, content_block_start, content_block_delta,
  content_block_stop, error, other,
}
use vega_claude.Sse.Contract.{
  Checker, Kind, ok, storage, fresh_checker, check_event, check_events, check_start, check_delta,
  check_delta_at,
}
use vega_claude.Sse.Sync.Ran.{check_events-append}
use vega_claude.Native.Policy.{PolicyState, new_policy, transform, transform_all}
use vega_claude.Native.CloseOthers.{open_in}
use vega_claude.Native.InStep.{InStep, Stepped, silent}
use vega_claude.Native.Starts.{transform_start-Stepped}
use vega_claude.Native.Stops.{transform_stop-Stepped}
use vega_claude.Native.Deltas.{transform_delta-Stepped}
use vega_claude.Native.Inverse.{result-injective, no_delta, checked_cons}

-- An event that is passed on and changes neither checker.
passed :
    (allow : Bool) (e : Event) (s : PolicyState) (c c' d : Checker)
    → InStep c s d
    → check_event allow d e ≡ ok d
    → c ≡ c'
    → Stepped allow c' (e ∷ []) s d
unfolding check_events
passed allow e s c c' d h a same =
    subst (λ x. Stepped allow x (e ∷ []) s d) same
      (record { checker = d; accepted = rw a refl; in_step = h })

passed_error :
    (allow : Bool) (m : String) (s : PolicyState) (c c' d : Checker)
    → InStep c s d
    → check_event allow c (error m) ≡ ok c'
    → Stepped allow c' (error m ∷ []) s d
unfolding check_event
passed_error true m s c c' d h e = passed true (error m) s c c' d h refl (result-injective c c' e)
passed_error false m s c c' d h e = cc

pub transform-Stepped :
    (allow : Bool) (decimal : ℤ → String) (thinking_enabled : Bool) (e : Event) (s : PolicyState)
    (c c' d : Checker)
    → InStep c s d
    → check_event allow c e ≡ ok c'
    → let r = transform decimal thinking_enabled e s in Stepped allow c' r.0 r.1 d
unfolding transform check_event storage check_start check_delta_at check_delta
transform-Stepped allow decimal on (content_block_start (some i) (some block)) s c c' d h e =
    transform_start-Stepped allow decimal on i block s c c' d h e
transform-Stepped allow decimal on (content_block_start (some i) none) s c c' d h e = cc
transform-Stepped allow decimal on (content_block_start none b) s c c' d h e = cc
transform-Stepped allow decimal on (content_block_delta (some i) (some delta)) s c c' d h e =
    transform_delta-Stepped allow decimal on i delta s c c' d h e
transform-Stepped allow decimal on (content_block_delta (some i) none) s c c' d h e =
    absurd (no_delta c c' (get i c.open_blocks) e)
transform-Stepped allow decimal on (content_block_delta none b) s c c' d h e = cc
transform-Stepped allow decimal on (content_block_stop (some i)) s c c' d h e =
    transform_stop-Stepped allow decimal on i s c c' d h e
transform-Stepped allow decimal on (content_block_stop none) s c c' d h e = cc
transform-Stepped allow decimal on (error m) s c c' d h e = passed_error allow m s c c' d h e
transform-Stepped allow decimal on (message_start a b n) s c c' d h e =
    passed allow _ s c c' d h refl (result-injective c c' e)
transform-Stepped allow decimal on (message_delta a b n) s c c' d h e =
    passed allow _ s c c' d h refl (result-injective c c' e)
transform-Stepped allow decimal on message_stop s c c' d h e =
    passed allow _ s c c' d h refl (result-injective c c' e)
transform-Stepped allow decimal on (other t) s c c' d h e =
    passed allow _ s c c' d h refl (result-injective c c' e)

pub transform_all-Stepped :
    (allow : Bool) (decimal : ℤ → String) (thinking_enabled : Bool) (es : List Event)
    (s : PolicyState) (c c' d : Checker)
    → InStep c s d
    → check_events allow c es ≡ ok c'
    → let r = transform_all decimal thinking_enabled es s in Stepped allow c' r.0 r.1 d
unfolding transform_all check_events
transform_all-Stepped allow decimal on [] s c c' d h e =
    subst (λ x. Stepped allow x [] s d) (result-injective c c' e) (silent h)
transform_all-Stepped allow decimal on (x ∷ es) s c c' d h e =
    let (c1, q, p) = checked_cons allow c c' x es e in
    let t = transform-Stepped allow decimal on x s c c1 d h q in
    let out = transform decimal on x s in
    let rest = transform_all-Stepped allow decimal on es out.1 c1 c' t.checker t.in_step p in
    record {
      checker = rest.checker;
      accepted =
          rw (check_events-append allow d out.0 (transform_all decimal on es out.1).0)
            (rw t.accepted rest.accepted);
      in_step = rest.in_step;
    }

-- No block is known.
pub new-InStep : InStep fresh_checker new_policy fresh_checker
new-InStep = record {
  placed = λ i k e x. cc;
  live = λ i e. cc;
  fresh = λ i e. (refl, refl, refl);
  owned = λ k e. absurd cc;
  alone = λ i j x y e e' o o' q. absurd cc;
  below = λ i x e. absurd cc;
  seen_below = λ k e. absurd cc;
  distinct = tt;
}

-- Nothing is open downstream once nothing is open upstream.
pub nothing_left :
    {c d : Checker} {s : PolicyState} → InStep c s d → c.open_blocks ≡ [] → d.open_blocks ≡ []
nothing_left {c} {d} {s} h e = nil_of_get-none d.open_blocks (λ k. go k (get k d.open_blocks) refl)
  where
    go : (k : ℤ) (o : Option Kind) → get k d.open_blocks ≡ o → o ≡ none
    go k none q = refl
    go k (some x) q =
        let (j, y, w, o, p) = h.owned k (ground (arith, has-get k d.open_blocks)) in
        (let r = subst (λ z. has j z ≡ true) e (h.live j (ap open_in w ∙ o)).0 in cc)
