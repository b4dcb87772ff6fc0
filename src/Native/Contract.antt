-- ===== src/Native/Contract.antt =====
-- With thinking enabled, the policy keeps the stream contract.
use vega_claude.Prelude.{
  ◌≡◌, refl, sym, get, ap, ◌∙◌, subst, String, none, some, Bool, true, false, List, [], ◌∷◌, ◌++◌,
  is_empty, arith,
}
use vega_claude.Prelude.Int.{ℤ, pos, int_eq}
use vega_claude.Sse.Event.{
  Event, Block, message_start, message_delta, message_stop, content_block_start,
  content_block_delta, content_block_stop, error, other, is_message_stop,
}
use vega_claude.Sse.Contract.{
  Checker, Result, ok, fails, ◌>>=◌, storage, fresh_checker, check_event, check_events, check_start,
  assert_stream_contract, has_message_start, ends_with_stop,
}
use vega_claude.Sse.Seen.{seen_after}
use vega_claude.Sse.Message.{ends_with_stop-append}
use vega_claude.Sse.Sync.{is_empty-add}
use vega_claude.Sse.Sync.Ran.{check_events-append, contract_of_check}
use vega_claude.Native.Policy.{
  PolicyState, new_policy, block_type, should_drop_block_type, synthetic_close_other_open_blocks,
  allocate_new_segment, transform_start, transform, transform_all,
}
use vega_claude.Native.InStep.{InStep}
use vega_claude.Native.Laws.{transform-Stepped, transform_all-Stepped, new-InStep, nothing_left}
use vega_claude.Native.Inverse.{
  result-injective, start-inverse, stop-inverse, delta-inverse, no_delta, checked_cons,
  contract-inverse,
}

-- A stream that ends with a start has seen a block.
seen_of_start :
    (allow : Bool) (d d' : Checker) (xs : List Event) (i : ℤ) (block : Block)
    → check_events allow d (xs ++ content_block_start (some i) (some block) ∷ []) ≡ ok d'
    → is_empty d'.seen_blocks ≡ false
unfolding check_events check_event
seen_of_start allow d d' xs i block e = go (check_events allow d xs) (
    subst (λ r. r ≡ ok d')
      (check_events-append allow d xs (content_block_start (some i) (some block) ∷ [])) e)
  where
    last :
        (r : Result Checker) (d1 : Checker)
        → check_start d1 i (storage (some block)) ≡ r
        → (r >>= λ z. ok z) ≡ ok d'
        → is_empty d'.seen_blocks ≡ false
    last (fails v) d1 q p = cc
    last (ok d2) d1 q p =
        let (kind, same, unseen, w) = start-inverse d1 d2 i (storage (some block)) q in
        subst (λ z. is_empty z.seen_blocks ≡ false) (w ∙ result-injective d2 d' p)
          (is_empty-add i d1.seen_blocks)

    go :
        (r : Result Checker)
        → (r >>= λ z. check_events allow z (content_block_start (some i) (some block) ∷ [])) ≡ ok d'
        → is_empty d'.seen_blocks ≡ false
    go (fails v) q = cc
    go (ok d1) q = last (check_start d1 i (storage (some block))) d1 refl q

never_dropped : (t : String) → should_drop_block_type true t ≡ false
unfolding should_drop_block_type
never_dropped t = ground arith

has_message_start-append :
    (xs ys : List Event) → has_message_start ys ≡ true → has_message_start (xs ++ ys) ≡ true
has_message_start-append [] ys h = h
has_message_start-append (x ∷ xs) ys h = ground (arith, has_message_start-append xs ys h)

is_start : Event → Bool
is_start (content_block_start i b) = true
is_start _ = false

-- Only a start adds to the blocks seen.
seen_same :
    (allow : Bool) (c c' : Checker) (e : Event)
    → is_start e ≡ false
    → check_event allow c e ≡ ok c'
    → c'.seen_blocks ≡ c.seen_blocks
unfolding check_event is_start
seen_same allow c c' (content_block_start i b) n e = cc
seen_same allow c c' (content_block_delta (some i) (some x)) n e =
    let (kind, open_up, fits, q) = delta-inverse c c' i x (get i c.open_blocks) e in
    ap (λ z. z.seen_blocks) (sym q)
seen_same allow c c' (content_block_delta (some i) none) n e =
    absurd (no_delta c c' (get i c.open_blocks) e)
seen_same allow c c' (content_block_delta none x) n e = cc
seen_same allow c c' (content_block_stop (some i)) n e =
    let (kind, open_up, q) = stop-inverse c c' i e in ap (λ z. z.seen_blocks) (sym q)
seen_same allow c c' (content_block_stop none) n e = cc
seen_same true c c' (error m) n e = ap (λ z. z.seen_blocks) (sym (result-injective c c' e))
seen_same false c c' (error m) n e = cc
seen_same allow c c' (message_start a b x) n e =
    ap (λ z. z.seen_blocks) (sym (result-injective c c' e))
seen_same allow c c' (message_delta a b x) n e =
    ap (λ z. z.seen_blocks) (sym (result-injective c c' e))
seen_same allow c c' message_stop n e = ap (λ z. z.seen_blocks) (sym (result-injective c c' e))
seen_same allow c c' (other t) n e = ap (λ z. z.seen_blocks) (sym (result-injective c c' e))

module _ (decimal : ℤ → String) where
  start_kept :
      (es : List Event) (s : PolicyState)
      → has_message_start es ≡ true
      → has_message_start (transform_all decimal true es s).0 ≡ true
  unfolding transform_all transform
  start_kept [] s h = cc
  start_kept (message_start a b n ∷ es) s h = refl
  start_kept (content_block_start i b ∷ es) s h =
      has_message_start-append (transform decimal true (content_block_start i b) s).0 _
        (start_kept es _ h)
  start_kept (content_block_delta i b ∷ es) s h =
      has_message_start-append (transform decimal true (content_block_delta i b) s).0 _
        (start_kept es _ h)
  start_kept (content_block_stop i ∷ es) s h =
      has_message_start-append (transform decimal true (content_block_stop i) s).0 _
        (start_kept es _ h)
  start_kept (message_delta a b n ∷ es) s h = start_kept es s h
  start_kept (message_stop ∷ es) s h = start_kept es s h
  start_kept (error m ∷ es) s h = start_kept es s h
  start_kept (other t ∷ es) s h = start_kept es s h

  nonempty_of_stop : (es : List Event) → ends_with_stop es ≡ true → is_empty es ≡ false
  nonempty_of_stop [] h = cc
  nonempty_of_stop (e ∷ es) h = refl

  stop_passed :
      (e : Event) (s : PolicyState)
      → is_message_stop e ≡ true
      → ends_with_stop ((transform decimal true e s).0 ++ []) ≡ true
  unfolding transform
  stop_passed message_stop s h = refl
  stop_passed (message_start a b n) s h = cc
  stop_passed (message_delta a b n) s h = cc
  stop_passed (content_block_start a b) s h = cc
  stop_passed (content_block_delta a b) s h = cc
  stop_passed (content_block_stop a) s h = cc
  stop_passed (error a) s h = cc
  stop_passed (other a) s h = cc

  stop_kept :
      (es : List Event) (s : PolicyState)
      → ends_with_stop es ≡ true
      → ends_with_stop (transform_all decimal true es s).0 ≡ true
  unfolding transform_all
  stop_kept [] s h = cc
  stop_kept (e ∷ []) s h = stop_passed e s h
  stop_kept (e ∷ e' ∷ es) s h =
      let rest = stop_kept (e' ∷ es) (transform decimal true e s).1 h in
      ends_with_stop-append (transform decimal true e s).0 _ (nonempty_of_stop _ rest) rest

  start_seen :
      (allow : Bool) (i : ℤ) (block : Block) (s : PolicyState) (d d' : Checker)
      → check_events allow d (transform_start decimal true i block s).0 ≡ ok d'
      → is_empty d'.seen_blocks ≡ false
  unfolding transform_start synthetic_close_other_open_blocks allocate_new_segment
  start_seen allow i block s d d' e =
      let r = synthetic_close_other_open_blocks i s in
      seen_of_start allow d d' r.0 (pos r.1.next_index) block
        (rw (never_dropped (block_type block)) at e)

  same :
      (allow : Bool) (e : Event) (s : PolicyState) (c c' d d' : Checker)
      → (is_empty c.seen_blocks ≡ false → is_empty d.seen_blocks ≡ false)
      → is_start e ≡ false
      → check_event allow c e ≡ ok c'
      → check_events allow d (transform decimal true e s).0 ≡ ok d'
      → is_empty c'.seen_blocks ≡ false
      → is_empty d'.seen_blocks ≡ false
  same allow e s c c' d d' h i p q n =
      seen_after allow d d' (transform decimal true e s).0 q
        (h (subst (λ z. is_empty z ≡ false) (seen_same allow c c' e i p) n))

  step_seen :
      (allow : Bool) (e : Event) (s : PolicyState) (c c' d d' : Checker)
      → (is_empty c.seen_blocks ≡ false → is_empty d.seen_blocks ≡ false)
      → check_event allow c e ≡ ok c'
      → check_events allow d (transform decimal true e s).0 ≡ ok d'
      → is_empty c'.seen_blocks ≡ false
      → is_empty d'.seen_blocks ≡ false
  unfolding transform check_event storage check_start is_start
  step_seen allow (content_block_start (some i) (some b)) s c c' d d' h e q n =
      start_seen allow i b s d d' q
  step_seen allow (content_block_start (some i) none) s c c' d d' h e q n = cc
  step_seen allow (content_block_start none b) s c c' d d' h e q n = cc
  step_seen allow (content_block_delta i x) s c c' d d' h e q n =
      same allow (content_block_delta i x) s c c' d d' h refl e q n
  step_seen allow (content_block_stop i) s c c' d d' h e q n =
      same allow (content_block_stop i) s c c' d d' h refl e q n
  step_seen allow (error m) s c c' d d' h e q n = same allow (error m) s c c' d d' h refl e q n
  step_seen allow (message_start a b x) s c c' d d' h e q n =
      same allow (message_start a b x) s c c' d d' h refl e q n
  step_seen allow (message_delta a b x) s c c' d d' h e q n =
      same allow (message_delta a b x) s c c' d d' h refl e q n
  step_seen allow message_stop s c c' d d' h e q n =
      same allow message_stop s c c' d d' h refl e q n
  step_seen allow (other t) s c c' d d' h e q n = same allow (other t) s c c' d d' h refl e q n

  contract_seen :
      (allow : Bool) (es : List Event) (s : PolicyState) (c c' d d' : Checker)
      → InStep c s d
      → (is_empty c.seen_blocks ≡ false → is_empty d.seen_blocks ≡ false)
      → check_events allow c es ≡ ok c'
      → check_events allow d (transform_all decimal true es s).0 ≡ ok d'
      → is_empty c'.seen_blocks ≡ false
      → is_empty d'.seen_blocks ≡ false
  unfolding transform_all check_events
  contract_seen allow [] s c c' d d' h k e q n =
      subst (λ z. is_empty z.seen_blocks ≡ false) (result-injective d d' q)
        (k (subst (λ z. is_empty z.seen_blocks ≡ false) (sym (result-injective c c' e)) n))
  contract_seen allow (x ∷ es) s c c' d d' h k e q n =
      let (c1, r, p) = checked_cons allow c c' x es e in
      let t = transform-Stepped allow decimal true x s c c1 d h r in
      let out = transform decimal true x s in
      contract_seen allow es out.1 c1 c' t.checker d' t.in_step
        (step_seen allow x s c c1 d t.checker k r t.accepted) p
        (subst
          (λ z. (z >>= λ y. check_events allow y (transform_all decimal true es out.1).0) ≡ ok d')
          t.accepted
          (subst (λ z. z ≡ ok d')
            (check_events-append allow d out.0 (transform_all decimal true es out.1).0) q))
        n

-- With thinking enabled, what the policy makes of a stream that meets the contract meets it too,
-- with error events allowed or not.
pub policy_keeps_contract :
    (allow : Bool) (decimal : ℤ → String) (es : List Event)
    → assert_stream_contract allow es ≡ ok tt
    → assert_stream_contract allow (transform_all decimal true es new_policy).0 ≡ ok tt
policy_keeps_contract allow decimal es h =
    let m = contract-inverse allow es h in
    let t =
      transform_all-Stepped allow decimal true es new_policy fresh_checker m.checker fresh_checker
        new-InStep m.accepted in
    let stops = stop_kept decimal es new_policy m.stopped in
    contract_of_check allow (transform_all decimal true es new_policy).0 t.checker
      (nonempty_of_stop decimal _ stops) (start_kept decimal es new_policy m.started) stops
      t.accepted (nothing_left t.in_step m.empty)
      (contract_seen decimal allow es new_policy fresh_checker m.checker fresh_checker t.checker
        new-InStep (λ n. n) m.accepted t.accepted m.seen)

-- In either mode, if the contract's loop accepts a stream and it leaves no block open, the loop
-- accepts what the policy makes of it, and that leaves none open.
pub policy_accepted :
    (allow : Bool) (decimal : ℤ → String) (thinking_enabled : Bool) (es : List Event) (c : Checker)
    → check_events allow fresh_checker es ≡ ok c
    → c.open_blocks ≡ []
    → (d : Checker) × (check_events allow fresh_checker
          (transform_all decimal thinking_enabled es new_policy).0
        ≡ ok d)
      × (d.open_blocks ≡ [])
policy_accepted allow decimal thinking_enabled es c h e =
    let t =
      transform_all-Stepped allow decimal thinking_enabled es new_policy fresh_checker c
        fresh_checker new-InStep h in
    (t.checker, t.accepted, nothing_left t.in_step e)
