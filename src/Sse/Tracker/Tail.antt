-- ===== src/Sse/Tracker/Tail.antt =====
-- The tail that the tracker writes after a broken stream completes it to a valid one.
use vega_claude.Prelude.{
  ℕ, ◌≡◌, refl, sym, ◌∙◌, subst, ap, String, some, Bool, true, false, List, [], ◌∷◌, ◌++◌, get, has,
  has-get, has-remove, nil_of_get-none, contains, is_empty, arith, ==_iff, ==_refl,
}
use vega_claude.Prelude.Int.{ℤ, pos, negsuc, int_eq, next_int, to_nat}
use vega_claude.Sse.Event.{Event}
use vega_claude.Sse.Builder.{SseBuilder, emit_error, emit_message_delta, emit_message_stop}
use vega_claude.Sse.Contract.{
  Checker, fresh_checker, Result, ok, fails, ◌>>=◌, check_event, check_events, has_message_start,
  ends_with_stop, assert_stream_contract,
}
use vega_claude.Sse.Sync.{Sync, Below, live, tools_live, closed}
use vega_claude.Sse.Sync.Ran.{check_events-append, contract_of_check}
use vega_claude.Sse.Sync.Whole.{emit_error-Ran}
use vega_claude.Sse.Message.{is_empty-append, ends_with_stop-append}
use vega_claude.Sse.Tracker.{
  Tracker, new_tracker, observe_all, next_content_index, close_unclosed_blocks, tail_builder,
  broken_stream_tail, midstream_error_tail,
}
use vega_claude.Sse.Tracker.Tracks.{Tracks, observe-Observed, new-Tracks, Distinct, UpTo}

record Followed (t : Tracker) (c' : Checker) (es : List Event) : Type 0 where
  after : Tracker
  observed : observe_all t es ≡ some after
  tracks : Tracks after c'

>>=-eq-ok :
    {A B : Type 0} (r : Result A) (f : A → Result B) {b : B}
    → (r >>= f) ≡ ok b
    → (a : A) × (r ≡ ok a) × (f a ≡ ok b)
>>=-eq-ok (ok a) f h = (a, refl, h)
>>=-eq-ok (fails v) f h = cc

observe_all-Followed :
    (allow : Bool) (t : Tracker) (c c' : Checker) (es : List Event)
    → Tracks t c
    → check_events allow c es ≡ ok c'
    → Followed t c' es
unfolding observe_all check_events
observe_all-Followed allow t c c' [] h e =
    subst (λ x. Followed t x []) (ground arith) (record { after = t; observed = refl; tracks = h })
observe_all-Followed allow t c c' (x ∷ es) h e =
    let (d, one, rest) = >>=-eq-ok (check_event allow c x) (λ d. check_events allow d es) e in
    let o = observe-Observed allow t c d h x one in
    let f = observe_all-Followed allow o.after d c' es o.tracks rest in
    record {
      after = f.after;
      observed = rw (o.observed, observe_all) f.observed;
      tracks = f.tracks;
    }

-- Stopping all of the stack leaves nothing open.
close_unclosed-check :
    (allow : Bool) (stack : List ℤ) (c : Checker)
    → Distinct stack
    → ((k : ℤ) → contains k stack ≡ has k c.open_blocks)
    → (c' : Checker) × (check_events allow c (close_unclosed_blocks stack) ≡ ok c')
      × (c'.open_blocks ≡ [])
      × (c'.seen_blocks ≡ c.seen_blocks)
unfolding close_unclosed_blocks check_events check_event
close_unclosed-check allow [] c d h = (
  c,
  refl,
  nil_of_get-none c.open_blocks (λ k. ground (arith, h k, has-get k c.open_blocks)),
  refl,
)
close_unclosed-check allow (i ∷ stack) c d h =
    let (c', accepted, empty, seen) =
      close_unclosed-check allow stack (closed c i) d.1
        (λ k. ground (arith, h k, has-remove i k c.open_blocks, ==_iff i k)) in
    (c', rw (sym (h i)) (rw (==_refl i) accepted), empty, seen)

UpTo-Below : (k m : ℤ) → UpTo k m → Below (to_nat (next_int m)) k
UpTo-Below (pos n) m h = h
UpTo-Below (negsuc n) m h = tt

-- Once nothing is open, the tail's builder and the checker are in step.
tail-Sync :
    (t : Tracker) (c c' : Checker) (fallback_id request_model : String) (input_tokens : ℕ)
    → Tracks t c
    → c'.open_blocks ≡ []
    → c'.seen_blocks ≡ c.seen_blocks
    → Sync (tail_builder t fallback_id request_model input_tokens).blocks c'
unfolding tail_builder next_content_index live tools_live
tail-Sync t c c' fallback_id request_model input_tokens h empty seen = record {
  agree = λ k. rw empty;
  live_distinct = tt;
  live_below = λ k q. cc;
  seen_below = λ k q. UpTo-Below k t.max_index (h.bound k (rw seen at q));
  tools_distinct = tt;
  seen_any = λ q. rw seen (h.seen_any q);
  live_any = λ k q. cc;
  text_any = λ q. absurd (q refl);
  thinking_any = λ q. absurd (q refl);
}

-- The text up to the end of the error block is accepted, and nothing is open behind it.
record Ended (allow : Bool) (c : Checker) (es : List Event) : Type 0 where
  checker : Checker
  accepted : check_events allow c es ≡ ok checker
  empty : checker.open_blocks ≡ []
  seen : is_empty checker.seen_blocks ≡ false

error-Ended :
    (allow : Bool) (s : SseBuilder) (c : Checker) (message : String) (n : ℕ)
    → Sync s.blocks c
    → s.blocks.next_index ≡ n
    → live s.blocks ≡ []
    → Ended allow c (emit_error message s).events
unfolding emit_error live
error-Ended allow s c message n h e nothing =
    let r = emit_error-Ran allow message s c h in
    record {
      checker = r.checker;
      accepted = r.accepted;
      empty = nil_of_get-none r.checker.open_blocks (λ k. r.sync.agree k ∙ ap (get k) nothing);
      seen = r.sync.seen_any (omega arith);
    }

module _ (allow : Bool) (t : Tracker) (c : Checker) (h : Tracks t c)
    (error_message fallback_id request_model : String) (input_tokens : ℕ) where
  tail-Ended :
      Ended allow c (broken_stream_tail t error_message fallback_id request_model input_tokens)
  unfolding broken_stream_tail midstream_error_tail emit_message_delta emit_message_stop
      check_events check_event live tools_live
  tail-Ended =
      let (c', accepted, empty, seen) =
        close_unclosed-check allow t.open_stack c h.distinct h.stack in
      let s = tail_builder t fallback_id request_model input_tokens in
      let q =
        error-Ended allow s c' error_message s.blocks.next_index
          (tail-Sync t c c' fallback_id request_model input_tokens h empty seen) refl refl in
      record {
        checker = q.checker;
        accepted = rw (check_events-append allow c (close_unclosed_blocks t.open_stack) _) (
            rw accepted (
              rw (check_events-append allow c' (emit_error error_message s).events _)
                (rw q.accepted)));
        empty = q.empty;
        seen = q.seen;
      }

has_message_start-append :
    (xs ys : List Event) → has_message_start xs ≡ true → has_message_start (xs ++ ys) ≡ true
has_message_start-append [] ys h = cc
has_message_start-append (x ∷ xs) ys h = ground (arith, has_message_start-append xs ys)

not_empty_of_start : (xs : List Event) → has_message_start xs ≡ true → is_empty xs ≡ false
not_empty_of_start [] h = cc
not_empty_of_start (x ∷ xs) h = refl

module _ (t : Tracker) (error_message fallback_id request_model : String) (input_tokens : ℕ) where
  tail_ends :
      let tail = broken_stream_tail t error_message fallback_id request_model input_tokens in
      (is_empty tail ≡ false) × (ends_with_stop tail ≡ true)
  unfolding broken_stream_tail midstream_error_tail emit_message_delta emit_message_stop emit_error
  tail_ends = (
    is_empty-append (close_unclosed_blocks t.open_stack) _ refl,
    ends_with_stop-append (close_unclosed_blocks t.open_stack) _ refl refl,
  )

-- If the events emitted so far start a message and pass the checks of the stream contract, blocks
-- open or not, then the tracker that observed them raises no AssertionError, and what a provider
-- yields when the stream breaks off there, closing stops, an error block, `message_delta` and
-- `message_stop`, makes the whole stream meet the contract.
pub midstream_tail_contract :
    (allow : Bool) (es : List Event) (c : Checker)
    (error_message fallback_id request_model : String) (input_tokens : ℕ)
    → has_message_start es ≡ true
    → check_events allow fresh_checker es ≡ ok c
    → (t : Tracker) × (observe_all new_tracker es ≡ some t)
      × (assert_stream_contract allow
            (es ++ broken_stream_tail t error_message fallback_id request_model input_tokens)
          ≡ ok tt)
midstream_tail_contract allow es c error_message fallback_id request_model input_tokens start e =
    let f = observe_all-Followed allow new_tracker fresh_checker c es new-Tracks e in
    let q =
      tail-Ended allow f.after c f.tracks error_message fallback_id request_model input_tokens in
    let ends = tail_ends f.after error_message fallback_id request_model input_tokens in
    let tail = broken_stream_tail f.after error_message fallback_id request_model input_tokens in
    (
      f.after,
      f.observed,
      contract_of_check allow (es ++ tail) q.checker
          (not_empty_of_start (es ++ tail) (has_message_start-append es tail start))
          (has_message_start-append es tail start) (ends_with_stop-append es tail ends.0 ends.1)
          (rw (check_events-append allow fresh_checker es tail) (rw e q.accepted)) q.empty q.seen,
    )
