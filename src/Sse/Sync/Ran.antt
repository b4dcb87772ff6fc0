-- ===== src/Sse/Sync/Ran.antt =====
-- A generator whose events the checker accepts, with the two states kept in step.
use vega_claude.Prelude.{
  ◌≡◌, refl, ◌≢◌, Bool, true, false, is_empty, List, [], ◌∷◌, ◌++◌, if◌then◌else◌,
}
use vega_claude.Sse.Event.{Event}
use vega_claude.Sse.Generator.{
  key_error, Exit, done, raised, Run, Generator, ◌>>◌, resume, skip, emit,
}
use vega_claude.Sse.Builder.{SseBuilder}
use vega_claude.Sse.Contract.{
  Checker, fresh_checker, Result, ok, fails, ◌>>=◌, check_event, check_events, has_message_start,
  ends_with_stop, assert_stream_contract,
}
use vega_claude.Sse.Sync.{Sync}

>>=-assoc :
    {A : Type 0} (r : Result A) (f g h : A → Result A)
    → ((a : A) → h a ≡ (f a >>= g))
    → (r >>= h) ≡ (r >>= f >>= g)
>>=-assoc (ok a) f g h e = e a
>>=-assoc (fails v) f g h e = refl

pub check_events-append :
    (allow : Bool) (c : Checker) (xs ys : List Event)
    → check_events allow c (xs ++ ys) ≡ (check_events allow c xs >>= λ c'. check_events allow c' ys)
unfolding check_events
check_events-append allow c [] ys = refl
check_events-append allow c (x ∷ xs) ys =
    >>=-assoc (check_event allow c x) (λ c'. check_events allow c' xs)
      (λ c'. check_events allow c' ys) (λ c'. check_events allow c' (xs ++ ys))
      (λ c'. check_events-append allow c' xs ys)

-- The contract, from what the loop and the other assertions find.
pub contract_of_check :
    (allow : Bool) (es : List Event) (c : Checker)
    → is_empty es ≡ false
    → has_message_start es ≡ true
    → ends_with_stop es ≡ true
    → check_events allow fresh_checker es ≡ ok c
    → c.open_blocks ≡ []
    → is_empty c.seen_blocks ≡ false
    → assert_stream_contract allow es ≡ ok tt
unfolding assert_stream_contract
contract_of_check allow es c ne start ends h empty seen =
    rw ne (rw start (rw ends (rw h (rw empty (rw seen)))))

-- No KeyError.
abbrev pub Safe : Exit → Type 0
Safe x = x ≢ raised key_error

abbrev pub Done : Exit → Type 0
Done x = x ≡ done

module _ (allow : Bool) (P : Exit → Type 0) where
  pub record Ran (c : Checker) (r : Run SseBuilder) : Type 0 where
    pub checker : Checker
    pub accepted : check_events allow c r.events ≡ ok checker
    pub sync : Sync r.state.blocks checker
    pub ends : P r.exit

  pub record Keeps (m : Generator SseBuilder) : Type 0 where
    pub at : (s : SseBuilder) (c : Checker) → Sync s.blocks c → Ran c (m s)

module _ {allow : Bool} {P : Exit → Type 0} where
  pub Ran-resume :
      (x : Exit) (es : List Event) (s : SseBuilder) (c : Checker) (k : Generator SseBuilder)
      → Ran allow P c (record { exit = x; state = s; events = es })
      → ((c' : Checker) → x ≡ done → Sync s.blocks c' → Ran allow P c' (k s))
      → Ran allow P c (resume x es s k)
  Ran-resume done es s c k r rest =
      let q = rest r.checker refl r.sync in
      record {
        checker = q.checker;
        accepted = rw (check_events-append allow c es (k s).events) (rw r.accepted q.accepted);
        sync = q.sync;
        ends = q.ends;
      }
  Ran-resume (raised x) es s c k r rest = r

  -- A step, and what follows from the state that it leaves.
  pub Ran-then :
      (m k : Generator SseBuilder) (s : SseBuilder) (c : Checker)
      → Ran allow P c (m s)
      → ((c' : Checker)
          → (m s).exit ≡ done
          → Sync (m s).state.blocks c'
          → Ran allow P c' (k (m s).state))
      → Ran allow P c ((m >> k) s)
  unfolding ◌>>◌
  Ran-then m k s c r rest = Ran-resume (m s).exit (m s).events (m s).state c k r rest

  pub Keeps-then :
      (m k : Generator SseBuilder) → Keeps allow P m → Keeps allow P k → Keeps allow P (m >> k)
  Keeps-then m k km kk = record {
    at = λ s c h. Ran-then m k s c (km.at s c h) (λ c' _ h'. kk.at (m s).state c' h');
  }

  pub Ran-if :
      {c : Checker} (t : Bool) (r q : Run SseBuilder)
      → (t ≡ true → Ran allow P c r)
      → (t ≡ false → Ran allow P c q)
      → Ran allow P c (if t then r else q)
  Ran-if true r q hr hq = hr refl
  Ran-if false r q hr hq = hq refl

  pub Keeps-skip : P done → Keeps allow P skip
  unfolding check_events
  Keeps-skip p = record {
    at = λ s c h. record { checker = c; accepted = refl; sync = h; ends = p };
  }

-- One event that the checker accepts.
pub Ran-emit :
    {allow : Bool} {P : Exit → Type 0} (s : SseBuilder) (e : Event) (c c' : Checker)
    → P done
    → check_event allow c e ≡ ok c'
    → Sync s.blocks c'
    → Ran allow P c (emit s e)
unfolding check_events
Ran-emit s e c c' p h sync = record { checker = c'; accepted = rw h; sync = sync; ends = p }

pub Ran-weaken :
    {allow : Bool} {P Q : Exit → Type 0} {c : Checker} (r : Run SseBuilder)
    → ((x : Exit) → P x → Q x)
    → Ran allow P c r
    → Ran allow Q c r
Ran-weaken r w h = record {
  checker = h.checker;
  accepted = h.accepted;
  sync = h.sync;
  ends = w r.exit h.ends;
}
