-- ===== src/Limits/Strict.antt =====
-- The limiter's promise: at most `rate_limit` acquisitions in any interval of `rate_window`.
use vega_claude.Prelude.{
  ℕ, ◌+◌, ◌≤◌, ◌<◌, ◌≡◌, refl, Bool, ◌&&◌, List, [], ◌∷◌, ◌++◌, ltb, leb, length, count_if, All,
  arith, length-append, some,
}
use vega_claude.Limits.Window.{Limiter, new_limiter, prune, acquired, waits, oldest_wait, attempt}

-- The times at which rounds ran, and what they acquired, the newest first.
pub data Run (start : Limiter) : Limiter → ℕ → List ℕ → Type 0 where
  begun : Run start start 0 []
  took :
      {l : Limiter} {last : ℕ} {log : List ℕ} (now : ℕ)
      → Run start l last log
      → last ≤ now
      → (attempt now l).0 ≡ acquired
      → Run start (attempt now l).1 now (now ∷ log)
  slept :
      {l : Limiter} {last : ℕ} {log : List ℕ} (now wait : ℕ)
      → Run start l last log
      → last ≤ now
      → (attempt now l).0 ≡ waits wait
      → Run start (attempt now l).1 now log

-- `now < t + window`: the acquisition at `t` still counts at `now`.
abbrev pub counts : ℕ → ℕ → ℕ → Bool
counts window now t = ltb now (t + window)

-- The oldest comes first, and none is later than `last`.
abbrev Ordered : ℕ → List ℕ → Type 0
Ordered last [] = Unit
Ordered last (t ∷ ts) = (t ≤ last) × All (λ u. t ≤ u) ts × Ordered last ts

prune-Ordered : (w now last : ℕ) (ts : List ℕ) → Ordered last ts → Ordered last (prune w now ts)
unfolding prune
prune-Ordered w now last [] h = h
prune-Ordered w now last (t ∷ ts) h = ground (arith, prune-Ordered w now last ts h.2)

All-le :
    (t w now : ℕ) (ts : List ℕ)
    → now < t + w
    → All (λ u. t ≤ u) ts
    → count_if (counts w now) ts ≡ length ts
All-le t w now [] h a = refl
All-le t w now (u ∷ ts) h a = ground (arith, All-le t w now ts h a.1)

-- What stays in the deque is exactly what still counts.
length-prune :
    (w now last : ℕ) (ts : List ℕ)
    → Ordered last ts
    → length (prune w now ts) ≡ count_if (counts w now) ts
unfolding prune
length-prune w now last [] h = refl
length-prune w now last (t ∷ ts) h =
    ground (arith, length-prune w now last ts h.2, All-le t w now ts)

count-prune :
    (w now later : ℕ) (ts : List ℕ)
    → now ≤ later
    → count_if (counts w later) (prune w now ts) ≡ count_if (counts w later) ts
unfolding prune
count-prune w now later [] h = refl
count-prune w now later (t ∷ ts) h = ground (arith, count-prune w now later ts h)

count-snoc : (p : ℕ → Bool) (ts : List ℕ) (x : ℕ) → count_if p (ts ++ x ∷ []) ≡ count_if p (x ∷ ts)
count-snoc p [] x = refl
count-snoc p (t ∷ ts) x = ground (arith, count-snoc p ts x)

All-snoc : (t x : ℕ) (ts : List ℕ) → All (λ u. t ≤ u) ts → t ≤ x → All (λ u. t ≤ u) (ts ++ x ∷ [])
All-snoc t x [] a h = (h, tt)
All-snoc t x (u ∷ ts) a h = (a.0, All-snoc t x ts a.1 h)

Ordered-snoc :
    (last now : ℕ) (ts : List ℕ) → last ≤ now → Ordered last ts → Ordered now (ts ++ now ∷ [])
Ordered-snoc last now [] le h = (omega arith, tt, tt)
Ordered-snoc last now (t ∷ ts) le h =
    (omega arith, All-snoc t now ts h.1 (omega arith), Ordered-snoc last now ts le h.2)

Ordered-later : (last now : ℕ) (ts : List ℕ) → last ≤ now → Ordered last ts → Ordered now ts
Ordered-later last now [] le h = tt
Ordered-later last now (t ∷ ts) le h = (omega arith, h.1, Ordered-later last now ts le h.2)

-- When it was taken, each acquisition found fewer than the limit that still counted.
abbrev Spaced : ℕ → ℕ → List ℕ → Type 0
Spaced limit window [] = Unit
Spaced limit window (t ∷ log) = (count_if (counts window t) log < limit) × Spaced limit window log

length-le : (w now limit : ℕ) (ts : List ℕ) → length ts ≤ limit → length (prune w now ts) ≤ limit
unfolding prune
length-le w now limit [] h = h
length-le w now limit (t ∷ ts) h = ground (arith, length-le w now limit ts)

record Inv (start l : Limiter) (last : ℕ) (log : List ℕ) : Type 0 where
  same_limit : l.rate_limit ≡ start.rate_limit
  same_window : l.rate_window ≡ start.rate_window
  ordered : Ordered last l.times
  counted :
      (now : ℕ)
      → last ≤ now
      → count_if (counts start.rate_window now) l.times
        ≡ count_if (counts start.rate_window now) log
  spaced : Spaced start.rate_limit start.rate_window log
  room : length l.times ≤ l.rate_limit

-- A round that acquires found room; both rounds keep the limit and the window.
module _ (start l : Limiter) (last now : ℕ) (log : List ℕ) (inv : Inv start l last log)
    (le : last ≤ now) where
  took-Inv : (attempt now l).0 ≡ acquired → Inv start (attempt now l).1 now (now ∷ log)
  unfolding attempt
  took-Inv h =
      let ts = prune l.rate_window now l.times in
      record {
        same_limit = ground (arith, inv.same_limit);
        same_window = ground (arith, inv.same_window);
        ordered = ground (
          arith,
          Ordered-snoc last now ts le (prune-Ordered l.rate_window now last l.times inv.ordered),
        );
        counted = λ t p. ground (
          arith,
          inv.counted t,
          inv.same_window,
          count-prune l.rate_window now t l.times p,
          count-snoc (counts start.rate_window t) ts now,
        );
        spaced = (
          ground (
            arith,
            inv.counted now,
            inv.same_window,
            inv.same_limit,
            length-prune l.rate_window now last l.times inv.ordered,
          ),
          inv.spaced,
        );
        room = ground (arith, length-append ts (now ∷ []));
      }

  slept-Inv : (wait : ℕ) → (attempt now l).0 ≡ waits wait → Inv start (attempt now l).1 now log
  unfolding attempt
  slept-Inv wait h = record {
    same_limit = ground (arith, inv.same_limit);
    same_window = ground (arith, inv.same_window);
    ordered = ground (
      arith,
      Ordered-later last now (prune l.rate_window now l.times) le
          (prune-Ordered l.rate_window now last l.times inv.ordered),
    );
    counted = λ t p.
        ground (arith, inv.counted t, inv.same_window, count-prune l.rate_window now t l.times p);
    spaced = inv.spaced;
    room = ground (arith, length-le l.rate_window now l.rate_limit l.times inv.room);
  }

Run-Inv :
    {start l : Limiter} {last : ℕ} {log : List ℕ}
    → start.times ≡ []
    → Run start l last log
    → Inv start l last log
Run-Inv {start} e begun = record {
  same_limit = refl;
  same_window = refl;
  ordered = rw e tt;
  counted = λ now _. rw e;
  spaced = tt;
  room = rw e (omega arith);
}
Run-Inv {start} e (took {l} {last} {log} now run le h) =
    took-Inv start l last now log (Run-Inv e run) le h
Run-Inv {start} e (slept {l} {last} {log} now wait run le h) =
    slept-Inv start l last now log (Run-Inv e run) le wait h

abbrev pub within : ℕ → ℕ → ℕ → Bool
within window a t = leb a t && ltb t (a + window)

count-within :
    (w a t : ℕ) (log : List ℕ) → t < a + w → count_if (within w a) log ≤ count_if (counts w t) log
count-within w a t [] h = omega arith
count-within w a t (u ∷ log) h = ground (arith, count-within w a t log h)

Spaced-within :
    (limit w a : ℕ) (log : List ℕ) → Spaced limit w log → count_if (within w a) log ≤ limit
Spaced-within limit w a [] h = omega arith
Spaced-within limit w a (t ∷ log) h =
    ground (arith, Spaced-within limit w a log h.1, count-within w a t log)

-- However the rounds of `acquire` fall, from a new limiter on and with a clock that does not go
-- back, any interval `[a, a + rate_window)` holds at most `rate_limit` of the acquisitions.
pub window_bound :
    (rate_limit rate_window : ℕ) (start l : Limiter) (last : ℕ) (log : List ℕ) (a : ℕ)
    → new_limiter rate_limit rate_window ≡ some start
    → Run start l last log
    → count_if (within rate_window a) log ≤ rate_limit
unfolding new_limiter
window_bound rate_limit rate_window start l last log a e run =
    let inv = Run-Inv (ground arith) run in
    ground (arith, Spaced-within start.rate_limit start.rate_window a log inv.spaced)

-- The head of a pruned deque goes once the clock reaches its expiry.
length-prune_head :
    (w now : ℕ) (t : ℕ) (ts : List ℕ) → t + w ≤ now → length (prune w now (t ∷ ts)) ≤ length ts
unfolding prune
length-prune_head w now t ts h = ground (arith, length-le w now (length ts) ts)

prune-nil : (w now : ℕ) → prune w now [] ≡ []
unfolding prune
prune-nil w now = refl

wakes :
    (w now limit wait : ℕ) (ts : List ℕ)
    → 0 < limit
    → length ts ≤ limit
    → wait ≡ oldest_wait w now ts
    → length (prune w (now + wait) ts) < limit
wakes w now limit wait [] pos le e = rw (prune-nil w (now + wait)) pos
wakes w now limit wait (t ∷ ts) pos le e =
    omega (arith, length-prune_head w (now + wait) t ts (omega arith))

attempt-wakes :
    (l : Limiter) (now wait : ℕ)
    → 0 < l.rate_limit
    → length l.times ≤ l.rate_limit
    → (attempt now l).0 ≡ waits wait
    → (attempt (now + wait) (attempt now l).1).0 ≡ acquired
unfolding attempt
attempt-wakes l now wait pos le h =
    let ts = prune l.rate_window now l.times in
    ground (
      arith,
      wakes l.rate_window now l.rate_limit wait ts pos
          (length-le l.rate_window now l.rate_limit l.times le),
    )

-- In every state that a new limiter reaches, a caller that is told to sleep for some time and does,
-- with no other round in between, acquires at its next round.
pub acquire_wakes :
    (rate_limit rate_window : ℕ) (start l : Limiter) (last : ℕ) (log : List ℕ) (now wait : ℕ)
    → new_limiter rate_limit rate_window ≡ some start
    → Run start l last log
    → (attempt now l).0 ≡ waits wait
    → (attempt (now + wait) (attempt now l).1).0 ≡ acquired
unfolding new_limiter
acquire_wakes rate_limit rate_window start l last log now wait e run h =
    let inv = Run-Inv (ground arith) run in
    attempt-wakes l now wait (ground (arith, inv.same_limit)) inv.room h
