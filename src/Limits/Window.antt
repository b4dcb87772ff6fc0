-- ===== src/Limits/Window.antt =====
-- `StrictSlidingWindowLimiter` of free-claude-code/core/rate_limit.py. The clock is a parameter of
-- each call; times are whole ticks of it, and the window is a number of ticks.
use vega_claude.Prelude.{
  ℕ, ◌+◌, ◌-◌, Option, none, some, List, [], ◌∷◌, ◌++◌, ltb, leb, length, if◌then◌else◌,
}

pub record Limiter : Type 0 where
  pub rate_limit : ℕ
  pub rate_window : ℕ
  pub times : List ℕ

-- `none` is the ValueError of the constructor.
unfoldable pub new_limiter : ℕ → ℕ → Option Limiter
new_limiter rate_limit rate_window =
    if leb rate_limit 0
    then none
    else if leb rate_window 0
    then none
    else some (record { rate_limit = rate_limit; rate_window = rate_window; times = [] })

-- while self._times and self._times[0] <= cutoff: self._times.popleft()
-- `t <= now - window` is written `t + window <= now`, since `-` stops at 0 here.
unfoldable pub prune : ℕ → ℕ → List ℕ → List ℕ
prune window now [] = []
prune window now (t ∷ ts) =
    let rest = prune window now ts in if leb (t + window) now then rest else t ∷ ts

-- What a round of `acquire` ends in: it returns, or it sleeps for `wait_time`.
pub data Round : Type 0 where
  acquired : Round
  waits : ℕ → Round

abbrev pub oldest_wait : ℕ → ℕ → List ℕ → ℕ
oldest_wait window now [] = 0
oldest_wait window now (oldest ∷ ts) = oldest + window - now

-- One round of `while True` in `acquire`, under the lock, at the time `now`.
unfoldable pub attempt : ℕ → Limiter → Round × Limiter
unfolding prune
attempt now l =
    let ts = prune l.rate_window now l.times in
    if ltb (length ts) l.rate_limit
    then (acquired, record l { times = ts ++ now ∷ [] })
    else (waits (oldest_wait l.rate_window now ts), record l { times = ts })
