-- ===== src/Sse/Generator.antt =====
-- A generator that yields events and changes the state of an object: it ends by itself or by an
-- exception, and what it yielded and wrote before the exception stays.
use vega_claude.Prelude.{List, [], ◌∷◌, ◌++◌}
use vega_claude.Sse.Event.{Event}

pub data Exception : Type 0 where
  key_error attribute_error value_error recursion_error upstream : Exception

pub data Exit : Type 0 where
  done : Exit
  raised : Exception → Exit

pub record Run (S : Type 0) : Type 0 where
  pub exit : Exit
  pub state : S
  pub events : List Event

abbrev pub Generator : Type 0 → Type 0
Generator S = S → Run S

abbrev pub resume : {S : Type 0} → Exit → List Event → S → Generator S → Run S
resume done es s k =
    let r = k s in record { exit = r.exit; state = r.state; events = es ++ r.events }
resume (raised x) es s k = record { exit = raised x; state = s; events = es }

infixl 10 ◌>>◌
-- One after the other: `yield from m; yield from k`.
unfoldable pub ◌>>◌ : {S : Type 0} → Generator S → Generator S → Generator S
◌>>◌ m k s = let r = m s in resume r.exit r.events r.state k

abbrev pub skip : {S : Type 0} → Generator S
skip s = record { exit = done; state = s; events = [] }

-- `yield e`, after which the state is `s`.
abbrev pub emit : {S : Type 0} → S → Event → Run S
emit s e = record { exit = done; state = s; events = e ∷ [] }

abbrev pub raise : {S : Type 0} → Exception → Generator S
raise x s = record { exit = raised x; state = s; events = [] }
