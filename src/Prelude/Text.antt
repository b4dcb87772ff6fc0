-- ===== src/Prelude/Text.antt =====
-- The methods of Python's `str` that the program uses, over the characters of a `String`.
use Prim.Native.Nat.{ℕ, zero, suc}
use Prim.Native.Char.{code}
use Prim.Native.String.{String, [], ◌∷◌}
use mathlib.Core.Bool.{Bool, true, false, ◌&&◌, ◌||◌}
use mathlib.Core.Option
use mathlib.Core.Option.{Option, none, some}
use vega_claude.Prelude.Tests.{leb, nat_beq, if◌then◌else◌}

-- `c.isspace()`: what `str.strip` takes off.
abbrev is_space : ℕ → Bool
is_space c =
    leb 9 c && leb c 13
    || leb 28 c && leb c 32
    || nat_beq c 133
    || nat_beq c 160
    || nat_beq c 5760
    || leb 8192 c && leb c 8202
    || nat_beq c 8232
    || nat_beq c 8233
    || nat_beq c 8239
    || nat_beq c 8287
    || nat_beq c 12288

-- `not s.strip()`
unfoldable pub is_blank : String → Bool
is_blank [] = true
is_blank (c ∷ s) = is_space (code c) && is_blank s

-- `len(s)`
unfoldable pub size : String → ℕ
size [] = 0
size (c ∷ s) = suc (size s)

lstrip : String → String
lstrip [] = []
lstrip (c ∷ s) = let rest = lstrip s in if is_space (code c) then rest else c ∷ s

rstrip : String → String
unfolding is_blank
rstrip [] = []
rstrip (c ∷ s) = let rest = rstrip s in if is_space (code c) && is_blank s then [] else c ∷ rest

-- `s.strip()`
unfoldable pub strip : String → String
unfolding lstrip rstrip
strip s = rstrip (lstrip s)

-- `not s`
abbrev pub is_null : String → Bool
is_null [] = true
is_null (c ∷ s) = false

-- `s.startswith(p)`, the prefix first
abbrev pub begins : String → String → Bool
begins [] s = true
begins (c ∷ p) [] = false
begins (c ∷ p) (d ∷ s) = nat_beq (code c) (code d) && begins p s

-- `s[:n]`
abbrev pub first : ℕ → String → String
first zero s = []
first (suc n) [] = []
first (suc n) (c ∷ s) = c ∷ first n s

-- `s[n:]`
abbrev pub rest_from : ℕ → String → String
rest_from zero s = s
rest_from (suc n) [] = []
rest_from (suc n) (c ∷ s) = rest_from n s

-- `s.find(p)`, for a `p` that is not empty; `none` for -1
abbrev pub find : String → String → Option ℕ
find p [] = none
find p (c ∷ s) = let later = find p s in if begins p (c ∷ s) then some 0 else Option.map suc later

abbrev pick_last : Bool → Option ℕ → Option ℕ
pick_last here (some i) = some (suc i)
pick_last here none = if here then some 0 else none

-- `s.rfind(ch)`, for one character by its code
abbrev pub rfind : ℕ → String → Option ℕ
rfind ch [] = none
rfind ch (c ∷ s) = pick_last (nat_beq ch (code c)) (rfind ch s)
