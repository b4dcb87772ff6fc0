-- ===== src/Prelude/Int.antt =====
-- Python's `int` where it may be negative. `negsuc n` is -(n + 1).
use Prim.Native.Nat.{ℕ, zero, suc, max, min}
use mathlib.Core.Path.{◌≡◌, ap}
use mathlib.Core.Logic.{◌↔◌}
use mathlib.Core.Bool.{Bool, true, false}
use native.Mathlib.Omega.{arith}
use vega_claude.Prelude.Tests.{nat_beq, nat_beq_iff}
use vega_claude.Prelude.Equality.{Key}

pub data ℤ : Type 0 where
  pos : ℕ → ℤ
  negsuc : ℕ → ℤ

abbrev pub minus_one : ℤ
minus_one = negsuc 0

abbrev int_beq : ℤ → ℤ → Bool
int_beq (pos a) (pos b) = nat_beq a b
int_beq (negsuc a) (negsuc b) = nat_beq a b
int_beq _ _ = false

pub int_beq_iff : (a b : ℤ) → (int_beq a b ≡ true) ↔ (a ≡ b)
int_beq_iff (pos a) (pos b) = (λ h. ap pos ((nat_beq_iff a b).0 h), λ h. ground arith)
int_beq_iff (negsuc a) (negsuc b) = (λ h. ap negsuc ((nat_beq_iff a b).0 h), λ h. ground arith)
int_beq_iff (pos a) (negsuc b) = (λ h. cc, λ h. cc)
int_beq_iff (negsuc a) (pos b) = (λ h. cc, λ h. cc)

instance abbrev pub int_eq : Key ℤ
int_eq = record { same = int_beq; same_iff = int_beq_iff }

-- max(a, b)
abbrev pub max_int : ℤ → ℤ → ℤ
max_int (pos a) (pos b) = pos (max a b)
max_int (pos a) (negsuc b) = pos a
max_int (negsuc a) (pos b) = pos b
max_int (negsuc a) (negsuc b) = negsuc (min a b)

-- a + 1
abbrev pub next_int : ℤ → ℤ
next_int (pos a) = pos (suc a)
next_int (negsuc zero) = pos 0
next_int (negsuc (suc a)) = negsuc a

-- The number itself, or 0 for one that is negative.
abbrev pub to_nat : ℤ → ℕ
to_nat (pos a) = a
to_nat (negsuc a) = 0
