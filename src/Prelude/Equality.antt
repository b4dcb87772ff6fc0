-- ===== src/Prelude/Equality.antt =====
-- Python's `==` on keys, as an interface, and membership in a list or a set of keys.
use Prim.Native.Nat.{ℕ}
use Prim.Native.String.{String}
use mathlib.Core.Path.{◌≡◌, refl}
use mathlib.Core.Logic.{◌↔◌}
use mathlib.Core.Bool.{Bool, true, false, ◌||◌}
use mathlib.Core.List.{List, [], ◌∷◌, ◌++◌}
use native.Mathlib.Omega.{arith}
use text.Mathlib.Text.{◌==◌ as str_eq}
use text.Mathlib.TextEquality.{eq_iff}
use vega_claude.Prelude.Tests.{nat_beq, nat_beq_iff, if◌then◌else◌}

-- A type whose values are dictionary keys: a Boolean test that decides equality.
pub record Key {ℓ} (K : Type ℓ) : Type ℓ where
  pub same : K → K → Bool
  pub same_iff : (j k : K) → (same j k ≡ true) ↔ (j ≡ k)

instance abbrev pub string_eq : Key String
string_eq = record { same = str_eq; same_iff = λ s t. eq_iff s t }

instance abbrev pub nat_eq : Key ℕ
nat_eq = record { same = nat_beq; same_iff = λ m n. nat_beq_iff m n }

module _ {ℓ} {A : Type ℓ} ⦃key : Key A⦄ where
  infix 50 ◌==◌
  abbrev pub ◌==◌ : (j k : A) → Bool
  j == k = key.same j k

  pub ==_iff : (j k : A) → (j == k ≡ true) ↔ (j ≡ k)
  ==_iff j k = key.same_iff j k

  pub ==_refl : (k : A) → k == k ≡ true
  ==_refl k = (==_iff k k).1 refl

  -- `a in xs`
  abbrev pub contains : A → List A → Bool
  contains a [] = false
  contains a (x ∷ xs) = x == a || contains a xs

  -- `xs.add(a)` of a set, in order of insertion
  abbrev pub add : A → List A → List A
  add a xs = if contains a xs then xs else xs ++ a ∷ []

  -- [x for x in xs if x != a], and `xs.discard(a)` of a set
  abbrev pub discard : A → List A → List A
  discard a [] = []
  discard a (x ∷ xs) = let rest = discard a xs in if x == a then rest else x ∷ rest

  pub contains-append :
      (a : A) (xs ys : List A) → contains a (xs ++ ys) ≡ (contains a xs || contains a ys)
  contains-append a [] ys = refl
  contains-append a (x ∷ xs) ys = ground (arith, contains-append a xs ys)

  pub contains-discard :
      (a b : A) (xs : List A)
      → contains a (discard b xs) ≡ (if b == a then false else contains a xs)
  contains-discard a b [] = ground arith
  contains-discard a b (x ∷ xs) =
      ground (arith, contains-discard a b xs, key.same_iff x b, key.same_iff b a, key.same_iff x a)

  pub contains-add : (a b : A) (xs : List A) → contains a (add b xs) ≡ (b == a || contains a xs)
  contains-add a b xs = ground (arith, contains-append a xs (b ∷ []), key.same_iff b a)
