-- ===== src/Prelude/Maps.antt =====
-- Python's `dict`: an association list in order of insertion. Writing a present key keeps its place.
use mathlib.Core.Path.{◌≡◌, refl}
use mathlib.Core.Bool.{Bool, true, false}
use mathlib.Core.Option.{Option, none, some}
use mathlib.Core.List.{List, [], ◌∷◌}
use native.Mathlib.Omega.{arith}
use vega_claude.Prelude.Tests.{if◌then◌else◌}
use vega_claude.Prelude.Equality.{Key, ◌==◌, ==_iff}

abbrev pub Dict {ℓ κ} : Type ℓ → Type κ → Type (ℓ ⊔ κ)
Dict K V = List (K × V)

module _ {ℓ κ} {K : Type ℓ} {V : Type κ} ⦃e : Key K⦄ where
  -- d.get(k)
  abbrev pub get : K → Dict K V → Option V
  get k [] = none
  get k ((j, v) ∷ d) = if j == k then some v else get k d

  -- k in d
  abbrev pub has : K → Dict K V → Bool
  has k [] = false
  has k ((j, v) ∷ d) = if j == k then true else has k d

  -- d[k] = v
  abbrev pub put : K → V → Dict K V → Dict K V
  put k v [] = (k, v) ∷ []
  put k v ((j, w) ∷ d) = let rest = put k v d in if j == k then (j, v) ∷ d else (j, w) ∷ rest

  -- d.pop(k, None), del d[k]
  abbrev pub remove : K → Dict K V → Dict K V
  remove k [] = []
  remove k ((j, v) ∷ d) = let rest = remove k d in if j == k then rest else (j, v) ∷ rest

  pub get-put :
      (k j : K) (v : V) (d : Dict K V) → get j (put k v d) ≡ (if k == j then some v else get j d)
  get-put k j v [] = refl
  get-put k j v ((i, w) ∷ d) = ground (arith, get-put k j v d, ==_iff i k, ==_iff i j, ==_iff k j)

  pub get-remove :
      (k j : K) (d : Dict K V) → get j (remove k d) ≡ (if k == j then none else get j d)
  get-remove k j [] = ground arith
  get-remove k j ((i, w) ∷ d) = ground (arith, get-remove k j d, ==_iff i k, ==_iff i j, ==_iff k j)

  pub has-get : (k : K) (d : Dict K V) → has k d ≡ (elim (get k d) [ none ↦ false | some _ ↦ true ])
  has-get k [] = refl
  has-get k ((i, w) ∷ d) = ground (arith, has-get k d)

  -- No key stands twice.
  abbrev pub IsDict : Dict K V → Type 0
  IsDict [] = Unit
  IsDict ((k, v) ∷ d) = (has k d ≡ false) × IsDict d

  pub has-put :
      (k j : K) (v : V) (d : Dict K V) → has j (put k v d) ≡ (if k == j then true else has j d)
  has-put k j v [] = refl
  has-put k j v ((i, w) ∷ d) = ground (arith, has-put k j v d, ==_iff i k, ==_iff i j, ==_iff k j)

  pub has-remove :
      (k j : K) (d : Dict K V) → has j (remove k d) ≡ (if k == j then false else has j d)
  has-remove k j [] = ground arith
  has-remove k j ((i, w) ∷ d) = ground (arith, has-remove k j d, ==_iff i k, ==_iff i j, ==_iff k j)

  pub put-IsDict : (k : K) (v : V) (d : Dict K V) → IsDict d → IsDict (put k v d)
  put-IsDict k v [] h = ground arith
  put-IsDict k v ((i, w) ∷ d) h =
      ground (arith, put-IsDict k v d h.1, has-put k i v d, ==_iff i k, ==_iff k i)

  pub remove-IsDict : (k : K) (d : Dict K V) → IsDict d → IsDict (remove k d)
  remove-IsDict k [] h = h
  remove-IsDict k ((i, w) ∷ d) h = ground (arith, remove-IsDict k d h.1, has-remove k i d)

  -- A dict that gives nothing for every key is empty.
  pub nil_of_get-none : (d : Dict K V) → ((k : K) → get k d ≡ none) → d ≡ []
  nil_of_get-none [] h = refl
  nil_of_get-none ((i, w) ∷ d) h = ground (arith, h i, ==_iff i i)
