-- ===== src/Prelude/Dict.antt =====
-- Python's `dict`: an association list with each key once, in insertion order.
use mathlib.Core.Path.{◌≡◌, refl}
use mathlib.Core.Option.{Option, none, some}
use mathlib.Core.List.{List, [], ◌∷◌}
use native.Mathlib.Omega.{arith}
use project_mognet.Prelude.Eq.{Eq, ◌==◌}
use project_mognet.Prelude.Tests.{if◌then◌else◌}

abbrev pub Dict {ℓ κ} : Type ℓ → Type κ → Type (ℓ ⊔ κ)
Dict K V = List (K × V)

module _ {ℓ κ} {K : Type ℓ} {V : Type κ} ⦃e : Eq K⦄ where
  unfoldable pub keys : Dict K V → List K
  keys [] = []
  keys ((j, v) ∷ m) = j ∷ keys m

  unfoldable pub values : Dict K V → List V
  values [] = []
  values ((j, v) ∷ m) = v ∷ values m

  unfoldable pub lookup : (key : K) → Dict K V → Option V
  lookup key [] = none
  lookup key ((other, held) ∷ rest) = if other == key then some held else lookup key rest

  -- A key that is there keeps its place.
  unfoldable pub insert : (key : K) (value : V) → Dict K V → Dict K V
  insert key value [] = (key, value) ∷ []
  insert key value ((other, held) ∷ rest) =
      if other == key then (other, value) ∷ rest else (other, held) ∷ insert key value rest

  unfoldable pub get_or : K → V → Dict K V → V
  get_or k d m = elim (lookup k m) [ none ↦ d | some v ↦ v ]

  -- `dict.pop(key, None)` without its value.
  unfoldable pub remove : K → Dict K V → Dict K V
  remove k [] = []
  remove k ((j, v) ∷ m) = let rest = remove k m in if j == k then rest else (j, v) ∷ rest

  pub lookup-remove :
      (k j : K) (m : Dict K V) → lookup j (remove k m) ≡ (if k == j then none else lookup j m)
  unfolding lookup remove
  lookup-remove k j [] = ground arith
  lookup-remove k j ((i, w) ∷ m) =
      ground (arith, lookup-remove k j m, e.beq_iff i k, e.beq_iff i j, e.beq_iff k j)

  pub lookup-insert :
      (at key : K) (value : V) (m : Dict K V)
      → lookup key (insert at value m) ≡ (if at == key then some value else lookup key m)
  unfolding lookup insert
  lookup-insert at key value [] = refl
  lookup-insert at key value ((other, held) ∷ rest) = ground (
    arith,
    e.beq_iff other at,
    lookup-insert at key value rest,
    e.beq_iff other key,
    e.beq_iff at key,
  )

  -- Each key stands once.
  abbrev pub IsDistinct : Dict K V → Type κ
  IsDistinct [] = Unit
  IsDistinct ((key, value) ∷ rest) = (lookup key rest ≡ none) × IsDistinct rest
