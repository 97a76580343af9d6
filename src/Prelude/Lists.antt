-- ===== src/Prelude/Lists.antt =====
-- Lists measured by native numbers, and membership in a set kept as a list.
use Prim.Native.Nat.{ℕ, suc, ◌+◌}
use mathlib.Core.Path.{◌≡◌, refl}
use mathlib.Core.Bool.{Bool, false, ◌||◌}
use mathlib.Core.List.{List, [], ◌∷◌, ◌++◌}
use native.Mathlib.Omega.{arith}
use project_mognet.Prelude.Eq.{Eq, ◌==◌}
use project_mognet.Prelude.Tests.{if◌then◌else◌}

module _ {ℓ} {A : Type ℓ} where
  abbrev pub length : List A → ℕ
  length [] = 0
  length (x ∷ xs) = suc (length xs)

  abbrev pub All {κ} : (A → Type κ) → List A → Type κ
  All P [] = Unit
  All P (x ∷ xs) = P x × All P xs

  pub length-append : (xs ys : List A) → length (xs ++ ys) ≡ length xs + length ys
  length-append [] ys = omega arith
  length-append (x ∷ xs) ys = omega (arith, length-append xs ys)

-- A Python set is the list of its members, each once, in the order in which they were added.
module _ {ℓ} {A : Type ℓ} ⦃e : Eq A⦄ where
  unfoldable pub contains : A → List A → Bool
  contains a [] = false
  contains a (x ∷ xs) = (x == a) || contains a xs

  unfoldable pub add : A → List A → List A
  unfolding contains
  add a xs = if contains a xs then xs else xs ++ a ∷ []

  unfoldable pub update : List A → List A → List A
  unfolding add
  update xs [] = xs
  update xs (a ∷ more) = update (add a xs) more

  unfoldable pub discard : A → List A → List A
  discard a [] = []
  discard a (x ∷ xs) = let rest = discard a xs in if x == a then rest else x ∷ rest

  pub contains-append :
      (a : A) (xs ys : List A) → contains a (xs ++ ys) ≡ (contains a xs || contains a ys)
  unfolding contains
  contains-append a [] ys = refl
  contains-append a (x ∷ xs) ys = ground (arith, contains-append a xs ys)

  pub contains-add : (a b : A) (xs : List A) → contains b (add a xs) ≡ ((a == b) || contains b xs)
  unfolding add
  contains-add a b xs =
      unfold contains in ground (arith, contains-append b xs (a ∷ []), e.beq_iff a b)

  pub contains-discard :
      (a b : A) (xs : List A)
      → contains b (discard a xs) ≡ (if a == b then false else contains b xs)
  unfolding contains discard
  contains-discard a b [] = ground arith
  contains-discard a b (x ∷ xs) =
      ground (arith, contains-discard a b xs, e.beq_iff x a, e.beq_iff x b, e.beq_iff a b)

  pub contains-update :
      (b : A) (xs more : List A) → contains b (update xs more) ≡ (contains b xs || contains b more)
  unfolding contains update
  contains-update b xs [] = ground arith
  contains-update b xs (a ∷ more) =
      ground (arith, contains-update b (add a xs) more, contains-add a b xs)
