-- ===== src/Demo/Orders.antt =====
-- What the outcomes of subtasks give together, in whatever order they end
-- (demo/mognet_demo/tasks.py).
use mathlib.Core.List.{Permᴰ, append_assoc}
use mathlib.Core.List.Permᴰ
use mathlib.Core.Path.{subst}
use project_mognet.Prelude.{
  String, ◌≡◌, refl, ◌∙◌, Bool, true, false, ◌&&◌, List, [], ◌∷◌, ◌++◌, arith,
}
use project_mognet.Prelude.Eq.{string_eq}
use project_mognet.Demo.{Document, Outcome, uploaded, invalid_file, failed}

-- What an outcome gives to the task that waits for it.
abbrev pub documents_of : Outcome → List Document
documents_of (uploaded r) = r.documents
documents_of _ = []

abbrev pub is_benign : Outcome → Bool
is_benign failed = false
is_benign _ = true

module _ (shown : String → String) where
  abbrev pub errors_of : Outcome → List String
  errors_of (uploaded r) = r.errors
  errors_of (invalid_file name) = shown name ∷ []
  errors_of failed = []

  -- An outcome that gives these documents and these errors, in any order.
  abbrev pub Gives : Outcome → List Document → List String → Type 0
  Gives o ds es = (is_benign o ≡ true) × Permᴰ (documents_of o) ds × Permᴰ (errors_of o) es

-- All that the outcomes give, by a list for each.
abbrev pub gather {ℓ} : {A : Type ℓ} → (Outcome → List A) → List Outcome → List A
gather f [] = []
gather f (o ∷ os) = f o ++ gather f os

abbrev pub all_benign : List Outcome → Bool
all_benign [] = true
all_benign (o ∷ os) = is_benign o && all_benign os

swap_front {ℓ} : {A : Type ℓ} (xs ys zs : List A) → Permᴰ (xs ++ (ys ++ zs)) (ys ++ (xs ++ zs))
swap_front xs ys zs =
    subst (λ l. Permᴰ (xs ++ (ys ++ zs)) l) (append_assoc ys xs zs)
      (subst (λ l. Permᴰ l ((ys ++ xs) ++ zs)) (append_assoc xs ys zs)
        (Permᴰ.append_right zs (Permᴰ.append_comm xs ys)))

pub both_perm {ℓ} :
    {A : Type ℓ} {xs ys zs ws : List A} → Permᴰ xs ys → Permᴰ zs ws → Permᴰ (xs ++ zs) (ys ++ ws)
both_perm {xs} {ys} {zs} {ws} p q = Permᴰ.trans (Permᴰ.append_right zs p) (Permᴰ.append_left ys q)

-- The order of the outcomes does not matter.
pub gather-Permᴰ {ℓ} :
    {A : Type ℓ} (f : Outcome → List A) {os ps : List Outcome}
    → Permᴰ os ps
    → Permᴰ (gather f os) (gather f ps)
gather-Permᴰ f Permᴰ.nil = Permᴰ.nil
gather-Permᴰ f (Permᴰ.cons {a} {b} {l₁ = os} {l₂ = ps} e p) =
    subst (λ o. Permᴰ (f a ++ gather f os) (f o ++ gather f ps)) e
      (Permᴰ.append_left (f a) (gather-Permᴰ f p))
gather-Permᴰ f (Permᴰ.swap {a} {b} {a'} {b'} {l = os} e d) =
    subst (λ o. Permᴰ (f a ++ (f b ++ gather f os)) (f o ++ (f b' ++ gather f os))) d
      (subst (λ o. Permᴰ (f a ++ (f b ++ gather f os)) (f b ++ (f o ++ gather f os))) e
        (swap_front (f a) (f b) (gather f os)))
gather-Permᴰ f (Permᴰ.trans p q) = Permᴰ.trans (gather-Permᴰ f p) (gather-Permᴰ f q)

pub all_benign-Permᴰ : {os ps : List Outcome} → Permᴰ os ps → all_benign os ≡ all_benign ps
all_benign-Permᴰ Permᴰ.nil = refl
all_benign-Permᴰ (Permᴰ.cons e p) = ground (arith, e, all_benign-Permᴰ p)
all_benign-Permᴰ (Permᴰ.swap e d) = ground (arith, e, d)
all_benign-Permᴰ (Permᴰ.trans p q) = all_benign-Permᴰ p ∙ all_benign-Permᴰ q
