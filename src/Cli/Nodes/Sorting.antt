-- ===== src/Cli/Nodes/Sorting.antt =====
-- The order in which `status` lists the requests of a node (mognet/cli/nodes.py).
use project_mognet.Prelude.{
  ℕ, ltb, ◌≤◌, ◌≡◌, refl, List, [], ◌∷◌, ◌||◌, contains, arith, All, Bool-cases, inl, inr,
}
use project_mognet.Prelude.Eq.{nat_eq, ◌==◌}
use project_mognet.Model.Result.{Result}
use project_mognet.Cli.Nodes.{created_key, insert_by_created, sort_by_created}

-- By the time of creation, which counts as now where there is none.
abbrev pub IsSorted : ℕ → List Result → Type 0
IsSorted now [] = Unit
IsSorted now (r ∷ rs) = All (λ s. created_key now r ≤ created_key now s) rs × IsSorted now rs

All-insert :
    (now k : ℕ) (r : Result) (rs : List Result)
    → k ≤ created_key now r
    → All (λ s. k ≤ created_key now s) rs
    → All (λ s. k ≤ created_key now s) (insert_by_created now r rs)
unfolding insert_by_created
All-insert now k r [] h a = (h, tt)
All-insert now k r (s ∷ rs) h a = elim (Bool-cases (ltb (created_key now s) (created_key now r))) [
  | inl before ↦ rw before (a.0, All-insert now k r rs h a.1)
  | inr behind ↦ rw behind (h, a)
]

All-weaken :
    (now k m : ℕ) (rs : List Result)
    → k ≤ m
    → All (λ s. m ≤ created_key now s) rs
    → All (λ s. k ≤ created_key now s) rs
All-weaken now k m [] h a = tt
All-weaken now k m (r ∷ rs) h a = (omega (arith, h, a.0), All-weaken now k m rs h a.1)

insert-IsSorted :
    (now : ℕ) (r : Result) (rs : List Result)
    → IsSorted now rs
    → IsSorted now (insert_by_created now r rs)
unfolding insert_by_created
insert-IsSorted now r [] h = (tt, tt)
insert-IsSorted now r (s ∷ rs) h = elim (Bool-cases (ltb (created_key now s) (created_key now r))) [
  | inl before ↦ rw before (
    All-insert now (created_key now s) r rs (ground (arith, before)) h.0,
    insert-IsSorted now r rs h.1,
  )
  | inr behind ↦
      let first : created_key now r ≤ created_key now s = ground (arith, behind) in
      rw behind ((first, All-weaken now (created_key now r) (created_key now s) rs first h.0), h)
]

pub sort-IsSorted : (now : ℕ) (rs : List Result) → IsSorted now (sort_by_created now rs)
unfolding sort_by_created
sort-IsSorted now [] = tt
sort-IsSorted now (r ∷ rs) = insert-IsSorted now r (sort_by_created now rs) (sort-IsSorted now rs)

abbrev pub ids_of : List Result → List ℕ
ids_of [] = []
ids_of (r ∷ rs) = r.id ∷ ids_of rs

insert-contains :
    (now j : ℕ) (r : Result) (rs : List Result)
    → contains j (ids_of (insert_by_created now r rs)) ≡ ((r.id == j) || contains j (ids_of rs))
unfolding insert_by_created contains
insert-contains now j r [] = refl
insert-contains now j r (s ∷ rs) = ground (arith, insert-contains now j r rs)

pub sort-contains :
    (now j : ℕ) (rs : List Result)
    → contains j (ids_of (sort_by_created now rs)) ≡ contains j (ids_of rs)
unfolding sort_by_created contains
sort-contains now j [] = refl
sort-contains now j (r ∷ rs) =
    ground (arith, insert-contains now j r (sort_by_created now rs), sort-contains now j rs)
