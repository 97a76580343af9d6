-- ===== src/Backend/Memory/Children.antt =====
-- The children of a result in the memory backend: what is added is counted and iterated.
use project_mognet.Prelude.{
  ℕ, zero, suc, ◌+◌, ◌≤◌, ◌≡◌, refl, ap, false, ◌||◌, none, some, List, [], ◌∷◌, arith, length,
  Option-cases, if◌then◌else◌, contains, update, contains-update, Bool-cases, inl, inr,
}
use project_mognet.Prelude.Dict
use project_mognet.Model.Result.{Result}
use project_mognet.Prelude.Eq.{nat_eq, ◌==◌, ==_eq}
use project_mognet.Model.Value.{key_error}
use project_mognet.Backend.Memory.{
  Backend, ok, raised, children, iterate_from, iterate_children_ids, add_children, present,
  iterate_children,
}

-- The first items of a list.
abbrev pub take : ℕ → List ℕ → List ℕ
take zero xs = []
take (suc n) [] = []
take (suc n) (x ∷ xs) = x ∷ take n xs

pub iterate_from_all : (idx : ℕ) (xs : List ℕ) → iterate_from idx none xs ≡ xs
unfolding iterate_from
iterate_from_all idx [] = refl
iterate_from_all idx (x ∷ xs) = ap (λ l. x ∷ l) (iterate_from_all (idx + 1) xs)

iterate_from-take :
    (k idx n : ℕ) (xs : List ℕ) → idx + k ≡ n + 1 → iterate_from idx (some n) xs ≡ take (suc k) xs
unfolding iterate_from
iterate_from-take k idx n [] e = refl
iterate_from-take zero idx n (x ∷ xs) e = ground arith
iterate_from-take (suc k) idx n (x ∷ xs) e = ground (arith, iterate_from-take k (idx + 1) n xs)

-- For a result to which children were added, all of their ids are iterated where no count is given,
-- and the first `count + 2` where one is.
pub iterate_children_ids_found :
    (id n : ℕ) (b : Backend) (ids : List ℕ)
    → Dict.lookup id b.tree ≡ some ids
    → (iterate_children_ids id none b ≡ ok ids)
      × (iterate_children_ids id (some n) b ≡ ok (take (n + 2) ids))
unfolding iterate_children_ids
iterate_children_ids_found id n b ids e =
    (ground (arith, iterate_from_all 0 ids), ground (arith, iterate_from-take (n + 1) 0 n ids))

iterate_children_ids_missing :
    (id n : ℕ) (b : Backend)
    → Dict.lookup id b.tree ≡ none
    → iterate_children_ids id (some n) b ≡ raised key_error
unfolding iterate_children_ids
iterate_children_ids_missing id n b e = ground arith

children-add_children :
    (id j : ℕ) (ids : List ℕ) (b : Backend)
    → children j (add_children id ids b)
      ≡ (if id == j then update (children id b) ids else children j b)
unfolding children add_children
children-add_children id j ids b =
    ground (arith, Dict.lookup-insert id j (update (children id b) ids) b.tree)

-- Adding children to a result keeps those that it had and those of every other result, and adds
-- just the given ones.
pub contains-add_children :
    (id j c : ℕ) (ids : List ℕ) (b : Backend)
    → contains c (children j (add_children id ids b))
      ≡ (contains c (children j b) || (if id == j then contains c ids else false))
contains-add_children id j c ids b = elim (Bool-cases (id == j)) [
  | inl same ↦
      rw (children-add_children, same)
        (rw (← ==_eq id j same) (contains-update c (children id b) ids))
  | inr other ↦ rw (children-add_children, other) (ground arith)
]

length-take-le : (n : ℕ) (xs : List ℕ) → length (take n xs) ≤ n
length-take-le zero xs = omega arith
length-take-le (suc n) [] = omega arith
length-take-le (suc n) (x ∷ xs) = omega (arith, length-take-le n xs)

length-present-le : (b : Backend) (ids : List ℕ) → length (present b ids) ≤ length ids
unfolding present
length-present-le b [] = omega arith
length-present-le b (id ∷ ids) = ground (arith, length-present-le b ids)

pub length-iterate_children :
    (id n : ℕ) (b : Backend) (cs : List Result)
    → iterate_children id (some n) b ≡ ok cs
    → length cs ≤ n + 2
unfolding iterate_children
length-iterate_children id n b cs e = elim (Option-cases (Dict.lookup id b.tree)) [
  | inl missing ↦ let raises = iterate_children_ids_missing id n b missing in ground arith
  | inr (ids, found) ↦
      let runs = (iterate_children_ids_found id n b ids found).1 in
      ground (arith, length-present-le b (take (n + 2) ids), length-take-le (n + 2) ids)
]
