-- ===== src/Backend/Memory.antt =====
-- mognet/backend/memory_result_backend.py: the four dictionaries and the operations on them. A result
-- stands in them by its fields as they are at the moment. In the source `get` hands out the object
-- itself, which shows what is written to it later: where code holds one while other code runs, as the
-- worker does, its model reads the fields again (`seen_again` of Worker/Processing).
pub mod Children
pub mod Views
pub mod Deletion
use project_mognet.Prelude.{
  ◌≡◌, refl, ◌⊎◌, inl, inr, ℕ, zero, suc, ◌+◌, String, Bool, true, false, Option, none, some, List,
  [], ◌∷◌, ltb, length, update, if◌then◌else◌,
}
use project_mognet.Prelude.Dict
use project_mognet.Prelude.Dict.{Dict}
use project_mognet.Prelude.Eq.{nat_eq, string_eq}
use project_mognet.Model.Value.{Value, ValueHolder, Exn, key_error, result_value_lost}
use project_mognet.Model.Result.{Result}

pub record Backend : Type 0 where
  pub results : Dict ℕ Result
  pub tree : Dict ℕ (List ℕ)
  pub values : Dict ℕ ValueHolder
  pub metadata : Dict ℕ (Dict String Value)

abbrev pub empty : Backend
empty = record { results = []; tree = []; values = []; metadata = [] }

-- An operation that may raise.
pub data Answer {ℓ} (A : Type ℓ) : Type ℓ where
  ok : A → Answer A
  raised : Exn → Answer A

pub Answer-cases {ℓ} :
    {A : Type ℓ} (a : Answer A) → ((x : A) × (a ≡ ok x)) ⊎ ((e : Exn) × (a ≡ raised e))
Answer-cases (ok x) = inl (x, refl)
Answer-cases (raised e) = inr (e, refl)

unfoldable pub get : ℕ → Backend → Option Result
get id b = Dict.lookup id b.results

unfoldable pub set : ℕ → Result → Backend → Backend
set id r b = record b { results = Dict.insert id r b.results }

unfoldable pub children : ℕ → Backend → List ℕ
unfolding Dict.get_or
children id b = Dict.get_or id [] b.tree

unfoldable pub get_children_count : ℕ → Backend → ℕ
unfolding children
get_children_count id b = length (children id b)

-- The loop `for idx, child in enumerate(children)` with its `break`, which stands behind the `yield`.
pub iterate_from : ℕ → Option ℕ → List ℕ → List ℕ
iterate_from idx count [] = []
iterate_from idx count (child ∷ rest) =
    let more = iterate_from (idx + 1) count rest in
    elim count [ none ↦ child ∷ more | some n ↦ if ltb n idx then child ∷ [] else child ∷ more ]

-- The generator's items. `self._result_tree[parent_result_id]` raises where no children were added.
unfoldable pub iterate_children_ids : ℕ → Option ℕ → Backend → Answer (List ℕ)
unfolding iterate_from
iterate_children_ids id count b = elim (Dict.lookup id b.tree) [
  | none ↦ raised key_error
  | some ids ↦ ok (iterate_from 0 count ids)
]

present : Backend → List ℕ → List Result
unfolding get
present b [] = []
present b (id ∷ ids) =
    let rest = present b ids in elim (get id b) [ none ↦ rest | some r ↦ r ∷ rest ]

unfoldable pub iterate_children : ℕ → Option ℕ → Backend → Answer (List Result)
unfolding iterate_children_ids present
iterate_children id count b = elim (iterate_children_ids id count b) [
  | ok ids ↦ ok (present b ids)
  | raised e ↦ raised e
]

unfoldable pub add_children : ℕ → List ℕ → Backend → Backend
unfolding children
add_children id ids b = record b { tree = Dict.insert id (update (children id b) ids) b.tree }

unfoldable pub get_value : ℕ → Backend → Answer ValueHolder
get_value id b = elim (Dict.lookup id b.values) [
  | none ↦ raised (result_value_lost id)
  | some v ↦ ok v
]

unfoldable pub set_value : ℕ → ValueHolder → Backend → Backend
set_value id v b = record b { values = Dict.insert id v b.values }

unfoldable pub get_metadata : ℕ → Backend → Dict String Value
unfolding Dict.get_or
get_metadata id b = Dict.get_or id [] b.metadata

merge : Dict String Value → Dict String Value → Dict String Value
merge m [] = m
merge m ((k, v) ∷ more) = merge (Dict.insert k v m) more

unfoldable pub set_metadata : ℕ → Dict String Value → Backend → Backend
unfolding get_metadata merge
set_metadata id kwargs b = record b {
  metadata = Dict.insert id (merge (get_metadata id b) kwargs) b.metadata;
}

-- The part of `delete` behind its loop. The children's table is left as it is.
unfoldable pub forget : ℕ → Backend → Backend
forget id b = record b {
  results = Dict.remove id b.results;
  values = Dict.remove id b.values;
  metadata = Dict.remove id b.metadata;
}

-- `delete`, on fuel for the depth of the recursion; `none` means that the fuel ran out.
delete_all : (ℕ → Backend → Option Backend) → List ℕ → Backend → Option Backend
delete_all delete_one [] b = some b
delete_all delete_one (c ∷ cs) b = elim (delete_one c b) [
  | none ↦ none
  | some b' ↦ delete_all delete_one cs b'
]

unfoldable pub delete : ℕ → Bool → ℕ → Backend → Option Backend
unfolding delete_all forget children
delete zero include_children id b = none
delete (suc fuel) include_children id b = elim include_children [
  | false ↦ some (forget id b)
  | true ↦ elim (delete_all (delete fuel true) (children id b) b) [
    | none ↦ none
    | some b' ↦ some (forget id b')
  ]
]

-- `set_ttl` does nothing in memory.
unfoldable pub set_ttl : ℕ → ℕ → Bool → Backend → Backend
set_ttl id ttl include_children b = b

unfoldable pub close : Backend → Backend
close b = empty
