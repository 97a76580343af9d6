-- ===== src/Backend/View.antt =====
-- What a result backend promises to its callers, whatever it keeps results in: what can be read of
-- each id, and how each change of mognet/backend/base_result_backend.py changes what is read.
use project_mognet.Prelude.{
  ℕ, ◌≡◌, String, Bool, true, false, ◌||◌, Option, some, List, [], ◌∷◌, if◌then◌else◌, contains,
  All,
}
use project_mognet.Redis.{over}
use project_mognet.Prelude.Dict
use project_mognet.Prelude.Dict.{Dict}
use project_mognet.Prelude.Eq.{nat_eq, string_eq, ◌==◌}
use project_mognet.Model.Value.{Value, info, ValueHolder}
use project_mognet.Model.Result.{Result}
use project_mognet.Backend.Memory.{Answer, ok}

-- The answers of `get` and `get_value`, the members of the children, and the metadata by key.
pub record View : Type 0 where
  pub result : ℕ → Answer (Option Result)
  pub value : ℕ → Answer ValueHolder
  pub child : ℕ → ℕ → Bool
  pub metadata : ℕ → String → Option Value

-- The calls that change a backend, beside deletion.
pub data Change : Type 0 where
  saved : (id : ℕ) → Result → Change
  value_saved : (id : ℕ) → ValueHolder → Change
  children_added : (id : ℕ) → List ℕ → Change
  metadata_set : (id : ℕ) → Dict String Value → Change

unfoldable pub change : Change → View → View
change (saved id r) v = record v { result = λ j. if id == j then ok (some r) else v.result j }
change (value_saved id h) v = record v { value = λ j. if id == j then ok h else v.value j }
change (children_added id ids) v = record v {
  child = λ j x. v.child j x || (if id == j then contains x ids else false);
}
change (metadata_set id kwargs) v = record v {
  metadata =
      λ j k. if id == j then over (Dict.lookup k kwargs) (v.metadata j k) else v.metadata j k;
}

unfoldable pub change_all : List Change → View → View
unfolding change
change_all [] v = v
change_all (ch ∷ more) v = change_all more (change ch v)

-- Whether `json` can write a value.
abbrev pub is_json : Value → Bool
is_json (info i) = false
is_json _ = true

-- Keyword arguments have each name once, and are ones that every backend can write.
abbrev pub IsCall : Change → Type 0
IsCall (metadata_set id kwargs) =
    Dict.IsDistinct kwargs × All (λ entry. is_json (entry.1) ≡ true) kwargs
IsCall _ = Unit

abbrev pub Reads : View → View → Type 0
Reads v w =
    ((j : ℕ) → v.result j ≡ w.result j)
    × ((j : ℕ) → v.value j ≡ w.value j)
    × ((j x : ℕ) → v.child j x ≡ w.child j x)
    × ((j : ℕ) (k : String) → v.metadata j k ≡ w.metadata j k)

pub View_ext : (v w : View) → Reads v w → v ≡ w
View_ext v w (results, values, children, entries) = λ i. record {
  result = λ j. results j i;
  value = λ j. values j i;
  child = λ j x. children j x i;
  metadata = λ j k. entries j k i;
}
