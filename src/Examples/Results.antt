-- ===== src/Examples/Results.antt =====
-- The theorems on results and their backend, each at a concrete input.
use project_mognet.Prelude.{
  ℕ, ◌<◌, ◌≡◌, inl, refl, true, none, some, List, [], ◌∷◌, arith, contains, if◌then◌else◌,
}
use project_mognet.Prelude.Dict
use project_mognet.Prelude.Eq.{nat_eq, ◌==◌}
use project_mognet.Model.State.{success, failure}
use project_mognet.Model.Value.{json, plain}
use project_mognet.Model.Result.{fresh}
use project_mognet.Backend.Memory
use project_mognet.Backend.Memory.{Backend, ok, raised, delete, children}
use project_mognet.Backend.Memory.Deletion.{
  Below, here, down, table, entry, nothing, delete_removes, delete_keeps,
}
use project_mognet.Lifecycle.{set_result, set_error, get}
use project_mognet.Lifecycle.Reading.{get-set_result, get-set_error}
use project_mognet.Lifecycle.Counting.{Call, starts, suspends, calls, calls_stored}
use project_mognet.Lifecycle.Tree.{tree}
use project_mognet.Examples.{python, backend}

get-set_result_example :
    let (r', b') = set_result python (json "3") success 9 (fresh 1) backend in
    get python r' b' ≡ ok (json "3")
get-set_result_example = get-set_result python (json "3") 9 (fresh 1) backend refl

get-set_error_example :
    let (r', b') = set_error python (plain "no") failure 9 (fresh 1) backend in
    get python r' b' ≡ raised (plain "no")
get-set_error_example =
    get-set_error python (plain "no") failure 9 (fresh 1) backend refl (inl refl)

abbrev two_calls : List Call
two_calls = starts none 5 ∷ suspends ∷ []

calls_stored_example :
    Memory.get 2 (calls python two_calls (fresh 1) backend).1 ≡ Memory.get 2 backend
calls_stored_example = calls_stored python (starts none 5) (suspends ∷ []) (fresh 1) backend 2

-- The request 1 above its child 2.
abbrev rank : ℕ → ℕ
rank i = if i == 1 then 1 else 0

acyclic : (i c : ℕ) → contains c (children i backend) ≡ true → rank c < rank i
unfolding children Dict.get_or Dict.lookup contains
acyclic i c m = ground (arith, m)

delete_removes_example :
    (b' : Backend) × (delete 2 true 1 backend ≡ some b')
    × (entry 2 b' ≡ nothing)
    × (b'.tree ≡ backend.tree)
unfolding children Dict.get_or Dict.lookup contains
delete_removes_example =
    delete_removes rank 2 1 2 backend acyclic (omega arith) (down 1 2 refl here)

alone : ¬ Below (table backend) 1 2
unfolding children Dict.get_or Dict.lookup contains
alone (down i c m h) = ground (arith, m)

delete_keeps_example :
    (b' : Backend) × (delete 1 true 2 backend ≡ some b') × (entry 1 b' ≡ entry 1 backend)
delete_keeps_example = delete_keeps rank 1 2 1 backend acyclic (omega arith) alone

-- Both requests have an entry in the table of children.
abbrev family : Backend
family = record backend { tree = (1, 2 ∷ []) ∷ (2, []) ∷ [] }
