-- ===== src/Backend/Base.antt =====
-- mognet/backend/base_result_backend.py: the operations that every backend inherits.
use project_mognet.Prelude.{ℕ, Option, none, some, List, [], ◌∷◌, if◌then◌else◌}
use project_mognet.Model.Result.{Result, fresh, done}
use project_mognet.Backend.Memory.{Backend, get, set}

-- Results that do not exist are left out.
unfoldable pub get_many : List ℕ → Backend → List Result
unfolding get
get_many [] b = []
get_many (id ∷ ids) b =
    let rest = get_many ids b in elim (get id b) [ none ↦ rest | some r ↦ r ∷ rest ]

unfoldable pub get_or_create : ℕ → Backend → Result × Backend
unfolding get set
get_or_create id b = elim (get id b) [ none ↦ (fresh id, set id (fresh id) b) | some r ↦ (r, b) ]

-- `wait` against what the backend holds at each poll: the first result that is there and done.
-- `none` means that it is still waiting at the end of the polls.
unfoldable pub wait : ℕ → List Backend → Option Result
unfolding get done
wait id [] = none
wait id (b ∷ polls) =
    let later = wait id polls in
    elim (get id b) [ none ↦ later | some r ↦ if done r then some r else later ]
