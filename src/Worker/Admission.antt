-- ===== src/Worker/Admission.antt =====
-- The checks at the start of `Worker._run_request` (worker.py): may the request run?
pub mod Decision
use mathlib.Core.List.{reverse}
use project_mognet.Prelude.{
  ℕ, String, ◌<◌, ◌≤◌, ◌≡◌, refl, Bool, true, false, ltb, Option, none, some, List, [], ◌∷◌, length,
  if◌then◌else◌,
}
use project_mognet.Model.State.{ResultState, failure, revoked, invalid, state_eq}
use project_mognet.Model.Value.{
  Exn, too_many_retries, recursion_error, parent_missing, parent_revoked, timeout_error,
}
use project_mognet.Model.Result.{Result, done, unexpected_retry_count}
use project_mognet.Backend.Memory.{Backend, Answer, ok, raised, get}
use project_mognet.Registry.{TaskRegistry, get_task_function}
use project_mognet.Request.{Request, Deadline, within, until}
use project_mognet.Config.{AppConfig}

-- `refuse`: the request is finished with this exception and state.
pub data Verdict : Type 0 where
  already_done : Verdict
  refuse : Exn → ResultState → Verdict
  proceed : Verdict

-- The loop over the parents, from the nearest one.
unfoldable pub check_parents : Backend → List ℕ → Option Exn
unfolding get state_eq
check_parents b [] = none
check_parents b (p ∷ ps) =
    let next = check_parents b ps in
    elim (get p b) [
      | none ↦ some (parent_missing p)
      | some r ↦ if state_eq r.state revoked then some (parent_revoked r.id) else next
    ]

-- Only a point in time can be past on arrival.
unfoldable pub is_late : ℕ → Option Deadline → Bool
is_late now none = false
is_late now (some (within length)) = false
is_late now (some (until time)) = ltb time now

-- The checks behind the one for a result that is done, in their order. An empty stack passes both of
-- its checks.
check_task : TaskRegistry → Request → Verdict
check_task reg req = elim (get_task_function req.name reg) [
  | raised unknown ↦ refuse unknown invalid
  | ok f ↦ proceed
]

check_rest : AppConfig → TaskRegistry → ℕ → Request → Option Exn → Verdict
unfolding is_late check_task
check_rest config reg now req (some orphaned) = refuse orphaned revoked
check_rest config reg now req none =
    if is_late now req.deadline then refuse timeout_error revoked else check_task reg req

unfoldable pub admit : AppConfig → TaskRegistry → ℕ → Request → Result → Backend → Verdict
unfolding done unexpected_retry_count check_parents check_rest
admit config reg now req r b =
    let retries = unexpected_retry_count r in
    if done r
    then already_done
    else if ltb config.max_retries retries
    then refuse (too_many_retries req.id retries config.max_retries) failure
    else if ltb config.max_recursion (length req.stack)
    then refuse recursion_error failure
    else check_rest config reg now req (check_parents b (reverse req.stack))
