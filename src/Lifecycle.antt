-- ===== src/Lifecycle.antt =====
-- mognet/model/result.py: the methods of `Result` that write to the backend or read from it. A
-- method takes the object and the backend, and returns the object as it is then and the backend. The
-- reading here is that of an object through which no value was read before; Objects has the others.
pub mod Reading
pub mod Counting
pub mod Tree
pub mod Objects
use project_mognet.Prelude.{
  ℕ, zero, suc, ◌+◌, String, Bool, true, false, Option, none, some, List, [], ◌∷◌, if◌then◌else◌,
}
use project_mognet.Prelude.Dict.{Dict}
use project_mognet.Model.State.{ResultState, running, suspended, success, revoked, state_eq}
use project_mognet.Model.Value.{
  Python, Value, null, json, info, Given, value, exception, Exn, plain, result_not_ready,
  revoked_error, result_failed, runtime_error, value_error, exception_of, hold, deserialize,
}
use project_mognet.Model.Result.{Result, done, failed}
use project_mognet.Backend.Memory
use project_mognet.Backend.Memory.{Backend, Answer, ok, raised}
use project_mognet.Backend.Base.{wait}

-- `_update`
unfoldable pub save : Result → Backend → Result × Backend
save r b = (r, Memory.set r.id r b)

unfoldable pub start : Option String → ℕ → Result → Backend → Result × Backend
unfolding save
start node now r = save (record r {
  started = some now;
  node_id = node;
  state = running;
  number_of_starts = r.number_of_starts + 1;
})

unfoldable pub resume : Option String → Result → Backend → Result × Backend
unfolding save
resume node r = save (record r {
  node_id = elim node [ none ↦ r.node_id | some n ↦ some n ];
  state = running;
  number_of_starts = r.number_of_starts + 1;
})

unfoldable pub suspend : Result → Backend → Result × Backend
unfolding save
suspend r = save (record r { state = suspended; number_of_stops = r.number_of_stops + 1 })

unfoldable pub revoke : ℕ → Result → Backend → Result × Backend
unfolding save
revoke now r =
    save
      (record r { state = revoked; number_of_stops = r.number_of_stops + 1; finished = some now })

-- The part that `set_result` and `set_error` share: the state is written behind the value.
finish : ResultState → ℕ → Result → Backend → Result × Backend
unfolding save
finish state now r =
    save (record r { finished = some now; state = state; number_of_stops = r.number_of_stops + 1 })

module _ (py : Python) where
  unfoldable pub set_raw_value : Given → ℕ → Backend → Backend
  set_raw_value given id b = Memory.set_value id (hold py given) b

  unfoldable pub set_result : Value → ResultState → ℕ → Result → Backend → Result × Backend
  unfolding finish set_raw_value
  set_result v state now r b = finish state now r (set_raw_value (value v) r.id b)

  unfoldable pub set_error : Exn → ResultState → ℕ → Result → Backend → Result × Backend
  unfolding finish set_raw_value
  set_error exc state now r b = finish state now r (set_raw_value (exception exc) r.id b)

  -- A refusal of the validation is raised as pydantic's error, which is a `ValueError`.
  unfoldable pub get_raw_value : ℕ → Backend → Answer Value
  get_raw_value id b = elim (Memory.get_value id b) [
    | raised e ↦ raised e
    | ok h ↦ elim (deserialize py h) [ none ↦ raised value_error | some v ↦ ok v ]
  ]

  -- The `if self.failed` block: the stored exception is raised again.
  rethrow : ℕ → Value → Exn
  rethrow id null = result_failed id
  rethrow id (info i) = exception_of py i
  rethrow id (json text) = plain text

  unfoldable pub settle : Result → Value → Answer Value
  unfolding rethrow state_eq
  settle r v =
      if state_eq r.state revoked
      then raised (revoked_error r.id)
      else if failed r
      then raised (rethrow r.id v)
      else ok v

  unfoldable pub get : Result → Backend → Answer Value
  unfolding get_raw_value settle done failed
  get r b =
      if done r
      then elim (get_raw_value r.id b) [ raised e ↦ raised e | ok v ↦ settle r v ]
      else raised result_not_ready

  -- `_refresh` copies every field but the id.
  unfoldable pub refresh : Result → Result → Result
  refresh updated r = record updated { id = r.id }

  -- `await result`: it waits over the polls, takes the fields over, and reads the value. `none`
  -- means that it is still waiting.
  unfoldable pub await : Result → List Backend → Backend → Option (Result × Answer Value)
  unfolding get refresh
  await r polls b = elim (wait r.id polls) [
    | none ↦ none
    | some updated ↦ let r' = refresh updated r in some (r', get r' b)
  ]
