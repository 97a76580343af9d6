-- ===== src/Model/State.antt =====
-- mognet/model/result_state.py: the states of a result and the sets that the code tests them by.
use project_mognet.Prelude.{Bool, true, false, List, [], ◌∷◌, ◌++◌, ◌||◌}

pub data ResultState : Type 0 where
  pending running suspended success failure revoked invalid : ResultState

unfoldable pub state_eq : ResultState → ResultState → Bool
state_eq pending pending = true
state_eq running running = true
state_eq suspended suspended = true
state_eq success success = true
state_eq failure failure = true
state_eq revoked revoked = true
state_eq invalid invalid = true
state_eq _ _ = false

-- `state in states`
unfoldable pub is_in : ResultState → List ResultState → Bool
unfolding state_eq
is_in s [] = false
is_in s (t ∷ ts) = state_eq s t || is_in s ts

abbrev pub started_states : List ResultState
started_states = running ∷ suspended ∷ []

abbrev pub error_states : List ResultState
error_states = revoked ∷ failure ∷ invalid ∷ []

abbrev pub success_states : List ResultState
success_states = success ∷ []

abbrev pub ready_states : List ResultState
ready_states = success_states ++ error_states

abbrev pub unready_states : List ResultState
unready_states = pending ∷ started_states

abbrev pub stopped_states : List ResultState
stopped_states = suspended ∷ ready_states
