-- ===== src/Model/StateSets.antt =====
-- How the state sets of mognet/model/result_state.py divide the states.
use project_mognet.Prelude.{◌≡◌, refl, false, not, ◌||◌, ◌&&◌}
use project_mognet.Model.State.{
  ResultState, pending, suspended, state_eq, is_in, started_states, error_states, success_states,
  ready_states, unready_states, stopped_states,
}

-- Every state is ready or unready and never both; the ready states are the success and the error
-- states, which are disjoint; the stopped states are those that are ready or SUSPENDED.
pub state_sets_divide :
    (s : ResultState)
    → (is_in s unready_states ≡ not (is_in s ready_states))
      × (is_in s ready_states ≡ (is_in s success_states || is_in s error_states))
      × ((is_in s success_states && is_in s error_states) ≡ false)
      × (is_in s stopped_states ≡ (state_eq s suspended || is_in s ready_states))
      × (is_in s unready_states ≡ (state_eq s pending || is_in s started_states))
unfolding is_in
state_sets_divide pending = (refl, refl, refl, refl, refl)
state_sets_divide _ = (refl, refl, refl, refl, refl)
