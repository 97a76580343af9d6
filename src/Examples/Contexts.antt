-- ===== src/Examples/Contexts.antt =====
-- The theorem on a waiting request at a concrete input.
use project_mognet.Prelude.{add, ◌≡◌, refl, false, true, some, [], ◌∷◌, contains}
use project_mognet.Prelude.Dict
use project_mognet.Prelude.Eq.{nat_eq}
use project_mognet.Model.State.{running, state_eq}
use project_mognet.Model.Value.{json}
use project_mognet.Model.Result.{Result, fresh}
use project_mognet.Backend.Memory
use project_mognet.Backend.Memory.{ok}
use project_mognet.Lifecycle
use project_mognet.Worker.Node.{Node, add_waiting_task, adjust_prefetch}
use project_mognet.Context.{
  Place, Wait, answered, suspend_found, enter, run, outcome, was_cancelled,
}
use project_mognet.Context.Waiting.{resumed, paused, run-resumed}
use project_mognet.Examples.{config, backend, add_request, busy}

abbrev active : Result
active = record (fresh 1) { state = running; number_of_starts = 1 }

abbrev active_node : Node
active_node = record busy { backend = record backend { results = (1, active) ∷ [] } }

-- The other request answers 3.
abbrev answers : Place → Place × Wait
answers p = (p, answered (json "3" ∷ []))

run-resumed_example :
    let (answer, last) =
      run config add_request answers 2 (record { dependencies = []; node = active_node }) in
    let waiting = suspend_found config add_request active active_node in
    (enter config add_request (2 ∷ []) (record { dependencies = []; node = active_node })
      ≡ ok (record { dependencies = 2 ∷ []; node = waiting }))
    × (Memory.get 1 waiting.backend ≡ some (paused config add_request active))
    × (contains 1 waiting.waiting_tasks ≡ true)
    × (last.dependencies ≡ [])
    × (Memory.get 1 last.node.backend ≡ some (resumed config add_request active))
    × (contains 1 last.node.waiting_tasks ≡ false)
    × (answer ≡ outcome config add_request true (answered (json "3" ∷ [])))
unfolding Memory.get Memory.set Dict.lookup Dict.insert suspend_found add_waiting_task
    adjust_prefetch state_eq was_cancelled Lifecycle.suspend Lifecycle.save add
run-resumed_example =
    run-resumed config add_request answers 2 active active_node
      (record { dependencies = 2 ∷ []; node = suspend_found config add_request active active_node })
      (answered (json "3" ∷ [])) refl refl refl refl refl refl refl
