-- ===== src/Worker/Node.antt =====
-- The state of a node, and the parts of the class `Worker` (worker.py) that keep its books: running
-- and waiting tasks, and the prefetch count. What leaves the node is kept as a list of effects.
use project_mognet.Prelude.{
  ℕ, ◌+◌, String, Bool, leb, Option, none, some, List, [], ◌∷◌, ◌++◌, length, if◌then◌else◌, add,
  discard,
}
use project_mognet.Prelude.Dict
use project_mognet.Prelude.Dict.{Dict}
use project_mognet.Prelude.Eq.{nat_eq, ◌==◌}
use project_mognet.Model.Value.{Value}
use project_mognet.Model.Result.{Result}
use project_mognet.Backend.Memory.{Backend}
use project_mognet.Request.{Request, Message}
use project_mognet.Config.{AppConfig}

-- `MessageCancellationAction`
pub data CancellationAction : Type 0 where
  nothing ack nack : CancellationAction

-- Calls that leave the node: on the message of a request, on the broker, and on the middleware.
-- `count_changed` is the task that reports the number of running tasks.
pub data Effect : Type 0 where
  acked nacked : (message : ℕ) → Effect
  prefetch_set : (prefetch : ℕ) → Effect
  task_sent : (queue : String) → Message → Effect
  control_sent : Message → Effect
  reply_sent : (reply_to : String) → Message → Effect
  task_starting : (request : ℕ) → Effect
  task_completed : (request : ℕ) → Result → Effect
  count_changed : Effect

-- `_RequestProcessorHolder`: the message, the request, and whether the task is still referred to.
pub record Holder : Type 0 where
  pub message : ℕ
  pub request : Request
  pub has_task : Bool

pub record Node : Type 0 where
  pub backend : Backend
  pub states : Dict ℕ (Dict String Value)
  pub running_tasks : Dict ℕ Holder
  pub waiting_tasks : List ℕ
  pub current_prefetch : ℕ
  pub consuming : Bool
  pub effects : List Effect

abbrev pub emit : Effect → Node → Node
emit e n = record n { effects = n.effects ++ e ∷ [] }

abbrev pub with_backend : Backend → Node → Node
with_backend b n = record n { backend = b }

unfoldable pub add_running_task : ℕ → Holder → Node → Node
add_running_task id h n =
    emit count_changed (record n { running_tasks = Dict.insert id h n.running_tasks })

unfoldable pub remove_running_task : ℕ → Node → Option Holder × Node
remove_running_task id n = (
  Dict.lookup id n.running_tasks,
  emit count_changed (record n { running_tasks = Dict.remove id n.running_tasks }),
)

unfoldable pub waiting_task_count : Node → ℕ
waiting_task_count n = length n.waiting_tasks

-- The prefetch count for `waiting` waiting tasks: the minimum and one for each, up to the maximum.
unfoldable pub target_prefetch : AppConfig → ℕ → ℕ
target_prefetch config waiting =
    let prefetch = waiting + config.minimum_concurrency in
    elim config.maximum_concurrency [
      | none ↦ prefetch
      | some most ↦ if leb most prefetch then most else prefetch
    ]

unfoldable pub adjust_prefetch : AppConfig → Node → Node
unfolding target_prefetch waiting_task_count
adjust_prefetch config n =
    let prefetch = target_prefetch config (waiting_task_count n) in
    if n.consuming
    then (if prefetch == n.current_prefetch
        then n
        else emit (prefetch_set prefetch) (record n { current_prefetch = prefetch }))
    else n

unfoldable pub add_waiting_task : AppConfig → ℕ → Node → Node
unfolding adjust_prefetch
add_waiting_task config id n =
    adjust_prefetch config (record n { waiting_tasks = add id n.waiting_tasks })

unfoldable pub remove_suspended_task : AppConfig → ℕ → Node → Node
unfolding adjust_prefetch
remove_suspended_task config id n =
    adjust_prefetch config (record n { waiting_tasks = discard id n.waiting_tasks })
