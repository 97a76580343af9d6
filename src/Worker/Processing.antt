-- ===== src/Worker/Processing.antt =====
-- `Worker._run_request`, `_on_complete`, `_process_request_message` and the cancelling of a task
-- (worker.py). The code of a task, and what other coroutines do to the node while it is awaited, is
-- a parameter. Between two awaits of tasks the operations are not interleaved.
pub mod Agreement
pub mod Accounts
pub mod Balance
pub mod Shutdown
use project_mognet.Prelude.{
  ℕ, String, Bool, true, false, Option, none, some, List, [], ◌∷◌, if◌then◌else◌, is_some, ◌&&◌,
}
use project_mognet.Prelude.Dict
use project_mognet.Prelude.Eq.{nat_eq, string_eq, ◌==◌}
use project_mognet.Model.State.{ResultState, running, success, failure, revoked, invalid, state_eq}
use project_mognet.Model.Value.{Python, Value, Exn, timeout_error, invalid_task_arguments}
use project_mognet.Model.Result.{Result, done}
use project_mognet.Backend.Memory.{Backend}
use project_mognet.Backend.Memory
use project_mognet.Backend.Base.{get_or_create}
use project_mognet.Lifecycle
use project_mognet.Registry.{TaskRegistry}
use project_mognet.Request.{Request, Message, request}
use project_mognet.Config.{AppConfig}
use project_mognet.Worker.Node.{
  CancellationAction, nothing, ack, nack, acked, nacked, task_starting, task_completed, Holder,
  Node, emit, with_backend, add_running_task, remove_running_task, remove_suspended_task,
  adjust_prefetch,
}
use project_mognet.Worker.Admission.{Verdict, already_done, refuse, proceed, admit}

-- How the awaited coroutine of a task ends: `rejected` is a validation error.
pub data Outcome : Type 0 where
  returned : Value → Outcome
  failed : Exn → Outcome
  paused cancelled rejected : Outcome

-- The task functions: whether the call itself validates its arguments, what happens to the node
-- until the coroutine ends and how it ends, and what it does to the node when it is cancelled.
pub record TaskCode : Type 0 where
  pub accepts : Request → Bool
  pub body : Request → Node → Node × Outcome
  pub stop : Request → Node → Node

-- Whether `_run_request` returns or lets a cancellation through.
pub data Ending : Type 0 where
  finished interrupted : Ending

-- What stays the same while a node runs: its configuration, registry, Python and task functions,
-- whether the result backend hands out the one object that it keeps for a result, as the memory
-- backend does, or a new one at each call, as the Redis backend does, and the times at which a request is checked and at which it ends.
pub record Setting : Type 0 where
  pub config : AppConfig
  pub registry : TaskRegistry
  pub py : Python
  pub code : TaskCode
  pub shared : Bool
  pub now : ℕ
  pub later : ℕ

unfoldable pub is_timeout : Exn → Bool
is_timeout timeout_error = true
is_timeout _ = false

module _ (setting : Setting) where
  open setting use {config, registry, py, code, shared, now, later}

  unfoldable pub on_complete : ℕ → Result → Node → Node
  on_complete id r n =
      let cleared : Node = record n {
        states = if done r then Dict.remove id n.states else n.states;
      } in
      emit (task_completed id r) (remove_suspended_task config id cleared)

  -- `result.set_error` and `_on_complete` behind it.
  unfoldable pub refuse_request : Exn → ResultState → ℕ → Result → Request → Node → Node
  unfolding on_complete
  refuse_request exc state time r req n =
      let (r', b) = Lifecycle.set_error py exc state time r n.backend in
      on_complete req.id r' (with_backend b n)

  -- The handler of `Pause`, given what was taken off the running tasks.
  suspend_holder : Option Holder → Result → Request → Node → Node
  suspend_holder none r req n = n
  suspend_holder (some holder) r req n =
      let (r', b) = Lifecycle.suspend r n.backend in
      emit (nacked holder.message)
        (record n { backend = b; running_tasks = Dict.remove req.id n.running_tasks })

  is_running : ℕ → Node → Bool
  is_running id n = is_some (Dict.lookup id n.running_tasks)

  -- The handlers behind `value = await fut`; `r` is the object that was started.
  unfoldable pub settle : Result → Request → Node × Outcome → Node × Ending
  unfolding on_complete refuse_request is_timeout suspend_holder is_running
  settle r req (n, returned v) =
      let (r', b) = Lifecycle.set_result py v success later r n.backend in
      (if is_running req.id n then on_complete req.id r' (with_backend b n) else n, finished)
  settle r req (n, paused) = (suspend_holder (Dict.lookup req.id n.running_tasks) r req n, finished)
  settle r req (n, cancelled) = (n, interrupted)
  settle r req (n, rejected) =
      (refuse_request invalid_task_arguments invalid later r req n, finished)
  settle r req (n, failed exc) =
      let state = if is_some req.deadline && is_timeout exc then revoked else failure in
      (if is_running req.id n then refuse_request exc state later r req n else n, finished)

  -- The object `result` behind an await of other code: where the backend hands out its own object, what
  -- was written to that stands in it, else it is as it was.
  unfoldable pub seen_again : Result → Backend → Result
  seen_again r b = if shared then (elim (Memory.get r.id b) [ none ↦ r | some s ↦ s ]) else r

  -- The part from `result.start` on.
  unfoldable pub execute : Result → Request → Node → Node × Ending
  unfolding settle seen_again
  execute r req n =
      let (r', b) = Lifecycle.start (some config.node_id) now r n.backend in
      let started = emit (task_starting req.id) (with_backend b n) in
      let ended = code.body req started in
      let run = settle (seen_again r' ended.0.backend) req ended in
      if code.accepts req
      then run
      else (refuse_request invalid_task_arguments invalid now r' req started, finished)

  unfoldable pub proceed_by : Verdict → Result → Request → Node → Node × Ending
  unfolding on_complete refuse_request execute
  proceed_by already_done r req n = (on_complete req.id r n, finished)
  proceed_by (refuse exc state) r req n = (refuse_request exc state now r req n, finished)
  proceed_by proceed r req n = execute r req n

  run_found : Option Result → Request → Node → Node × Ending
  unfolding proceed_by
  run_found none req n = (remove_suspended_task config req.id n, finished)
  run_found (some r) req n = proceed_by (admit config registry now req r n.backend) r req n

  unfoldable pub run_request : Request → Node → Node × Ending
  unfolding run_found
  run_request req n = run_found (Memory.get req.id n.backend) req n

  -- `request_processor` and its callback: the message is acknowledged if the run returned.
  conclude : ℕ → ℕ → Node × Ending → Node
  conclude message id (n, finished) = (remove_running_task id (emit (acked message) n)).1
  conclude message id (n, interrupted) = (remove_running_task id n).1

  -- `_process_request_message` and the task that it creates, up to its end.
  unfoldable pub process_request_message : ℕ → Request → Node → Node
  unfolding conclude run_request
  process_request_message message req n =
      let holder : Holder = record { message = message; request = req; has_task = true } in
      conclude message req.id (run_request req (add_running_task req.id holder n))

  -- One round of the loop of `_start_consuming`: what is not a request is acknowledged and dropped.
  unfoldable pub receive : Message → Node → Node
  unfolding process_request_message
  receive msg n = elim msg.payload [
    | request req ↦
        if msg.kind == "Request"
        then process_request_message msg.id req n
        else emit (acked msg.id) n
    | _ ↦ emit (acked msg.id) n
  ]

  -- `start_consuming`, whose task first adjusts the prefetch count.
  unfoldable pub start_consuming : Node → Node
  unfolding adjust_prefetch
  start_consuming n =
      if n.consuming then n else adjust_prefetch config (record n { consuming = true })

  act : CancellationAction → ℕ → Node → Node
  act nothing message n = n
  act ack message n = emit (acked message) n
  act nack message n = emit (nacked message) n

  -- `_RequestProcessorHolder.cancel`: the message is settled first; then the task is cancelled and
  -- awaited, which takes the request off the running tasks once more.
  cancel_holder : Holder → CancellationAction → Node → Node
  unfolding act
  cancel_holder h action n =
      let settled = act action h.message n in
      if h.has_task
      then (remove_running_task h.request.id (code.stop h.request settled)).1
      else settled

  -- Only a result that is running on this node is suspended.
  suspend_own : ℕ → Node → Node
  suspend_own id n =
      let (r, b) = get_or_create id n.backend in
      let (r', b') = Lifecycle.suspend r b in
      let here : Bool = elim r.node_id [ none ↦ false | some node ↦ node == config.node_id ] in
      with_backend (if state_eq r.state running && here then b' else b) n

  cancel_found : Option Holder → CancellationAction → ℕ → Node → Node
  cancel_found none action id n = n
  cancel_found (some h) action id n = cancel_holder h action (suspend_own id n)

  unfoldable pub cancel : CancellationAction → ℕ → Node → Node
  unfolding cancel_holder suspend_own cancel_found
  cancel action id n =
      let (holder, n') = remove_running_task id n in cancel_found holder action id n'

  unfoldable pub cancel_each : CancellationAction → List ℕ → Node → Node
  cancel_each action [] n = n
  cancel_each action (id ∷ ids) n = cancel_each action ids (cancel action id n)

  unfoldable pub cancel_all_tasks : CancellationAction → Node → Node
  unfolding cancel_each cancel
  cancel_all_tasks action n =
      let n' = adjust_prefetch config (cancel_each action (Dict.keys n.running_tasks) n) in
      record n' { waiting_tasks = [] }

  -- `_handle_connection_lost`
  unfoldable pub handle_connection_lost : Node → Node
  unfolding cancel_all_tasks
  handle_connection_lost = cancel_all_tasks nothing

  -- `stop_consuming` as far as the node's own state goes.
  unfoldable pub stop_consuming : Node → Node
  stop_consuming n = record n { consuming = false }

  -- `Worker.close`
  unfoldable pub close : Node → Node
  unfolding cancel_all_tasks stop_consuming
  close n = cancel_all_tasks nack (stop_consuming n)
