-- ===== src/Examples/Tasks.antt =====
-- The theorems on the worker and the application, each at a concrete input.
use project_mognet.Lifecycle
use project_mognet.Model.State.{pending}
use project_mognet.Prelude.{
  ℕ, length, ◌||◌, if◌then◌else◌, false, inr, contains, ◌≡◌, ◌↔◌, refl, true, none, some, [], ◌∷◌,
  arith, contains,
}
use project_mognet.Prelude.Dict
use project_mognet.Prelude.Eq.{nat_eq, ◌==◌}
use project_mognet.Model.State.{success, failure, error_states, is_in}
use project_mognet.Model.Value.{json, too_many_retries}
use project_mognet.Model.Result.{Result, fresh, done, unexpected_retry_count}
use project_mognet.Backend.Memory
use project_mognet.Backend.Memory.{Backend}
use project_mognet.Worker.Admission.{proceed, admit}
use project_mognet.Worker.Admission.Decision.{
  MayRun, IsAlive, admit-proceed_iff, admit-refuse_error,
}
use project_mognet.Worker.Node.{Node, add_waiting_task, remove_suspended_task}
use project_mognet.Worker.Processing.{returned, run_request, process_request_message}
use project_mognet.Worker.Processing.Balance.{IsBalanced, begun, run_request-IsBalanced}
use project_mognet.Worker.Processing.Accounts.{IsSettled, run_request_refused}
use project_mognet.Worker.Processing.Agreement.{CodeIsAgreed, process_request_message-IsAgreed}
use project_mognet.Worker.Throttling.{IsAgreed, IsPrefetch, waiting_IsThrottled}
use project_mognet.Registry.{get_task_function}
use project_mognet.Backend.Memory.{ok, raised}
use project_mognet.Config.{get_task_route}
use project_mognet.Request.{Request, plain_request}
use project_mognet.Worker.Node.{task_sent}
use project_mognet.App.{submit, prepare, on_submitting}
use project_mognet.App.Submission.{carrying, submit-sends_once, submit-child}
use project_mognet.Examples.{config, registry, code, setting, add_request, backend, busy, around}

admit-proceed_iff_example :
    (admit config registry 5 add_request (fresh 1) backend ≡ proceed)
    ↔ MayRun config registry 5 add_request (fresh 1) backend
admit-proceed_iff_example = admit-proceed_iff config registry 5 add_request (fresh 1) backend

runs : MayRun config registry 10 add_request (fresh 1) backend
unfolding done unexpected_retry_count get_task_function Dict.lookup is_in
runs = record {
  open_yet = refl;
  few_retries = omega arith;
  shallow = omega arith;
  parents_alive = tt;
  in_time = tt;
  known = (7, refl);
}

run_request-IsBalanced_example :
    IsBalanced setting 1 (fresh 1) success (run_request setting add_request busy).0.backend
unfolding Memory.get Dict.lookup Lifecycle.start Memory.set Dict.insert
run_request-IsBalanced_example =
    run_request-IsBalanced setting (fresh 1) add_request (begun setting (fresh 1) add_request busy)
      busy (returned (json "3")) refl refl
      ((admit-proceed_iff config registry 10 add_request (fresh 1) backend).1 runs) refl refl refl
      (λ e. cc) (inr refl)

-- A result that was started five times and never stopped.
abbrev worn : Result
worn = record (fresh 1) { number_of_starts = 5 }

abbrev worn_node : Node
worn_node = record busy { backend = record backend { results = (1, worn) ∷ [] } }

run_request_refused_example :
    (run_request setting add_request worn_node ≡ run_request setting add_request worn_node)
    × IsSettled 1
        (record worn { finished = some 10; state = failure; number_of_stops = 1 })
        (run_request setting add_request worn_node).0
unfolding Memory.get Dict.lookup admit done is_in unexpected_retry_count
run_request_refused_example =
    run_request_refused setting code (too_many_retries 1 5 3) failure worn add_request worn_node
      refl refl refl

admit-refuse_error_example : is_in failure error_states ≡ true
unfolding admit done is_in unexpected_retry_count
admit-refuse_error_example =
    admit-refuse_error config registry 10 add_request worn backend (too_many_retries 1 5 3) failure
      refl

gone : ¬ IsAlive backend 9
unfolding Memory.get Dict.lookup
gone (r, e, _) = cc

waiting_IsThrottled_example :
    let more = add_waiting_task config 1 busy in
    let fewer = remove_suspended_task config 1 busy in
    (IsPrefetch config config.maximum_concurrency (length more.waiting_tasks) more.current_prefetch
      × IsAgreed more
      × ((j : ℕ) → contains j more.waiting_tasks ≡ ((1 == j) || contains {A = ℕ} j (4 ∷ [])))
      × (length more.waiting_tasks ≡ (if contains {A = ℕ} 1 (4 ∷ []) then 1 else 2)))
    × IsPrefetch config config.maximum_concurrency
        (length fewer.waiting_tasks)
        fewer.current_prefetch
    × IsAgreed fewer
    × ((j : ℕ)
        → contains j fewer.waiting_tasks ≡ (if 1 == j then false else contains {A = ℕ} j (4 ∷ [])))
waiting_IsThrottled_example = waiting_IsThrottled config 1 busy refl refl

agreed : CodeIsAgreed setting
agreed = record { body_agrees = λ req n h. h; stop_agrees = λ req n h. h }

process_request_message-IsAgreed_example :
    IsAgreed (process_request_message setting 50 add_request busy)
process_request_message-IsAgreed_example =
    process_request_message-IsAgreed setting agreed 50 add_request busy refl

abbrev child_request : Request
child_request = plain_request 3 "add"

submit-sends_once_example :
    let sent = on_submitting config around [] (prepare config around none child_request) in
    let (answer, n') = submit config around 10 none child_request busy in
    (n'.effects ≡ task_sent (get_task_route config sent) (carrying config around 10 sent) ∷ [])
    × ((r : Result) × (r.id ≡ 3)
        × (r.state ≡ pending)
        × (answer ≡ ok r)
        × (Memory.get 3 n'.backend ≡ some r))
submit-sends_once_example = submit-sends_once config around 10 none child_request busy

submit-child_example :
    let ready = prepare config around (some add_request) child_request in
    let after = (submit config around 10 (some add_request) child_request busy).1.backend in
    ((r : Result) × (Memory.get 3 after ≡ some r)
      × (r.id ≡ 3)
      × (r.state ≡ pending)
      × (r.name ≡ some "add")
      × (r.created ≡ some 10)
      × (r.parent_id ≡ some 1))
    × (ready.stack ≡ 1 ∷ [])
    × (contains 3 (Memory.children 1 after) ≡ true)
unfolding prepare
submit-child_example = submit-child config around 10 add_request child_request busy refl
