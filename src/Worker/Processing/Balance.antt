-- ===== src/Worker/Processing/Balance.antt =====
-- The starts and stops of a result while its request runs (worker.py, `_run_request`).
use project_mognet.Prelude.{
  ℕ, ◌+◌, ◌≡◌, ◌≢◌, refl, true, ◌⊎◌, inl, inr, false, ap, ◌∙◌, Bool-cases, Option, none, some,
  if◌then◌else◌, arith, is_some, ◌&&◌,
}
use project_mognet.Prelude.Dict
use project_mognet.Prelude.Eq.{nat_eq}
use project_mognet.Model.State.{
  ResultState, running, success, failure, revoked, suspended, invalid, is_in, error_states,
}
use project_mognet.Model.Value.{Exn, invalid_task_arguments}
use project_mognet.Model.Result.{Result, unexpected_retry_count}
use project_mognet.Request.{Request}
use project_mognet.Backend.Memory
use project_mognet.Backend.Memory.{Backend}
use project_mognet.Lifecycle
use project_mognet.Worker.Node.{Node, task_starting, Holder, emit, with_backend}
use project_mognet.Worker.Admission.{proceed, admit}
use project_mognet.Worker.Processing.{
  Outcome, returned, failed, paused, cancelled, rejected, Setting, settle, execute, proceed_by,
  run_request, suspend_holder, is_running, is_timeout, seen_again,
}
use project_mognet.Worker.Processing.Accounts.{
  stopped, run_request_admitted, refuse_request-IsSettled, complete_result-IsSettled,
}

module _ (setting : Setting) where
  open setting use {config, registry, py, code, shared, now, later}

  -- The object that is started, and the state in which an outcome leaves it.
  abbrev pub started : Result → Result
  started r = record r {
    started = some now;
    node_id = some config.node_id;
    state = running;
    number_of_starts = r.number_of_starts + 1;
  }

  abbrev pub final_state : Request → Outcome → ResultState
  final_state req (returned v) = success
  final_state req paused = suspended
  final_state req cancelled = running
  final_state req rejected = invalid
  final_state req (failed exc) = if is_some req.deadline && is_timeout exc then revoked else failure

  -- The node as the task function finds it.
  abbrev pub begun : Result → Request → Node → Node
  begun r req n =
      emit (task_starting req.id)
        (with_backend (Lifecycle.start (some config.node_id) now r n.backend).1 n)

  -- One start and one stop more than before, in this state.
  pub record IsBalanced (id : ℕ) (r : Result) (state : ResultState) (b : Backend) : Type 0 where
    pub result : Result
    pub stored : Memory.get id b ≡ some result
    pub state_is : result.state ≡ state
    pub starts : result.number_of_starts ≡ r.number_of_starts + 1
    pub stops : result.number_of_stops ≡ r.number_of_stops + 1

  failed_error :
      (req : Request) (exc : Exn) → is_in (final_state req (failed exc)) error_states ≡ true
  unfolding is_in
  failed_error req exc = ground arith

  suspend_holder_stored :
      (h : Option Holder) (r : Result) (req : Request) (n : Node)
      → r.id ≡ req.id
      → is_some h ≡ true
      → Memory.get req.id (suspend_holder setting h r req n).backend
        ≡ some (record r { state = suspended; number_of_stops = r.number_of_stops + 1 })
  unfolding suspend_holder Lifecycle.suspend Memory.get Memory.set
  suspend_holder_stored none r req n e up = cc
  suspend_holder_stored (some h) r req n e up =
      let r' = record r { state = suspended; number_of_stops = r.number_of_stops + 1 } in
      ground (arith, Dict.lookup-insert r.id req.id r' n.backend.results)

  settle-IsBalanced :
      (r : Result) (req : Request) (n : Node) (o : Outcome)
      → r.id ≡ req.id
      → is_running setting req.id n ≡ true
      → o ≢ cancelled
      → IsBalanced req.id r (final_state req o) (settle setting (started r) req (n, o)).0.backend
  unfolding settle is_running
  settle-IsBalanced r req n (returned v) e up go =
      let done = complete_result-IsSettled setting v (started r) req n e in
      record {
        result = stopped setting success later (started r);
        stored = rw up done.stored;
        state_is = refl;
        starts = refl;
        stops = refl;
      }
  settle-IsBalanced r req n paused e up go = record {
    result = record (started r) { state = suspended; number_of_stops = r.number_of_stops + 1 };
    stored = suspend_holder_stored (Dict.lookup req.id n.running_tasks) (started r) req n e up;
    state_is = refl;
    starts = refl;
    stops = refl;
  }
  settle-IsBalanced r req n cancelled e up go = absurd (go refl)
  settle-IsBalanced r req n rejected e up go =
      let done =
        refuse_request-IsSettled setting invalid_task_arguments invalid later (started r) req n e
          (unfold is_in in refl) in
      record {
        result = stopped setting invalid later (started r);
        stored = done.stored;
        state_is = refl;
        starts = refl;
        stops = refl;
      }
  settle-IsBalanced r req n (failed exc) e up go =
      let state = final_state req (failed exc) in
      let done =
        refuse_request-IsSettled setting exc state later (started r) req n e
          (failed_error req exc) in
      record {
        result = stopped setting state later (started r);
        stored = rw up done.stored;
        state_is = refl;
        starts = refl;
        stops = refl;
      }

  -- The backend hands out new objects, or the object that was started is kept as the task left it.
  abbrev pub IsUndisturbed : ℕ → Result → Backend → Type 0
  IsUndisturbed id r b = (shared ≡ false) ⊎ (Memory.get id b ≡ some (started r))

  seen_undisturbed :
      (id : ℕ) (r : Result) (b : Backend)
      → r.id ≡ id
      → IsUndisturbed id r b
      → seen_again setting (started r) b ≡ started r
  unfolding seen_again
  seen_undisturbed id r b same (inl copies) = rw (seen_again, copies) refl
  seen_undisturbed id r b same (inr kept) = elim (Bool-cases shared) [
    | inl live ↦ rw (seen_again, live, ap (λ i. Memory.get i b) same ∙ kept) refl
    | inr copies ↦ rw (seen_again, copies) refl
  ]

  execute-IsBalanced :
      (r : Result) (req : Request) (n₁ n : Node) (o : Outcome)
      → r.id ≡ req.id
      → code.accepts req ≡ true
      → code.body req (begun r req n) ≡ (n₁, o)
      → is_running setting req.id n₁ ≡ true
      → o ≢ cancelled
      → IsUndisturbed req.id r n₁.backend
      → IsBalanced req.id r (final_state req o) (execute setting r req n).0.backend
  unfolding execute Lifecycle.start
  execute-IsBalanced r req n₁ n o e good ran up go alone =
      rw (good, ran, seen_undisturbed req.id r n₁.backend e alone)
        (settle-IsBalanced r req n₁ o e up go)

  -- A request that proceeds, and that is still among the running tasks when its task function ends
  -- other than by a cancellation, leaves its result with one start and one stop more than it had, in
  -- the state that goes with the outcome: SUCCESS, FAILURE, SUSPENDED behind a pause, INVALID behind a
  -- validation error, and REVOKED for a timeout of a request with a deadline. What the backend holds
  -- for it in between does not matter where the backend hands out a new object at each call, as the
  -- Redis backend does. Where it hands out the one that it keeps, as the memory backend does, it must
  -- be what was started: a task that waits for others suspends and resumes that very object.
  pub run_request-IsBalanced :
      (r : Result) (req : Request) (n₁ n : Node) (o : Outcome)
      → Memory.get req.id n.backend ≡ some r
      → r.id ≡ req.id
      → admit config registry now req r n.backend ≡ proceed
      → code.accepts req ≡ true
      → code.body req (begun r req n) ≡ (n₁, o)
      → is_some (Dict.lookup req.id n₁.running_tasks) ≡ true
      → o ≢ cancelled
      → IsUndisturbed req.id r n₁.backend
      → IsBalanced req.id r (final_state req o) (run_request setting req n).0.backend
  unfolding proceed_by is_running
  run_request-IsBalanced r req n₁ n o there e go good ran up live alone =
      rw (run_request_admitted setting proceed r req n there go)
        (execute-IsBalanced r req n₁ n o e good ran up live alone)

  -- So a run that returns leaves the count of unexpected retries as it was.
  retry_count-IsBalanced :
      (id : ℕ) (r : Result) (state : ResultState) (b : Backend) (h : IsBalanced id r state b)
      → unexpected_retry_count h.result ≡ unexpected_retry_count r
  unfolding unexpected_retry_count
  retry_count-IsBalanced id r state b h = ground (arith, h.starts, h.stops)
