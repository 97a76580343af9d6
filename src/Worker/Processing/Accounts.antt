-- ===== src/Worker/Processing/Accounts.antt =====
-- What a run leaves in the backend for its request (worker.py, `_run_request`).
use project_mognet.Prelude.{
  ℕ, ◌+◌, ◌≡◌, refl, sym, ◌∙◌, ap, true, false, none, some, if◌then◌else◌, arith, contains, discard,
  contains-discard,
}
use project_mognet.Prelude.Dict
use project_mognet.Prelude.Eq.{nat_eq}
use project_mognet.Model.State.{ResultState, success, is_in, error_states}
use project_mognet.Model.Value.{Value, Exn}
use project_mognet.Model.Result.{Result, done}
use project_mognet.Config.{AppConfig}
use project_mognet.Request.{Request}
use project_mognet.Backend.Memory
use project_mognet.Backend.Memory.{Backend}
use project_mognet.Lifecycle
use project_mognet.Worker.Node.{Node, with_backend, adjust_prefetch, remove_suspended_task}
use project_mognet.Worker.Admission.{Verdict, already_done, refuse, admit}
use project_mognet.Worker.Admission.Decision.{admit-refuse_error}
use project_mognet.Worker.Processing.{
  TaskCode, Setting, on_complete, refuse_request, proceed_by, run_request, run_found,
}

-- An adjustment of the prefetch count touches nothing else that is kept.
adjust_prefetch_keeps :
    (config : AppConfig) (n : Node)
    → ((adjust_prefetch config n).backend ≡ n.backend)
      × ((adjust_prefetch config n).states ≡ n.states)
      × ((adjust_prefetch config n).waiting_tasks ≡ n.waiting_tasks)
      × ((adjust_prefetch config n).running_tasks ≡ n.running_tasks)
unfolding adjust_prefetch
adjust_prefetch_keeps config n = ground arith

-- What a finished request leaves: its result, no state, and no entry among the waiting tasks.
pub record IsSettled (id : ℕ) (r : Result) (n : Node) : Type 0 where
  pub stored : Memory.get id n.backend ≡ some r
  pub cleared : Dict.lookup id n.states ≡ none
  pub not_waiting : contains id n.waiting_tasks ≡ false

module _ (setting : Setting) where
  open setting use {config, registry, py, code, now, later}

  -- The task's state is cleared for a result that is done, and it no longer counts as waiting.
  on_complete_lem :
      (id : ℕ) (r : Result) (n : Node)
      → let n' = on_complete setting id r n in
        (n'.backend ≡ n.backend)
        × (done r ≡ true → Dict.lookup id n'.states ≡ none)
        × (contains id n'.waiting_tasks ≡ false)
  unfolding on_complete remove_suspended_task
  on_complete_lem id r n =
      let cleared : Node = record n {
        states = if done r then Dict.remove id n.states else n.states;
        waiting_tasks = discard id n.waiting_tasks;
      } in
      ground (
        arith,
        adjust_prefetch_keeps config cleared,
        Dict.lookup-remove id id n.states,
        contains-discard id id n.waiting_tasks,
      )

  abbrev pub stopped : ResultState → ℕ → Result → Result
  stopped state time r = record r {
    finished = some time;
    state = state;
    number_of_stops = r.number_of_stops + 1;
  }

  pub set_error_lem :
      (exc : Exn) (state : ResultState) (time id : ℕ) (r : Result) (b : Backend)
      → r.id ≡ id
      → let (r', b') = Lifecycle.set_error py exc state time r b in
        (r' ≡ stopped state time r) × (Memory.get id b' ≡ some (stopped state time r))
  unfolding Lifecycle.set_error Memory.get Memory.set Memory.set_value
  set_error_lem exc state time id r b e =
      (refl, ground (arith, Dict.lookup-insert r.id id (stopped state time r) b.results))

  set_result_lem :
      (v : Value) (state : ResultState) (time id : ℕ) (r : Result) (b : Backend)
      → r.id ≡ id
      → let (r', b') = Lifecycle.set_result py v state time r b in
        (r' ≡ stopped state time r) × (Memory.get id b' ≡ some (stopped state time r))
  unfolding Lifecycle.set_result Memory.get Memory.set Memory.set_value
  set_result_lem v state time id r b e =
      (refl, ground (arith, Dict.lookup-insert r.id id (stopped state time r) b.results))

  on_complete-IsSettled :
      (id : ℕ) (r : Result) (n : Node)
      → Memory.get id n.backend ≡ some r
      → done r ≡ true
      → IsSettled id r (on_complete setting id r n)
  on_complete-IsSettled id r n e d =
      let (same, cleared, idle) = on_complete_lem id r n in
      record {
        stored = ap (λ (b : Backend). Memory.get id b) same ∙ e;
        cleared = cleared d;
        not_waiting = idle;
      }

  done_of_error :
      (state : ResultState) (time : ℕ) (r : Result)
      → is_in state error_states ≡ true
      → done (stopped state time r) ≡ true
  unfolding done is_in
  done_of_error state time r e = ground arith

  pub refuse_request-IsSettled :
      (exc : Exn) (state : ResultState) (time : ℕ) (r : Result) (req : Request) (n : Node)
      → r.id ≡ req.id
      → is_in state error_states ≡ true
      → IsSettled req.id (stopped state time r) (refuse_request setting exc state time r req n)
  unfolding refuse_request
  refuse_request-IsSettled exc state time r req n e s =
      let (same, stored) = set_error_lem exc state time req.id r n.backend e in
      let b' = (Lifecycle.set_error py exc state time r n.backend).1 in
      rw same (
        on_complete-IsSettled req.id (stopped state time r) (with_backend b' n) stored
          (done_of_error state time r s))

  pub complete_result-IsSettled :
      (v : Value) (r : Result) (req : Request) (n : Node)
      → r.id ≡ req.id
      → let (r', b') = Lifecycle.set_result py v success later r n.backend in
        IsSettled req.id
          (stopped success later r)
          (on_complete setting req.id r' (with_backend b' n))
  complete_result-IsSettled v r req n e =
      let (same, stored) = set_result_lem v success later req.id r n.backend e in
      let b' = (Lifecycle.set_result py v success later r n.backend).1 in
      rw same (
        on_complete-IsSettled req.id (stopped success later r) (with_backend b' n) stored
          (unfold done is_in in refl))

  pub run_request_admitted :
      (v : Verdict) (r : Result) (req : Request) (n : Node)
      → Memory.get req.id n.backend ≡ some r
      → admit config registry now req r n.backend ≡ v
      → run_request setting req n ≡ proceed_by setting v r req n
  unfolding run_request run_found
  run_request_admitted v r req n there e = rw (there, run_found, e) refl

module _ (setting : Setting) where
  open setting use {config, registry, py, code, now, later}

  refused_uncalled :
      (code' : TaskCode) (exc : Exn) (state : ResultState) (r : Result) (req : Request) (n : Node)
      → proceed_by (record setting { code = code' }) (refuse exc state) r req n
        ≡ proceed_by setting (refuse exc state) r req n
  unfolding proceed_by refuse_request on_complete
  refused_uncalled code' exc state r req n = refl

  -- A request that is refused ends without a call of its task function, whatever that is: its result
  -- has the state and one stop more, its state is cleared, and it does not wait.
  pub run_request_refused :
      (code' : TaskCode) (exc : Exn) (state : ResultState) (r : Result) (req : Request) (n : Node)
      → Memory.get req.id n.backend ≡ some r
      → r.id ≡ req.id
      → admit config registry now req r n.backend ≡ refuse exc state
      → (run_request (record setting { code = code' }) req n ≡ run_request setting req n)
        × IsSettled req.id
            (record r {
              finished = some now;
              state = state;
              number_of_stops = r.number_of_stops + 1;
            })
            (run_request setting req n).0
  unfolding proceed_by
  run_request_refused code' exc state r req n there e refused = (
    run_request_admitted (record setting { code = code' }) (refuse exc state) r req n there refused
        ∙ refused_uncalled code' exc state r req n
        ∙ sym (run_request_admitted setting (refuse exc state) r req n there refused),
    rw (run_request_admitted setting (refuse exc state) r req n there refused) (
        refuse_request-IsSettled setting exc state now r req n e
          (admit-refuse_error config registry now req r n.backend exc state refused)),
  )

  -- A request whose result is done changes nothing in the backend, and no task function is called.
  pub run_request-done :
      (r : Result) (req : Request) (n : Node)
      → Memory.get req.id n.backend ≡ some r
      → done r ≡ true
      → ((run_request setting req n).0.backend ≡ n.backend)
        × IsSettled req.id r (run_request setting req n).0
  unfolding proceed_by
  run_request-done r req n there d =
      let step = run_request_admitted setting already_done r req n there (done_admitted) in
      rw step
        ((on_complete_lem setting req.id r n).0, on_complete-IsSettled setting req.id r n there d)
    where
      done_admitted : admit config registry now req r n.backend ≡ already_done
      done_admitted = unfold admit done in (ground arith)
