-- ===== src/App/Asking/Answers.antt =====
-- A request that is run, its submission, the wait for its result and the reading of its value put
-- together (mognet/app/app.py, mognet/model/result.py).
use mathlib.Core.Path.{subst}
use project_mognet.Prelude.{Bool, ℕ, ◌≡◌, refl, true, none, some, List, [], ap, ◌∙◌}
use project_mognet.Prelude.Dict
use project_mognet.Model.State.{success}
use project_mognet.Model.Value.{Python, Value}
use project_mognet.Model.Result.{Result}
use project_mognet.Backend.Memory.{Backend, Answer, ok}
use project_mognet.Backend.Base.{wait}
use project_mognet.Config.{AppConfig, get_task_route}
use project_mognet.Lifecycle
use project_mognet.Lifecycle.{set_result}
use project_mognet.Lifecycle.Reading.{get-set_result}
use project_mognet.Registry.{TaskRegistry}
use project_mognet.Request.{Request}
use project_mognet.Worker.Node.{Node}
use project_mognet.App.{
  Surroundings, submit, prepare, pending_result, on_submitting, request_message,
}
use project_mognet.App.Submission.{submit_accepted}
use project_mognet.App.Asking.{Argument, request, run, await_result, submit_call, submit_in}

module _ (py : Python) where
  -- Waiting for an object with the id of a result that was set reads the value.
  await-set_result :
      (v : Value) (later : ℕ) (r p : Result) (polls : List Backend) (b : Backend)
      → py.validate (py.type_name v) v ≡ some v
      → r.id ≡ p.id
      → let (r', b') = set_result py v success later r b in
        wait p.id polls ≡ some r'
        → Lifecycle.await py p polls b' ≡ some (Lifecycle.refresh py r' p, ok v)
  unfolding Lifecycle.await Lifecycle.refresh set_result
  await-set_result v later r p polls b valid same seen =
      let r' = (set_result py v success later r b).0 in
      let b' = (set_result py v success later r b).1 in
      let read : Lifecycle.get py (record r' { id = p.id }) b' ≡ ok v =
        subst (λ i. Lifecycle.get py (record r' { id = i }) b' ≡ ok v) same
          (get-set_result py v later r b valid) in
      rw (Lifecycle.await, seen) (ap (λ a. some (record r' { id = p.id }, a)) read)

module _ (config : AppConfig) (around : Surroundings) (hashable : Value → Bool)
    (held : Argument → Value) (py : Python) where
  -- What `run` makes of a submission that gave a result.
  await_result_answered :
      (p p' : Result) (a : Answer Value) (polls : List Backend) (b : Backend)
      (out : Answer Result × Node)
      → out.0 ≡ ok p
      → Lifecycle.await py p polls b ≡ some (p', a)
      → await_result config around hashable held py polls b out ≡ some (a, out.1)
  unfolding await_result
  await_result_answered p p' a polls b out given waited =
      ap (λ x. await_result config around hashable held py polls b (x, out.1)) given
      ∙ (rw (await_result, waited) refl)

  -- A request that is run with no further arguments, and whose message the broker takes, answers the
  -- value that its result was set to, if waiting ends with that result and the value is one that
  -- its own type validates.
  pub run-set_result :
      (reg : TaskRegistry) (id now later : ℕ) (v : Value) (req : Request) (r : Result)
      (polls : List Backend) (b : Backend) (n : Node)
      → around.has_broker ≡ true
      → (let sent =
            on_submitting config around around.middleware (prepare config around none req) in
          around.accepts (get_task_route config sent) (request_message config around sent) ≡ true)
      → py.validate (py.type_name v) v ≡ some v
      → r.id ≡ req.id
      → let (r', b') = set_result py v success later r b in
        wait req.id polls ≡ some r'
        → run config around hashable held py reg id now (request req) [] [] polls b' n
          ≡ some (ok v, (submit config around now none req n).1)
  unfolding run submit_call submit_in pending_result prepare Dict.lookup submit
  run-set_result reg id now later v req r polls b n has taken valid same seen =
      let p = pending_result config around now none (prepare config around none req) in
      let r' = (set_result py v success later r b).0 in
      await_result_answered p (Lifecycle.refresh py r' p) (ok v) polls
        (set_result py v success later r b).1 (submit config around now none req n)
        (submit_accepted config around now req n has taken)
        (await-set_result py v later r p polls b valid same seen)
