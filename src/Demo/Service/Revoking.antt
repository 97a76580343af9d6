-- ===== src/Demo/Service/Revoking.antt =====
-- A job of the demo that is revoked (demo/mognet_demo/api.py).
use project_mognet.Prelude.{ℕ, ◌≡◌, refl, ap, ◌∙◌, ◌<◌, Bool, false, Option, none, some, List}
use project_mognet.Model.State.{revoked}
use project_mognet.Model.Value.{Python, Value}
use project_mognet.Model.Result.{done, successful}
use project_mognet.Backend.Memory.{Backend, Answer, ok, raised}
use project_mognet.Config.{AppConfig}
use project_mognet.Lifecycle
use project_mognet.Model.Result.{Result}
use project_mognet.Backend.Memory
use project_mognet.Worker.Node.{Node}
use project_mognet.App.{Surroundings}
use project_mognet.App.Revocation.{is_done, IsRanked, IsKeyed, marked, marked-done, found-id}
use project_mognet.App.Revocation.Descent.Marks.{revoke_marks}
use project_mognet.Demo.Service.{answered, revoke_job, revoked_job, get_job_result, report}
use project_mognet.Demo.Service.Jobs.{get_job_result-found, waited-done}

module _ (config : AppConfig) (around : Surroundings) (py : Python)
    (as_upload : Value → Option Value) where
  report-marked :
      (now id : ℕ) (a last : Backend)
      → IsKeyed a
      → report py as_upload (marked now id a).0 last
        ≡ answered (record { job_id = id; job_status = revoked; result = none })
  unfolding report Lifecycle.revoke done successful
  report-marked now id a last key =
      ap (λ i. answered (record { job_id = i; job_status = revoked; result = none }))
        (found-id id a key)

  revoked_job-node : (out : Answer Result × Node) → (revoked_job config around out).1 ≡ out.1
  unfolding revoked_job
  revoked_job-node (raised e, n) = refl
  revoked_job-node (ok r, n) = refl

  -- Where results stand under their ids, the children form no cycle and the fuel is above the rank of
  -- the job, revoking a job that is not done, or of which no result is kept, ends, and right after it
  -- the job is told as REVOKED and without a value, whether the request waits or not, and whether revoking raised an exception of
  -- sending a control message or not.
  pub revoke_job-get_job_result :
      (now : ℕ) (rank : ℕ → ℕ) (fuel id : ℕ) (n : Node) (waiting : Bool) (polls : List Backend)
      → IsKeyed n.backend
      → IsRanked rank n.backend
      → rank id < fuel
      → is_done id n.backend ≡ false
      → (out : Answer (Unit {0}) × Node) × (revoke_job config around fuel now id n ≡ some out)
        × (get_job_result py as_upload id waiting out.1.backend polls out.1.backend
            ≡ answered (record { job_id = id; job_status = revoked; result = none }))
  unfolding revoke_job
  revoke_job-get_job_result now rank fuel id n waiting polls key ranked h undone =
      let (out, run, marks) = revoke_marks config around now rank fuel id n key ranked h undone in
      let r = (marked now id n.backend).0 in
      let after = (revoked_job config around out).1.backend in
      let held : Memory.get id after ≡ some r =
        ap (λ m. Memory.get id m.backend) (revoked_job-node out) ∙ marks in
      (
        revoked_job config around out,
        rw (revoke_job, run) refl,
        get_job_result-found py as_upload id waiting after polls after r held
            ∙ ap (λ x. report py as_upload x after)
                (waited-done py as_upload waiting polls r (marked-done now id n.backend))
            ∙ report-marked now id n.backend after key,
      )
