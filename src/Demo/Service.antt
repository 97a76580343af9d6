-- ===== src/Demo/Service.antt =====
-- demo/mognet_demo/api.py: the web service that takes uploads as jobs, tells their results and
-- revokes them. The store of the files and the parsing of web requests are left out, and the value
-- of a finished job is validated as an UploadResult by pydantic (`as_upload`).
pub mod Jobs
pub mod Revoking
use project_mognet.Prelude.{
  ℕ, String, Bool, true, false, not, ◌&&◌, Option, none, some, List, [], ◌∷◌, if◌then◌else◌,
}
use project_mognet.Model.State.{ResultState}
use project_mognet.Model.Value.{Python, Value, Exn, value_error}
use project_mognet.Model.Result.{Result, done, successful}
use project_mognet.Backend.Memory.{Backend, Answer, ok, raised}
use project_mognet.Backend.Memory
use project_mognet.Backend.Base
use project_mognet.Config.{AppConfig}
use project_mognet.Lifecycle
use project_mognet.Registry.{TaskRegistry}
use project_mognet.Request.{Request}
use project_mognet.Worker.Node.{Node}
use project_mognet.App.{Surroundings, create_request, submit}
use project_mognet.App

pub record Job : Type 0 where
  pub job_id : ℕ

pub record UploadJobResult : Type 0 where
  pub job_id : ℕ
  pub job_status : ResultState
  pub result : Option Value

-- The status 404, an answer, or an exception that no handler catches.
pub data Reply : Type 0 where
  not_found : Reply
  answered : UploadJobResult → Reply
  server_error : Exn → Reply

module _ (config : AppConfig) (around : Surroundings) where
  job_of : Answer Result × Node → Answer Job × Node
  job_of (raised e, n) = (raised e, n)
  job_of (ok r, n) = (ok (record { job_id = r.id }), n)

  submit_job : ℕ → Answer Request → Node → Answer Job × Node
  unfolding job_of
  submit_job now (raised e) n = (raised e, n)
  submit_job now (ok req) n = job_of (submit config around now none req n)

  -- `upload` is the upload as an argument, and `id` what `uuid4` gives.
  unfoldable pub upload_document :
      TaskRegistry → (task id now : ℕ) (upload : Value) → Node → Answer Job × Node
  unfolding submit_job
  upload_document reg task id now upload n =
      submit_job now (create_request id task [] (("upload", upload) ∷ []) reg) n

  revoked_job : Answer Result × Node → Answer (Unit {0}) × Node
  revoked_job (raised e, n) = (raised e, n)
  revoked_job (ok r, n) = (ok tt, n)

  -- `revoke_job`, on the fuel of `revoke`.
  unfoldable pub revoke_job : (fuel now job_id : ℕ) → Node → Option (Answer (Unit {0}) × Node)
  unfolding revoked_job
  revoke_job fuel now job_id n = elim (App.revoke config around fuel false now job_id n) [
    | none ↦ none
    | some out ↦ some (revoked_job out)
  ]

module _ (py : Python) (as_upload : Value → Option Value) where
  -- The wait, of which a timeout is suppressed, over what its polls see.
  pub waited : Bool → List Backend → Result → Result
  waited wait polls r =
      if not (done r) && wait
      then elim (Base.wait r.id polls) [ none ↦ r | some seen ↦ Lifecycle.refresh py seen r ]
      else r

  finished_job : Result → Answer Value → Reply
  finished_job r (raised e) = server_error e
  finished_job r (ok v) = elim (as_upload v) [
    | none ↦ server_error value_error
    | some u ↦ answered (record { job_id = r.id; job_status = r.state; result = some u })
  ]

  pub report : Result → Backend → Reply
  unfolding finished_job
  report r b =
      let open_job : UploadJobResult = record {
        job_id = r.id;
        job_status = r.state;
        result = none;
      } in
      if not (done r)
      then answered open_job
      else if not (successful r)
      then answered open_job
      else finished_job r (Lifecycle.get py r b)

  -- `wait` tells whether a time to wait was given; `last` is the backend when the value is read.
  unfoldable pub get_job_result :
      (job_id : ℕ) (wait : Bool) (first : Backend) (polls : List Backend) (last : Backend) → Reply
  unfolding waited report
  get_job_result job_id wait first polls last = elim (Memory.get job_id first) [
    | none ↦ not_found
    | some r ↦ report (waited wait polls r) last
  ]
