-- ===== src/Demo/Service/Jobs.antt =====
-- A job of the demo from its upload to its result (demo/mognet_demo/api.py).
use mathlib.Core.Path.{subst}
use project_mognet.Prelude.{
  ℕ, String, ◌≡◌, refl, ap, sym, ◌∙◌, Bool, true, false, Option, none, some, List, [], ◌∷◌, arith,
}
use project_mognet.Prelude.Dict
use project_mognet.Prelude.Eq.{nat_eq, ==_refl}
use project_mognet.Model.State.{pending, success}
use project_mognet.Model.Value.{Python, Value, value}
use project_mognet.Model.Result.{Result, done, successful}
use project_mognet.Backend.Memory.{Backend, ok, raised, Answer}
use project_mognet.Backend.Memory
use project_mognet.Backend.Base.{wait}
use project_mognet.Config.{AppConfig, get_task_route}
use project_mognet.Lifecycle.{set_result}
use project_mognet.Lifecycle
use project_mognet.Lifecycle.Reading.{get-set_result}
use project_mognet.Registry.{TaskRegistry, get_task_name}
use project_mognet.Request.{Request, plain_request}
use project_mognet.Worker.Node.{Node}
use project_mognet.App.{
  Surroundings, create_request, submit, prepare, pending_result, on_submitting, request_message,
}
use project_mognet.App.Submission.{submit_accepted, record_request-stored, submit-backend}
use project_mognet.Demo.Service.{
  answered, upload_document, get_job_result, report, job_of, submit_job, waited, finished_job,
}

get-set : (r : Result) (b : Backend) → Memory.get r.id (Memory.set r.id r b) ≡ some r
unfolding Memory.get Memory.set
get-set r b = ground (arith, Dict.lookup-insert r.id r.id r b.results, ==_refl r.id)

module _ (py : Python) (as_upload : Value → Option Value) where
  pub get_job_result-found :
      (job_id : ℕ) (waiting : Bool) (first : Backend) (polls : List Backend) (last : Backend)
      (r : Result)
      → Memory.get job_id first ≡ some r
      → get_job_result py as_upload job_id waiting first polls last
        ≡ report py as_upload (waited py as_upload waiting polls r) last
  unfolding get_job_result
  get_job_result-found job_id waiting first polls last r h = rw (get_job_result, h) refl

  pub waited-done :
      (waiting : Bool) (polls : List Backend) (r : Result)
      → done r ≡ true
      → waited py as_upload waiting polls r ≡ r
  unfolding waited
  waited-done waiting polls r h = ground (arith, h)

  waited-seen :
      (polls : List Backend) (r seen : Result)
      → done r ≡ false
      → wait r.id polls ≡ some seen
      → waited py as_upload true polls r ≡ Lifecycle.refresh py seen r
  unfolding waited
  waited-seen polls r seen open_still h = rw (waited, open_still, h) refl

  -- What is told of a job whose result was set, whatever object the report starts from.
  report-set_result :
      (v u : Value) (later : ℕ) (r : Result) (b : Backend)
      → py.validate (py.type_name v) v ≡ some v
      → as_upload v ≡ some u
      → let (r', b') = set_result py v success later r b in
        report py as_upload r' b'
        ≡ answered (record { job_id = r.id; job_status = success; result = some u })
  unfolding report finished_job set_result done successful
  report-set_result v u later r b valid upload =
      let read = get-set_result py v later r b valid in rw (read, finished_job, upload) refl

  -- What the backend holds where the result was set.
  get-set_result_stored :
      (v : Value) (later : ℕ) (r : Result) (b : Backend)
      → let (r', b') = set_result py v success later r b in Memory.get r.id b' ≡ some r'
  unfolding set_result
  get-set_result_stored v later r b =
      let r' = (set_result py v success later r b).0 in
      get-set r' (Lifecycle.set_raw_value py (value v) r.id b)

-- The request of an upload.
abbrev pub upload_request : ℕ → String → Value → Request
upload_request id name upload = record (plain_request id name) {
  args = [];
  kwargs = ("upload", upload) ∷ [];
}

module _ (config : AppConfig) (around : Surroundings) where
  job_of-submitted :
      (r : Result) (out : Answer Result × Node)
      → out.0 ≡ ok r
      → ((job_of config around out).0 ≡ ok (record { job_id = r.id }))
        × ((job_of config around out).1 ≡ out.1)
  unfolding job_of
  job_of-submitted r (ok r', n) e = (cc, refl)
  job_of-submitted r (raised x, n) e = absurd (cc)

  -- The result of a job as it is stored first.
  abbrev first_result : ℕ → ℕ → String → Value → Result
  first_result now id name upload =
      pending_result config around now none
        (prepare config around none (upload_request id name upload))

  create_request-named :
      (reg : TaskRegistry) (task id : ℕ) (upload : Value) (name : String)
      → get_task_name task reg ≡ ok name
      → create_request id task [] (("upload", upload) ∷ []) reg ≡ ok (upload_request id name upload)
  unfolding create_request
  create_request-named reg task id upload name named = rw (create_request, named) refl

  upload_document-named :
      (reg : TaskRegistry) (task id now : ℕ) (upload : Value) (name : String) (n : Node)
      → get_task_name task reg ≡ ok name
      → upload_document config around reg task id now upload n
        ≡ job_of config around (submit config around now none (upload_request id name upload) n)
  unfolding upload_document submit_job
  upload_document-named reg task id now upload name n named =
      ap (λ made. submit_job config around now made n)
        (create_request-named reg task id upload name named)

  upload_document-pending :
      (reg : TaskRegistry) (task id now : ℕ) (upload : Value) (name : String) (n : Node)
      → get_task_name task reg ≡ ok name
      → around.has_broker ≡ true
      → (let req = upload_request id name upload in
          let sent =
            on_submitting config around around.middleware (prepare config around none req) in
          around.accepts (get_task_route config sent) (request_message config around sent) ≡ true)
      → let (job, n') = upload_document config around reg task id now upload n in
        (job ≡ ok (record { job_id = id }))
        × (Memory.get id n'.backend ≡ some (first_result now id name upload))
  unfolding prepare pending_result
  upload_document-pending reg task id now upload name n named has taken =
      let req = upload_request id name upload in
      let ready = prepare config around none req in
      let (made, left) =
        job_of-submitted (pending_result config around now none ready)
          (submit config around now none req n)
          (submit_accepted config around now req n has taken) in
      subst
        (λ out.
          (out.0 ≡ ok (record { job_id = id }))
          × (Memory.get id out.1.backend ≡ some (first_result now id name upload)))
        (sym (upload_document-named reg task id now upload name n named))
        (
          made,
          ap (λ m. Memory.get id m.backend) left
              ∙ ap (Memory.get id) (submit-backend config around now none req n has)
              ∙ record_request-stored config around now none ready n.backend,
        )

module _ (config : AppConfig) (around : Surroundings) (py : Python)
    (as_upload : Value → Option Value) where
  -- A job of a registered task, whose message the broker takes, is told right after its upload as
  -- PENDING and without a value. Once a value that validates as an UploadResult was set as its result,
  -- in whatever backend, it is told as SUCCESS with that value: to a request that came right after
  -- the upload, waits and sees the result in a poll, and to each later one, whether it waits or not.
  pub upload_document-get_job_result :
      (reg : TaskRegistry) (task now later : ℕ) (upload v u : Value) (name : String) (n : Node)
      (r : Result) (meanwhile : Backend) (waiting : Bool) (polls more : List Backend)
      → get_task_name task reg ≡ ok name
      → around.has_broker ≡ true
      → (let req = upload_request r.id name upload in
          let sent =
            on_submitting config around around.middleware (prepare config around none req) in
          around.accepts (get_task_route config sent) (request_message config around sent) ≡ true)
      → py.validate (py.type_name v) v ≡ some v
      → as_upload v ≡ some u
      → let (job, n') = upload_document config around reg task r.id now upload n in
        let (r', b) = set_result py v success later r meanwhile in
        let told = answered (record { job_id = r.id; job_status = success; result = some u }) in
        wait r.id polls ≡ some r'
        → (job ≡ ok (record { job_id = r.id }))
          × (get_job_result py as_upload r.id false n'.backend [] n'.backend
              ≡ answered (record { job_id = r.id; job_status = pending; result = none }))
          × (get_job_result py as_upload r.id true n'.backend polls b ≡ told)
          × (get_job_result py as_upload r.id waiting b more b ≡ told)
  unfolding prepare pending_result set_result done Lifecycle.refresh report waited
  upload_document-get_job_result reg task now later upload v u name n r meanwhile waiting polls more
        named has taken valid as_u seen =
      let (job, stored) =
        upload_document-pending config around reg task r.id now upload name n named has taken in
      let first = first_result config around now r.id name upload in
      let n' = (upload_document config around reg task r.id now upload n).1 in
      let r' = (set_result py v success later r meanwhile).0 in
      let b = (set_result py v success later r meanwhile).1 in
      let answer = report-set_result py as_upload v u later r meanwhile valid as_u in
      (
        job,
        get_job_result-found py as_upload r.id false n'.backend [] n'.backend first stored ∙ refl,
        get_job_result-found py as_upload r.id true n'.backend polls b first stored
            ∙ ap (λ x. report py as_upload x b) (waited-seen py as_upload polls first r' refl seen)
            ∙ answer,
        get_job_result-found py as_upload r.id waiting b more b r'
              (get-set_result_stored py as_upload v later r meanwhile)
            ∙ ap (λ x. report py as_upload x b) (waited-done py as_upload waiting more r' refl)
            ∙ answer,
      )
