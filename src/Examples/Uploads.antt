-- ===== src/Examples/Uploads.antt =====
-- An upload of an archive that holds a text and an image, whose subtasks end in another order, and a
-- job from its upload to its result.
use mathlib.Core.List.{Permᴰ}
use mathlib.Core.List.Permᴰ
use project_mognet.Prelude.{
  String, contains, some, none, List, [], ◌∷◌, ◌++◌, ◌≡◌, false, true, inl, inr, refl,
}
use project_mognet.Demo.{File, file, broken, files, nil, cons, Outcome, process_document_upload}
use project_mognet.Prelude.Dict
use project_mognet.Model.State.{success, pending}
use project_mognet.Model.Value.{json}
use project_mognet.Model.Result.{Result, fresh, done}
use project_mognet.Backend.Memory.{Backend, ok}
use project_mognet.Backend.Memory
use project_mognet.Backend.Base.{wait}
use project_mognet.Lifecycle.{set_result}
use project_mognet.Registry.{get_task_name}
use project_mognet.Demo.Service.{answered, upload_document, get_job_result}
use project_mognet.Demo.Service.Jobs.{upload_document-get_job_result}
use project_mognet.Examples.{config, around, registry, python, backend, busy}
use project_mognet.Demo.Contents.{IsWhole, texts, refusals}
use project_mognet.Demo.Orders.{Gives}
use project_mognet.Demo.Uploads.{process_document_upload-Gives}

abbrev extensions : List String
extensions = ".zip" ∷ ".tar.gz" ∷ []

abbrev shown : String → String
shown name = name

abbrev archive : File
archive = file 1 "a.zip" ".zip" none (
    files (
      cons (file 2 "b.txt" ".txt" (some "words") broken)
        (cons (file 3 "c.png" ".png" none broken) nil)))

-- The first subtask ends last.
abbrev first_last : List Outcome → List Outcome
first_last [] = []
first_last (o ∷ os) = os ++ o ∷ []

first_last-Permᴰ : (os : List Outcome) → Permᴰ (first_last os) os
first_last-Permᴰ [] = Permᴰ.nil
first_last-Permᴰ (o ∷ os) = Permᴰ.append_comm os (o ∷ [])

archive-IsWhole : IsWhole extensions archive
unfolding contains
archive-IsWhole = inl (refl, (inr (refl, inr refl), (inr (refl, inl refl), tt)))

process_document_upload-Gives_example :
    Gives shown
      (process_document_upload extensions shown first_last archive)
      (texts extensions archive)
      (refusals extensions shown archive)
process_document_upload-Gives_example =
    process_document_upload-Gives extensions shown first_last first_last-Permᴰ archive
      archive-IsWhole

abbrev answered_job : Result × Backend
answered_job = set_result python (json "3") success 12 (fresh 90) backend

upload_document-get_job_result_example :
    let (job, n) = upload_document config around registry 7 90 10 (json "4") busy in
    let told = answered (record { job_id = 90; job_status = success; result = some (json "3") }) in
    (job ≡ ok (record { job_id = 90 }))
    × (get_job_result python some 90 false n.backend [] n.backend
        ≡ answered (record { job_id = 90; job_status = pending; result = none }))
    × (get_job_result python some 90 true n.backend (backend ∷ answered_job.1 ∷ []) answered_job.1
        ≡ told)
    × (get_job_result python some 90 true answered_job.1 [] answered_job.1 ≡ told)
unfolding set_result wait Memory.get Memory.set Dict.lookup Dict.insert done Memory.set_value
    get_task_name
upload_document-get_job_result_example =
    upload_document-get_job_result config around python some registry 7 10 12 (json "4") (json "3")
      (json "3") "add" busy (fresh 90) backend true (backend ∷ answered_job.1 ∷ []) [] refl refl
      refl refl refl refl
