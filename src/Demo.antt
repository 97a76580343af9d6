-- ===== src/Demo.antt =====
-- demo/mognet_demo/tasks.py: the task that processes an upload, and runs itself for each file of an
-- archive. A file is given with its bytes read as a text, if they are one, and with what unpacking
-- them gives.
pub mod Contents
pub mod Orders
pub mod Uploads
pub mod Service
use project_mognet.Prelude.{
  ℕ, String, Option, none, some, Bool, true, false, ◌&&◌, List, [], ◌∷◌, ◌++◌, contains,
  if◌then◌else◌,
}
use project_mognet.Prelude.Eq.{string_eq, ◌==◌}

pub record Document : Type 0 where
  pub upload_id : ℕ
  pub file_name : String
  pub contents : String

pub record UploadResult : Type 0 where
  pub documents : List Document
  pub errors : List String

abbrev pub nothing : UploadResult
nothing = record { documents = []; errors = [] }

-- How the task ends: with a result, with InvalidFile, or with an exception of unpacking or reading.
pub data Outcome : Type 0 where
  uploaded : UploadResult → Outcome
  invalid_file : (file_name : String) → Outcome
  failed : Outcome

-- `suffix` is that of the path, so for `a.tar.gz` it is `.gz`.
mutual
  pub data File : Type 0 where
    file : (upload_id : ℕ) (name suffix : String) (text : Option String) → Unpacked → File

  pub data Unpacked : Type 0 where
    broken : Unpacked
    files : Files → Unpacked

  pub data Files : Type 0 where
    nil : Files
    cons : File → Files → Files

unfoldable pub read_document : ℕ → String → Option String → Outcome
read_document id name none = failed
read_document id name (some text) = uploaded (record {
  documents = record { upload_id = id; file_name = name; contents = text } ∷ [];
  errors = [];
})

-- The extensions of archives, the text of an InvalidFile by its file, and the order in which
-- `as_completed` gives the outcomes of the subtasks.
module _ (extensions : List String) (shown : String → String)
    (completed : List Outcome → List Outcome) where
  -- The loop over the subtasks.
  unfoldable pub collect : UploadResult → List Outcome → Outcome
  collect acc [] = uploaded acc
  collect acc (uploaded r ∷ more) =
      collect (record { documents = acc.documents ++ r.documents; errors = acc.errors ++ r.errors })
        more
  collect acc (invalid_file name ∷ more) =
      collect (record acc { errors = acc.errors ++ shown name ∷ [] }) more
  collect acc (failed ∷ more) = failed

  unfoldable mutual
    unfolding collect read_document

    pub process_document_upload : File → Outcome
    process_document_upload (file id name suffix text unpacked) =
        let archive = process_unpacked unpacked in
        if contains suffix extensions
        then archive
        else if suffix == ".txt"
        then read_document id name text
        else invalid_file name

    pub process_unpacked : Unpacked → Outcome
    process_unpacked broken = failed
    process_unpacked (files fs) = collect nothing (completed (process_all fs))

    pub process_all : Files → List Outcome
    process_all nil = []
    process_all (cons f fs) = process_document_upload f ∷ process_all fs
