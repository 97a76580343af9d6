-- ===== src/Demo/Uploads.antt =====
-- What the result of an upload holds, whatever order its subtasks end in (demo/mognet_demo/tasks.py).
use mathlib.Core.List.{Permᴰ, append_assoc, append-nil}
use mathlib.Core.List.Permᴰ
use mathlib.Core.Path.{subst}
use project_mognet.Prelude.{
  ℕ, String, Option, none, some, is_some, ◌≡◌, refl, sym, ◌∙◌, ◌⊎◌, inl, inr, true, false, List, [],
  ◌∷◌, ◌++◌, contains, arith, Bool-cases,
}
use project_mognet.Prelude.Eq.{string_eq, ◌==◌}
use project_mognet.Demo.Contents.{
  document_if, texts, texts_unpacked, texts_all, refusals, refusals_unpacked, refusals_all, IsWhole,
  AreWholeUnpacked, AreWhole,
}
use project_mognet.Demo.Orders.{
  Gives, documents_of, errors_of, gather, all_benign, both_perm, gather-Permᴰ, all_benign-Permᴰ,
}
use project_mognet.Demo.{
  read_document, Document, UploadResult, nothing, Outcome, uploaded, invalid_file, failed, File,
  Unpacked, Files, file, broken, files, nil, cons, collect, process_document_upload,
  process_unpacked, process_all,
}

module _ (extensions : List String) (shown : String → String)
    (completed : List Outcome → List Outcome)
    (each_once : (os : List Outcome) → Permᴰ (completed os) os) where
  -- The loop over outcomes that are benign.
  collect-benign :
      (acc : UploadResult) (os : List Outcome)
      → all_benign os ≡ true
      → collect extensions shown completed acc os
        ≡ uploaded (record {
          documents = acc.documents ++ gather documents_of os;
          errors = acc.errors ++ gather (errors_of shown) os;
        })
  unfolding collect
  collect-benign acc [] h = ground (arith, append-nil acc.documents, append-nil acc.errors)
  collect-benign acc (uploaded r ∷ os) h = ground (
    arith,
    collect-benign
        (record { documents = acc.documents ++ r.documents; errors = acc.errors ++ r.errors }) os h,
    append_assoc acc.documents r.documents (gather documents_of os),
    append_assoc acc.errors r.errors (gather (errors_of shown) os),
  )
  collect-benign acc (invalid_file name ∷ os) h = ground (
    arith,
    collect-benign (record acc { errors = acc.errors ++ shown name ∷ [] }) os h,
    append_assoc acc.errors (shown name ∷ []) (gather (errors_of shown) os),
  )
  collect-benign acc (failed ∷ os) h = absurd (cc)

  collected :
      (os : List Outcome) (ds : List Document) (es : List String)
      → all_benign os ≡ true
      → Permᴰ (gather documents_of os) ds
      → Permᴰ (gather (errors_of shown) os) es
      → Gives shown (collect extensions shown completed nothing (completed os)) ds es
  collected os ds es h p q =
      let order = each_once os in
      subst (λ o. Gives shown o ds es)
        (sym (collect-benign nothing (completed os) (all_benign-Permᴰ order ∙ h)))
        (
          refl,
          Permᴰ.trans (gather-Permᴰ documents_of order) p,
          Permᴰ.trans (gather-Permᴰ (errors_of shown) order) q,
        )

  text-Gives :
      (id : ℕ) (name : String) (text : Option String)
      → is_some text ≡ true
      → Gives shown (read_document id name text) (document_if id name text) []
  unfolding read_document
  text-Gives id name none h = absurd (cc)
  text-Gives id name (some text) h = (refl, Permᴰ.refl _, Permᴰ.nil)

  single-Gives :
      (id : ℕ) (name suffix : String) (text : Option String) (unpacked : Unpacked)
      → let f = file id name suffix text unpacked in
        contains suffix extensions ≡ false
        → (suffix == ".txt" ≡ false) ⊎ (is_some text ≡ true)
        → Gives shown
            (process_document_upload extensions shown completed f)
            (texts extensions f)
            (refusals extensions shown f)
  unfolding process_document_upload texts refusals
  single-Gives id name suffix text unpacked single readable = elim (Bool-cases (suffix == ".txt")) [
    | inl as_text ↦ elim readable [
      | inl other ↦ absurd (cc)
      | inr h ↦ rw (single, as_text) (text-Gives id name text h)
    ]
    | inr other ↦ rw (single, other) (refl, Permᴰ.nil, Permᴰ.refl _)
  ]

  mutual
    unfolding process_document_upload process_unpacked process_all texts texts_unpacked texts_all
        refusals refusals_unpacked refusals_all

    file-Gives :
        (f : File)
        → IsWhole extensions f
        → Gives shown
            (process_document_upload extensions shown completed f)
            (texts extensions f)
            (refusals extensions shown f)
    file-Gives (file id name suffix text unpacked) whole = elim whole [
      | inl (archive, inside) ↦ rw archive (unpacked-Gives unpacked inside)
      | inr (single, readable) ↦ single-Gives id name suffix text unpacked single readable
    ]

    unpacked-Gives :
        (u : Unpacked)
        → AreWholeUnpacked extensions u
        → Gives shown
            (process_unpacked extensions shown completed u)
            (texts_unpacked extensions u)
            (refusals_unpacked extensions shown u)
    unpacked-Gives broken whole = absurd whole
    unpacked-Gives (files fs) whole =
        let (h, p, q) = all-Gives fs whole in
        collected (process_all extensions shown completed fs) (texts_all extensions fs)
          (refusals_all extensions shown fs) h p q

    all-Gives :
        (fs : Files)
        → AreWhole extensions fs
        → (all_benign (process_all extensions shown completed fs) ≡ true)
          × Permᴰ
              (gather documents_of (process_all extensions shown completed fs))
              (texts_all extensions fs)
          × Permᴰ
              (gather (errors_of shown) (process_all extensions shown completed fs))
              (refusals_all extensions shown fs)
    all-Gives nil whole = (refl, Permᴰ.nil, Permᴰ.nil)
    all-Gives (cons f fs) whole =
        let (h, p, q) = file-Gives f whole.0 in
        let (hs, ps, qs) = all-Gives fs whole.1 in (rw (h, hs) refl, both_perm p ps, both_perm q qs)

  -- Where each archive of an upload can be unpacked and each `.txt` file in it can be read, and
  -- `as_completed` gives each outcome once, in any order, the task ends with a result or with
  -- InvalidFile, and what it so gives to a task that waits for it is each text of the upload once as a
  -- document, and one error for each file that is neither a text nor an archive.
  pub process_document_upload-Gives :
      (f : File)
      → IsWhole extensions f
      → Gives shown
          (process_document_upload extensions shown completed f)
          (texts extensions f)
          (refusals extensions shown f)
  process_document_upload-Gives f whole = file-Gives f whole
