-- ===== src/Demo/Contents.antt =====
-- What an upload holds: its texts, and the files that demo/mognet_demo/tasks.py refuses.
use project_mognet.Prelude.{
  ℕ, String, Option, none, some, is_some, ◌≡◌, ◌⊎◌, true, false, List, [], ◌∷◌, ◌++◌, contains,
  if◌then◌else◌,
}
use project_mognet.Prelude.Eq.{string_eq, ◌==◌}
use project_mognet.Demo.{Document, File, Unpacked, Files, file, broken, files, nil, cons}

abbrev pub document_if : ℕ → String → Option String → List Document
document_if id name none = []
document_if id name (some text) = record { upload_id = id; file_name = name; contents = text } ∷ []

module _ (extensions : List String) where
  -- The texts of an upload.
  unfoldable mutual
    pub texts : File → List Document
    texts (file id name suffix text unpacked) =
        let inside = texts_unpacked unpacked in
        if contains suffix extensions
        then inside
        else if suffix == ".txt"
        then document_if id name text
        else []

    pub texts_unpacked : Unpacked → List Document
    texts_unpacked broken = []
    texts_unpacked (files fs) = texts_all fs

    pub texts_all : Files → List Document
    texts_all nil = []
    texts_all (cons f fs) = texts f ++ texts_all fs

  -- Each archive in it can be unpacked, and each `.txt` file can be read as a text.
  abbrev mutual
    pub IsWhole : File → Type 0
    IsWhole (file id name suffix text unpacked) =
        ((contains suffix extensions ≡ true) × AreWholeUnpacked unpacked)
        ⊎ (contains suffix extensions ≡ false)
          × ((suffix == ".txt" ≡ false) ⊎ (is_some text ≡ true))

    pub AreWholeUnpacked : Unpacked → Type 0
    AreWholeUnpacked broken = ⊥
    AreWholeUnpacked (files fs) = AreWhole fs

    pub AreWhole : Files → Type 0
    AreWhole nil = Unit
    AreWhole (cons f fs) = IsWhole f × AreWhole fs

module _ (extensions : List String) (shown : String → String) where
  -- What is told of its files that are neither texts nor archives.
  unfoldable mutual
    pub refusals : File → List String
    refusals (file id name suffix text unpacked) =
        let inside = refusals_unpacked unpacked in
        if contains suffix extensions
        then inside
        else if suffix == ".txt"
        then []
        else shown name ∷ []

    pub refusals_unpacked : Unpacked → List String
    refusals_unpacked broken = []
    refusals_unpacked (files fs) = refusals_all fs

    pub refusals_all : Files → List String
    refusals_all nil = []
    refusals_all (cons f fs) = refusals f ++ refusals_all fs
