-- ===== src/Workspace/Staging.antt =====
-- `stage` and `request` of `ApplicationWorkspace`,
-- src/fundermatch/orchestration/workspace.py.
use funder_match.Base.{
  Bool, Exec, List, Option, Result, String, [], check_if, err, false, if◌then◌else◌, length, ltb,
  nat_eq, not, ok, pure, raise_if, some, string_eq, true, ℕ, ◌+◌, ◌==◌, ◌>>=◌, ◌>>◌, ◌||◌, ◌∷◌,
}
use funder_match.Orchestration.Schema.{InputReference}
use funder_match.Json.{Payload}
use funder_match.Workspace.Files.{
  System, Codec, FileKey, file_eq, Workspace, Draw, WorkspaceError, not_found, no_files,
  batch_limit, unsafe_filename, not_pdf, file_limit, collision, folder, document_path, document_aad,
  read_bytes,
}
use funder_match.Workspace.Operations.{
  StagedFile, StagedApplication, add_folder, put_file, save, load,
}

-- the references that `stage` returns
abbrev pub references : List StagedFile → List InputReference
references [] = []
references (f ∷ fs) =
    record { reference_type = "staged_pdf"; reference_id = f.filename; sha256 = some f.sha256 }
    ∷ references fs

abbrev pub has_none {ℓ} : {A : Type ℓ} → List A → Bool
has_none [] = true
has_none (_ ∷ _) = false

module _ {B : Type 0} where
  abbrev pub batch_size : System B → List (String × B) → ℕ
  batch_size y [] = 0
  batch_size y ((name, content) ∷ fs) = y.size content + batch_size y fs

  abbrev pub staged_file : System B → String → B → StagedFile
  staged_file y name content = record { filename = name; sha256 = y.sha256 content }

  -- what is at a path already: nothing, bytes, or bytes that do not open
  abbrev pub stage_on :
      System B
      → Codec B
      → Draw B
      → String
      → B
      → String
      → FileKey
      → Workspace B
      → Result WorkspaceError B
      → Result WorkspaceError StagedFile × Workspace B
  stage_on y codec draw name content aad k w (err not_found) =
      (ok (staged_file y name content), put_file y codec draw content aad k w)
  stage_on y codec draw name content aad k w (err x) = (err x, w)
  stage_on y codec draw name content aad k w (ok old) =
      if y.sha256 old == y.sha256 content
      then (ok (staged_file y name content), w)
      else (err collision, w)

  abbrev pub stage_at :
      System B
      → Codec B
      → Draw B
      → String
      → B
      → String
      → Result WorkspaceError FileKey
      → Exec (Workspace B) WorkspaceError StagedFile
  stage_at y codec draw name content aad (err x) w = (err x, w)
  stage_at y codec draw name content aad (ok k) w =
      stage_on y codec draw name content aad k w (read_bytes y codec w k aad)

  -- the checks of one upload
  unfoldable pub refused : System B → ℕ → String → B → Result WorkspaceError (Unit {0})
  refused y max_file_bytes name content =
      check_if (not (y.path_name name == name) || not (y.is_pdf_name name)) unsafe_filename (
        check_if (not (y.is_pdf content)) not_pdf
          (check_if (ltb max_file_bytes (y.size content)) file_limit (ok tt)))

  -- one turn of the loop over the uploads
  unfoldable pub stage_one :
      System B
      → Codec B
      → ℕ
      → String
      → Draw B
      → String
      → B
      → Exec (Workspace B) WorkspaceError StagedFile
  stage_one y codec max_file_bytes id draw name content w =
      elim (refused y max_file_bytes name content) [
        | err x ↦ (err x, w)
        | ok _ ↦
            stage_at y codec draw name content (document_aad id name) (document_path y id name) w
      ]

  unfoldable pub stage_files :
      System B
      → Codec B
      → ℕ
      → String
      → (ℕ → Draw B)
      → List (String × B)
      → Exec (Workspace B) WorkspaceError (List StagedFile)
  stage_files y codec max_file_bytes id draws [] w = (ok [], w)
  stage_files y codec max_file_bytes id draws ((name, content) ∷ fs) w =
      (do
        f ← stage_one y codec max_file_bytes id (draws (length fs)) name content
        rest ← stage_files y codec max_file_bytes id draws fs
        pure (f ∷ rest))
        w

  abbrev pub made_folder :
      Result WorkspaceError String → Exec (Workspace B) WorkspaceError (Unit {0})
  made_folder (err x) w = (err x, w)
  made_folder (ok id) w = (ok tt, record w { folders = add_folder id w.folders })

  -- `stage`; `dump` is `model_dump_json` of the request, and `draws` what each file draws
  unfoldable pub stage :
      System B
      → Codec B
      → (StagedApplication → B)
      → (ℕ → Draw B)
      → Draw B
      → String
      → Payload
      → List (String × B)
      → ℕ
      → ℕ
      → Exec (Workspace B) WorkspaceError (List InputReference)
  stage y codec dump draws request_draw id submission files max_file_bytes max_batch_bytes = do
    raise_if (has_none files) no_files
    raise_if (ltb max_batch_bytes (batch_size y files)) batch_limit
    made_folder (folder y id)
    staged ← stage_files y codec max_file_bytes id draws files
    save y codec request_draw id "request"
        (dump (record { application_id = id; submission = submission; files = staged }))
    pure (references staged)

  -- `request`
  unfoldable pub request :
      System B
      → Codec B
      → (B → Option StagedApplication)
      → String
      → Workspace B
      → Result WorkspaceError StagedApplication
  request y codec parse id w = load y codec parse id "request" w
