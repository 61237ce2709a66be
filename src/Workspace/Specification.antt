-- ===== src/Workspace/Specification.antt =====
-- A workspace without encryption, paths and folders: what each operation does to the plain contents.
use funder_match.Base.{
  Exec, List, Option, Result, String, [], err, if◌then◌else◌, ltb, nat_eq, none, ok, pure, some,
  string_eq, ℕ, ◌==◌, ◌>>=◌, ◌||◌, ◌∷◌,
}
use funder_match.Orchestration.Schema.{WorkerName, human_review}
use funder_match.Json.{Payload}
use funder_match.Workspace.Files.{
  System, Codec, FileKey, file_eq, Workspace, Draw, WorkspaceError, collision, folder,
  artifact_path, document_path,
}
use funder_match.Workspace.Operations.{
  StagedFile, StagedApplication, save, invalidate_from, invalidated, delete_application, belongs,
}
use funder_match.Workspace.Staging.{stage, staged_file, refused, batch_size, has_none}
use funder_match.Workspace.Rewrapping.{rewrap_all}
use funder_match.Workspace.Naming.{IsPlain}
use funder_match.Workspace.Contents.{Contents, put_contents, remove_contents}

module _ {B : Type 0} where
  abbrev pub put_at : B → Result WorkspaceError FileKey → Contents B → Contents B
  put_at m (err x) f = f
  put_at m (ok k) f = put_contents k m f

  abbrev pub hold_on :
      System B
      → String
      → B
      → FileKey
      → Contents B
      → Option B
      → Result WorkspaceError StagedFile × Contents B
  hold_on y name content k f none = (ok (staged_file y name content), put_contents k content f)
  hold_on y name content k f (some old) =
      if y.sha256 old == y.sha256 content
      then (ok (staged_file y name content), f)
      else (err collision, f)

  abbrev pub hold_at :
      System B
      → String
      → B
      → Result WorkspaceError FileKey
      → Exec (Contents B) WorkspaceError StagedFile
  hold_at y name content (err x) f = (err x, f)
  hold_at y name content (ok k) f = hold_on y name content k f (f k)

  abbrev pub hold_checked :
      System B
      → String
      → String
      → B
      → Result WorkspaceError (Unit {0})
      → Exec (Contents B) WorkspaceError StagedFile
  hold_checked y id name content (err x) f = (err x, f)
  hold_checked y id name content (ok _) f = hold_at y name content (document_path y id name) f

  -- Files are kept up to the first that is refused, or that differs from one of its name.
  unfoldable pub hold_files :
      System B → ℕ → String → List (String × B) → Exec (Contents B) WorkspaceError (List StagedFile)
  hold_files y max_file_bytes id [] f = (ok [], f)
  hold_files y max_file_bytes id ((name, content) ∷ fs) f =
      (do
        one ← hold_checked y id name content (refused y max_file_bytes name content)
        rest ← hold_files y max_file_bytes id fs
        pure (one ∷ rest))
        f

  abbrev pub hold_request :
      System B
      → (StagedApplication → B)
      → String
      → Payload
      → Result WorkspaceError (List StagedFile) × Contents B
      → Contents B
  hold_request y dump id submission (err x, f) = f
  hold_request y dump id submission (ok staged, f) =
      put_at (dump (record { application_id = id; submission = submission; files = staged }))
        (artifact_path y id "request") f

  abbrev pub hold :
      System B
      → (StagedApplication → B)
      → String
      → Payload
      → List (String × B)
      → ℕ
      → ℕ
      → Contents B
      → Contents B
  hold y dump id submission files max_file_bytes max_batch_bytes f =
      if has_none files || ltb max_batch_bytes (batch_size y files) then f else elim (folder y id) [
        | err x ↦ f
        | ok _ ↦ hold_request y dump id submission (hold_files y max_file_bytes id files f)
      ]

  -- The artifacts are gone, up to the first whose path is refused.
  unfoldable pub forget : System B → String → List String → Contents B → Contents B
  forget y id [] f = f
  forget y id (n ∷ ns) f = elim (artifact_path y id n) [
    | err x ↦ f
    | ok k ↦ forget y id ns (remove_contents k f)
  ]

  abbrev pub forget_application : String → Contents B → Contents B
  forget_application id f j = if belongs id j then none else f j

-- One call on a workspace that changes it.
pub data Operation (B : Type 0) : Type 0 where
  save_operation : String → String → B → Draw B → Operation B
  stage_operation :
      String → Payload → List (String × B) → ℕ → ℕ → (ℕ → Draw B) → Draw B → Operation B
  invalidate_operation : String → WorkerName → Operation B
  delete_operation : String → Operation B
  rewrap_operation : B → String → (FileKey → B) → Operation B

module _ {B : Type 0} (y : System B) (codec : Codec B) (dump : StagedApplication → B) where
  unfoldable pub run : Operation B → Workspace B → Workspace B
  run (save_operation id name m draw) w = (save y codec draw id name m w).1
  run (stage_operation id s files max_file max_batch draws draw) w =
      (stage y codec dump draws draw id s files max_file max_batch w).1
  run (invalidate_operation id worker) w = (invalidate_from y id worker w).1
  run (delete_operation id) w = (delete_application y id w).1
  run (rewrap_operation key version nonces) w = (rewrap_all y codec key version nonces w).1

  unfoldable pub run_all : List (Operation B) → Workspace B → Workspace B
  run_all [] w = w
  run_all (o ∷ os) w = run_all os (run o w)

module _ {B : Type 0} (y : System B) (dump : StagedApplication → B) where
  -- The same call on plain contents; a rotation of the key does nothing.
  unfoldable pub plain : Operation B → Contents B → Contents B
  plain (save_operation id name m draw) f = put_at m (artifact_path y id name) f
  plain (stage_operation id s files max_file max_batch draws draw) f =
      hold y dump id s files max_file max_batch f
  plain (invalidate_operation id human_review) f = f
  plain (invalidate_operation id worker) f = forget y id (invalidated worker) f
  plain (delete_operation id) f = elim (folder y id) [ err x ↦ f | ok i ↦ forget_application i f ]
  plain (rewrap_operation key version nonces) f = f

  unfoldable pub plain_all : List (Operation B) → Contents B → Contents B
  plain_all [] f = f
  plain_all (o ∷ os) f = plain_all os (plain o f)

-- The artifact that a call saves has such a name.
unfoldable pub IsNamed : {B : Type 0} → System B → Operation B → Type 0
IsNamed y (save_operation id name m draw) = IsPlain y name
IsNamed y (stage_operation id s files max_file max_batch draws draw) = IsPlain y "request"
IsNamed y _ = Unit
