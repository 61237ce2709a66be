-- ===== src/Workspace/Operations.antt =====
-- The operations of `ApplicationWorkspace`, src/fundermatch/orchestration/workspace.py.
use funder_match.Base.{
  Bool, Dict, Exec, List, Option, Result, String, [], check_if, concat, contains, err, false, get,
  if◌then◌else◌, keep, nat_eq, none, not, ok, put, remove, some, string_eq, true, ◌++◌, ◌==◌, ◌||◌,
  ◌∷◌,
}
use funder_match.Orchestration.Schema.{WorkerName, human_review, value}
use funder_match.Json.{Payload}
use funder_match.Workspace.Files.{
  System, Codec, FileKey, file_eq, Workspace, Draw, WorkspaceError, not_found, invalid_value,
  unsafe_filename, hash_mismatch, past_guardrails, document_aad, artifact_aad, application_of,
  folder, artifact_path, document_path, write_bytes, read_bytes,
}

-- `StagedFile`
pub record StagedFile : Type 0 where
  pub filename : String
  pub sha256 : String

-- `StagedApplication`; `submission` is the rest of the metadata
pub record StagedApplication : Type 0 where
  pub application_id : String
  pub submission : Payload
  pub files : List StagedFile

-- `EXTRACTED_FACTS`, src/fundermatch/intake.py
abbrev extracted_facts : List String
extracted_facts =
    "annual_revenue_crore" ∷ "ebitda_margin_pct" ∷ "dscr" ∷ "pat_crore" ∷ "debt_to_equity"
    ∷ "debt_to_ebitda" ∷ "collateral_cover" ∷ "years_operating" ∷ "employee_count" ∷ "borrower_name"
    ∷ "industry" ∷ "sub_industry" ∷ "region" ∷ []

abbrev pub add_folder : String → List String → List String
add_folder id folders = if contains id folders then folders else id ∷ folders

-- `f"financial/{metric}"` for each fact
abbrev fact_names : List String → List String
fact_names [] = []
fact_names (f ∷ fs) = concat "financial/" f ∷ fact_names fs

abbrev worker_names : List WorkerName → List String
worker_names [] = []
worker_names (w ∷ ws) = value w ∷ worker_names ws

-- `ordered[ordered.index(worker):]`
abbrev workers_from : WorkerName → List WorkerName
workers_from WorkerName.document_processing =
    WorkerName.document_processing ∷ WorkerName.financial_analysis ∷ WorkerName.eligibility
    ∷ WorkerName.precedent_retrieval ∷ WorkerName.suggestion ∷ WorkerName.guardrails ∷ human_review
    ∷ []
workers_from WorkerName.financial_analysis =
    WorkerName.financial_analysis ∷ WorkerName.eligibility ∷ WorkerName.precedent_retrieval
    ∷ WorkerName.suggestion ∷ WorkerName.guardrails ∷ human_review ∷ []
workers_from WorkerName.eligibility =
    WorkerName.eligibility ∷ WorkerName.precedent_retrieval ∷ WorkerName.suggestion
    ∷ WorkerName.guardrails ∷ human_review ∷ []
workers_from WorkerName.precedent_retrieval =
    WorkerName.precedent_retrieval ∷ WorkerName.suggestion ∷ WorkerName.guardrails ∷ human_review
    ∷ []
workers_from WorkerName.suggestion =
    WorkerName.suggestion ∷ WorkerName.guardrails ∷ human_review ∷ []
workers_from WorkerName.guardrails = WorkerName.guardrails ∷ human_review ∷ []
workers_from human_review = human_review ∷ []

-- the artifacts that `invalidate_from` unlinks, in its order
unfoldable pub invalidated : WorkerName → List String
unfolding value
invalidated WorkerName.document_processing =
    worker_names (workers_from WorkerName.document_processing) ++ fact_names extracted_facts
invalidated WorkerName.financial_analysis =
    worker_names (workers_from WorkerName.financial_analysis) ++ fact_names extracted_facts
invalidated worker = worker_names (workers_from worker)

-- `{k: v for k, v in files if not p(k)}`
unfoldable pub drop_keys {κ} : {V : Type κ} → (FileKey → Bool) → Dict FileKey V → Dict FileKey V
drop_keys p [] = []
drop_keys p ((k, v) ∷ d) = let rest = drop_keys p d in if p k then rest else (k, v) ∷ rest

abbrev pub belongs : String → FileKey → Bool
belongs id k = application_of k == id

module _ {B : Type 0} where
  -- one file, at its path
  abbrev pub put_file :
      System B → Codec B → Draw B → B → String → FileKey → Workspace B → Workspace B
  put_file y codec draw content aad k w = record w {
    files = put k (write_bytes y codec w draw content aad) w.files;
    folders = add_folder (application_of k) w.folders;
  }

  abbrev pub saved :
      System B
      → Codec B
      → Draw B
      → B
      → String
      → Result WorkspaceError FileKey
      → Exec (Workspace B) WorkspaceError String
  saved y codec draw payload aad (err x) w = (err x, w)
  saved y codec draw payload aad (ok k) w =
      (ok (y.sha256 payload), put_file y codec draw payload aad k w)

  -- `save` of a value whose JSON is `payload`
  unfoldable pub save :
      System B → Codec B → Draw B → String → String → B → Exec (Workspace B) WorkspaceError String
  save y codec draw id name payload w =
      saved y codec draw payload (artifact_aad id name) (artifact_path y id name) w

  abbrev pub read_path :
      System B
      → Codec B
      → Workspace B
      → String
      → Result WorkspaceError FileKey
      → Result WorkspaceError B
  read_path y codec w aad (err x) = err x
  read_path y codec w aad (ok k) = read_bytes y codec w k aad

  abbrev pub validated {ℓ} :
      {A : Type ℓ} → (B → Option A) → Result WorkspaceError B → Result WorkspaceError A
  validated parse (err x) = err x
  validated parse (ok m) = elim (parse m) [ none ↦ err invalid_value | some a ↦ ok a ]

  -- `load`; `parse` is `model_validate_json`
  unfoldable pub load {ℓ} :
      {A : Type ℓ}
      → System B
      → Codec B
      → (B → Option A)
      → String
      → String
      → Workspace B
      → Result WorkspaceError A
  load y codec parse id name w =
      validated parse (read_path y codec w (artifact_aad id name) (artifact_path y id name))

  abbrev is_there : Option B → Bool
  is_there none = false
  is_there (some _) = true

  -- `exists`
  unfoldable pub has_artifact :
      System B → String → String → Workspace B → Result WorkspaceError Bool
  has_artifact y id name w = elim (artifact_path y id name) [
    | err x ↦ err x
    | ok k ↦ ok (is_there (get k w.files))
  ]

  abbrev hashed : System B → Option B → Result WorkspaceError String
  hashed y none = err not_found
  hashed y (some c) = ok (y.sha256 c)

  -- `artifact_hash`, of the file as it is stored
  unfoldable pub artifact_hash :
      System B → String → String → Workspace B → Result WorkspaceError String
  artifact_hash y id name w = elim (artifact_path y id name) [
    | err x ↦ err x
    | ok k ↦ hashed y (get k w.files)
  ]

  abbrev matching : System B → String → Result WorkspaceError B → Result WorkspaceError B
  matching y digest (err x) = err x
  matching y digest (ok m) = if y.sha256 m == digest then ok m else err hash_mismatch

  unfoldable pub read_pdf :
      System B → Codec B → String → String → String → Workspace B → Result WorkspaceError B
  read_pdf y codec id filename digest w =
      check_if (not (y.path_name filename == filename)) unsafe_filename (
        matching y digest
          (read_path y codec w (document_aad id filename) (document_path y id filename)))

  -- `unlink(missing_ok=True)` of each artifact; a refused path ends the loop
  unfoldable pub unlink_all :
      System B → String → List String → Exec (Workspace B) WorkspaceError (Unit {0})
  unlink_all y id [] w = (ok tt, w)
  unlink_all y id (n ∷ ns) w = elim (artifact_path y id n) [
    | err x ↦ (err x, w)
    | ok k ↦ unlink_all y id ns (record w { files = remove k w.files })
  ]

  unfoldable pub invalidate_from :
      System B → String → WorkerName → Exec (Workspace B) WorkspaceError (Unit {0})
  invalidate_from y id human_review w = (err past_guardrails, w)
  invalidate_from y id worker w = unlink_all y id (invalidated worker) w

  abbrev pub has_file : String → Dict FileKey B → Bool
  has_file id [] = false
  has_file id ((k, c) ∷ d) = belongs id k || has_file id d

  abbrev pub deleted : Result WorkspaceError String → Exec (Workspace B) WorkspaceError Bool
  deleted (err x) w = (err x, w)
  deleted (ok id) w =
      if contains id w.folders || has_file id w.files
      then (
        ok true,
        record w {
          files = drop_keys (belongs id) w.files;
          folders = keep (λ f. not (f == id)) w.folders;
        },
      )
      else (ok false, w)

  unfoldable pub delete_application : System B → String → Exec (Workspace B) WorkspaceError Bool
  delete_application y id w = deleted (folder y id) w
