-- ===== src/Workspace/Refinement.antt =====
-- The encrypted workspace implements its specification.
use funder_match.Base.{
  All, Bool-cases, List, Option, Option-cases, Result-cases, String, [], ap, err, get, inl, inr,
  ltb, nat_eq, none, refl, string_eq, subst, sym, ℕ, ◌==◌, ◌∙◌, ◌∷◌, ◌≡◌,
}
use funder_match.Orchestration.Schema.{WorkerName, human_review}
use funder_match.Json.{Payload}
use funder_match.Workspace.Files.{
  System, Codec, FileKey, file_eq, Workspace, Draw, no_encryption, wrong_key_size, folder,
  artifact_path, read_bytes, associated, artifact_aad,
}
use funder_match.Workspace.Operations.{
  StagedApplication, save, invalidated, invalidate_from, delete_application, add_folder,
}
use funder_match.Workspace.Staging.{stage_files, stage, batch_size, has_none}
use funder_match.Workspace.Rewrapping.{rewrap_from, rewrap_all}
use funder_match.Workspace.Contents.{IsSound, Contents, as_read, Holds}
use funder_match.Workspace.Rotation.{rewrap_all-Holds}
use funder_match.Workspace.Storing.{
  folders-Holds, saved-Holds, stage_files-Simulates, end_stage-Holds,
}
use funder_match.Workspace.Removing.{unlink_all-Holds, deleted-Holds}
use funder_match.Workspace.Naming.{IsPlain, artifact_path-associated}
use funder_match.Workspace.Specification.{
  IsNamed, Operation, save_operation, stage_operation, invalidate_operation, delete_operation,
  rewrap_operation, hold_files, hold, run, run_all, plain, plain_all,
}

module _ {B : Type 0} (y : System B) (codec : Codec B) (dump : StagedApplication → B) where
  stage-Holds :
      (id : String) (s : Payload) (files : List (String × B)) (max_file max_batch : ℕ)
      (draws : ℕ → Draw B) (draw : Draw B) (w : Workspace B) (f : Contents B)
      → IsSound y codec
      → IsPlain y "request"
      → Holds y codec w f
      → Holds y codec
          (stage y codec dump draws draw id s files max_file max_batch w).1
          (hold y dump id s files max_file max_batch f)
  unfolding stage
  stage-Holds id s files max_file max_batch draws draw w f sound named h =
      elim (Bool-cases (has_none files)) [
        | inl empty ↦ rw empty h
        | inr some_file ↦ elim (Bool-cases (ltb max_batch (batch_size y files))) [
          | inl large ↦ rw (some_file, large) h
          | inr small ↦ elim (Result-cases (folder y id)) [
            | inr (x, bad) ↦ rw (some_file, small, bad) h
            | inl (i, good) ↦
                let v : Workspace B = record w { folders = add_folder i w.folders } in
                rw (some_file, small, good)
                  (end_stage-Holds y codec sound dump draw id s
                    (stage_files y codec max_file id draws files v)
                    (hold_files y max_file id files f) named
                    (stage_files-Simulates y codec sound max_file id draws files v f
                      (folders-Holds y codec (add_folder i w.folders) w f h)))
          ]
        ]
      ]

  delete-Holds :
      (id : String) (w : Workspace B) (f : Contents B)
      → Holds y codec w f
      → Holds y codec (delete_application y id w).1 (plain y dump (delete_operation id) f)
  unfolding delete_application plain
  delete-Holds id w f h = elim (Result-cases (folder y id)) [
    | inr (x, bad) ↦ rw (bad, delete_application, plain) h
    | inl (i, good) ↦ rw (good, delete_application, plain) (deleted-Holds y codec i w f h)
  ]

  pub rewrap-Holds :
      (new : B) (version : String) (nonces : FileKey → B) (w : Workspace B) (f : Contents B)
      → IsSound y codec
      → Holds y codec w f
      → Holds y codec (rewrap_all y codec new version nonces w).1 f
  unfolding rewrap_all
  rewrap-Holds new version nonces w f sound h = elim (Option-cases w.master_key) [
    | inl plain_text ↦
        let refusal : rewrap_all y codec new version nonces w ≡ (err no_encryption, w) =
          ap (rewrap_from y codec new version nonces w) plain_text in
        subst (λ p. Holds y codec p.1 f) (sym refusal) h
    | inr (old, locked) ↦ elim (Bool-cases (y.key_size new == 32)) [
      | inl size ↦ (rewrap_all-Holds y codec sound old new version nonces w f locked size h).1
      | inr size ↦
          let refusal : rewrap_all y codec new version nonces w ≡ (err wrong_key_size, w) =
            ap (rewrap_from y codec new version nonces w) locked ∙ rw size refl in
          subst (λ p. Holds y codec p.1 f) (sym refusal) h
    ]
  ]

  pub run-Holds :
      (o : Operation B) (w : Workspace B) (f : Contents B)
      → IsSound y codec
      → IsNamed y o
      → Holds y codec w f
      → Holds y codec (run y codec dump o w) (plain y dump o f)
  unfolding run plain save invalidate_from IsNamed
  run-Holds (save_operation id name m draw) w f sound named h =
      saved-Holds y codec sound draw m (artifact_aad id name) (artifact_path y id name) w f
        (artifact_path-associated y id name named) h
  run-Holds (stage_operation id s files max_file max_batch draws draw) w f sound named h =
      stage-Holds id s files max_file max_batch draws draw w f sound named h
  run-Holds (invalidate_operation id WorkerName.document_processing) w f sound named h =
      unlink_all-Holds y codec id (invalidated WorkerName.document_processing) w f h
  run-Holds (invalidate_operation id WorkerName.financial_analysis) w f sound named h =
      unlink_all-Holds y codec id (invalidated WorkerName.financial_analysis) w f h
  run-Holds (invalidate_operation id WorkerName.eligibility) w f sound named h =
      unlink_all-Holds y codec id (invalidated WorkerName.eligibility) w f h
  run-Holds (invalidate_operation id WorkerName.precedent_retrieval) w f sound named h =
      unlink_all-Holds y codec id (invalidated WorkerName.precedent_retrieval) w f h
  run-Holds (invalidate_operation id WorkerName.suggestion) w f sound named h =
      unlink_all-Holds y codec id (invalidated WorkerName.suggestion) w f h
  run-Holds (invalidate_operation id WorkerName.guardrails) w f sound named h =
      unlink_all-Holds y codec id (invalidated WorkerName.guardrails) w f h
  run-Holds (invalidate_operation id human_review) w f sound named h = h
  run-Holds (delete_operation id) w f sound named h = delete-Holds id w f h
  run-Holds (rewrap_operation key version nonces) w f sound named h =
      rewrap-Holds key version nonces w f sound h

  pub run_all-Holds :
      (os : List (Operation B)) (w : Workspace B) (f : Contents B)
      → IsSound y codec
      → All (IsNamed y) os
      → Holds y codec w f
      → Holds y codec (run_all y codec dump os w) (plain_all y dump os f)
  unfolding run_all plain_all
  run_all-Holds [] w f sound named h = h
  run_all-Holds (o ∷ os) w f sound named h =
      run_all-Holds os (run y codec dump o w) (plain y dump o f) sound named.1
        (run-Holds o w f sound named.0 h)

  -- A cipher that decrypts what it encrypts, JSON that reads back, and saved artifacts whose names are
  -- found again from their paths, on which no directory is called like a file of an artifact, given:
  -- after any operations on an empty workspace, with a master key or without one, each file of an
  -- application is there exactly when the specification holds it, and reads, with the associated data
  -- of its path, as its contents there, whatever keys and nonces were drawn and however often the
  -- master key was changed.
  pub run_all-refines :
      (os : List (Operation B)) (key : Option B) (version : String) (k : FileKey)
      → IsSound y codec
      → All (IsNamed y) os
      → read_bytes y codec
          (run_all y codec dump os
            (record { files = []; folders = []; master_key = key; key_version = version }))
          k
          (associated y k)
        ≡ as_read (plain_all y dump os (λ j. none) k)
  unfolding read_bytes get
  run_all-refines os key version k sound named =
      let nothing : Holds y codec
          (record { files = []; folders = []; master_key = key; key_version = version })
          (λ j. none) =
        record { unique = tt; reads = λ j. refl } in
      (run_all-Holds os
          (record { files = []; folders = []; master_key = key; key_version = version }) (λ j. none)
          sound named nothing).reads
        k
