-- ===== src/Workspace/Storing.antt =====
-- Saving and staging put into the files what the specification puts into the contents.
use funder_match.Base.{
  Bool-cases, Exec, List, Option, Result, Result-cases, String, [], clash, err, inl, inr, length,
  nat_eq, none, ok, ok-injective, pure, refl, some, string_eq, subst, sym, ℕ, ◌==◌, ◌>>=◌, ◌>>◌,
  ◌∷◌, ◌≡◌,
}
use funder_match.Orchestration.Schema.{InputReference}
use funder_match.Json.{Payload}
use funder_match.Workspace.Files.{
  System, Codec, FileKey, file_eq, Workspace, Draw, WorkspaceError, artifact_path, document_path,
  associated, artifact_aad, document_aad, read_bytes,
}
use funder_match.Workspace.Operations.{StagedFile, StagedApplication, saved, save}
use funder_match.Workspace.Staging.{stage_on, stage_at, refused, stage_one, stage_files, references}
use funder_match.Workspace.Contents.{IsSound, Contents, as_read, Holds, put_file-Holds}
use funder_match.Workspace.Naming.{IsPlain, document_path-associated, artifact_path-associated}
use funder_match.Workspace.Specification.{
  put_at, hold_on, hold_at, hold_checked, hold_files, hold_request,
}

module _ {B : Type 0} (y : System B) (codec : Codec B) where
  -- Two runs with one result, of which the second leaves what the first one's files hold.
  pub record Simulates {A : Type 0} (p : Result WorkspaceError A × Workspace B)
      (q : Result WorkspaceError A × Contents B) : Type 0 where
    pub same : p.0 ≡ q.0
    pub holds : Holds y codec p.1 q.1

  then-Simulates :
      {A C : Type 0} (k : A → Exec (Workspace B) WorkspaceError C)
      (l : A → Exec (Contents B) WorkspaceError C) (p : Result WorkspaceError A × Workspace B)
      (q : Result WorkspaceError A × Contents B)
      → Simulates p q
      → ((a : A) (w : Workspace B) (f : Contents B) → Holds y codec w f → Simulates (k a w) (l a f))
      → Simulates (((λ (w : Workspace B). p) >>= k) p.1) (((λ (f : Contents B). q) >>= l) q.1)
  then-Simulates k l (ok a, w) (ok b, f) h next =
      subst (λ c. Simulates (k a w) (l c f)) (ok-injective h.same) (next a w f h.holds)
  then-Simulates k l (ok a, w) (err e, f) h next = absurd (apart a e h.same)
    where
      apart :
          {A : Type 0} (a : A) (e : WorkspaceError)
          → ◌≡◌ {A = Result WorkspaceError A} (ok a) (err e)
          → ⊥
      apart a e p = cc
  then-Simulates k l (err e, w) (ok b, f) h next = absurd (apart b e h.same)
    where
      apart :
          {A : Type 0} (a : A) (e : WorkspaceError)
          → ◌≡◌ {A = Result WorkspaceError A} (err e) (ok a)
          → ⊥
      apart a e p = cc
  then-Simulates k l (err e, w) (err x, f) h next = record { same = cc; holds = h.holds }

  pub folders-Holds :
      (fs : List String) (w : Workspace B) (f : Contents B)
      → Holds y codec w f
      → Holds y codec (record w { folders = fs }) f
  unfolding read_bytes
  folders-Holds fs w f h = record { unique = h.unique; reads = h.reads }

  module _ (sound : IsSound y codec) where
    pub saved-Holds :
        (draw : Draw B) (m : B) (aad : String) (r : Result WorkspaceError FileKey) (w : Workspace B)
        (f : Contents B)
        → ((k : FileKey) → r ≡ ok k → aad ≡ associated y k)
        → Holds y codec w f
        → Holds y codec (saved y codec draw m aad r w).1 (put_at m r f)
    saved-Holds draw m aad (err x) w f named h = h
    saved-Holds draw m aad (ok k) w f named h =
        put_file-Holds y codec sound draw m aad k w f (named k refl) h

    stage_on-Simulates :
        (draw : Draw B) (name : String) (content : B) (aad : String) (k : FileKey) (w : Workspace B)
        (f : Contents B) (o : Option B)
        → aad ≡ associated y k
        → Holds y codec w f
        → Simulates
            (stage_on y codec draw name content aad k w (as_read o))
            (hold_on y name content k f o)
    stage_on-Simulates draw name content aad k w f none named h = record {
      same = refl;
      holds = put_file-Holds y codec sound draw content aad k w f named h;
    }
    stage_on-Simulates draw name content aad k w f (some old) named h =
        elim (Bool-cases (y.sha256 old == y.sha256 content)) [
          | inl match ↦ rw match (record { same = refl; holds = h })
          | inr clash ↦ rw clash (record { same = refl; holds = h })
        ]

    stage_at-Simulates :
        (draw : Draw B) (name : String) (content : B) (aad : String)
        (r : Result WorkspaceError FileKey) (w : Workspace B) (f : Contents B)
        → ((k : FileKey) → r ≡ ok k → aad ≡ associated y k)
        → Holds y codec w f
        → Simulates (stage_at y codec draw name content aad r w) (hold_at y name content r f)
    stage_at-Simulates draw name content aad (err x) w f named h = record { same = refl; holds = h }
    stage_at-Simulates draw name content aad (ok k) w f named h =
        let read =
          subst (λ a. read_bytes y codec w k a ≡ as_read (f k)) (sym (named k refl)) (h.reads k) in
        rw read (stage_on-Simulates draw name content aad k w f (f k) (named k refl) h)

    stage_one-Simulates :
        (max_file : ℕ) (id : String) (draw : Draw B) (name : String) (content : B) (w : Workspace B)
        (f : Contents B)
        → Holds y codec w f
        → Simulates
            (stage_one y codec max_file id draw name content w)
            (hold_checked y id name content (refused y max_file name content) f)
    unfolding stage_one
    stage_one-Simulates max_file id draw name content w f h =
        elim (Result-cases (refused y max_file name content)) [
          | inr (x, bad) ↦ rw (bad, stage_one) (record { same = refl; holds = h })
          | inl (t, good) ↦
              rw (good, stage_one)
                (stage_at-Simulates draw name content (document_aad id name)
                  (document_path y id name) w f (document_path-associated y id name) h)
        ]

    pub stage_files-Simulates :
        (max_file : ℕ) (id : String) (draws : ℕ → Draw B) (fs : List (String × B)) (w : Workspace B)
        (f : Contents B)
        → Holds y codec w f
        → Simulates (stage_files y codec max_file id draws fs w) (hold_files y max_file id fs f)
    unfolding stage_files hold_files
    stage_files-Simulates max_file id draws [] w f h = record { same = refl; holds = h }
    stage_files-Simulates max_file id draws ((name, content) ∷ fs) w f h =
        then-Simulates (λ a. stage_files y codec max_file id draws fs >>= λ rest. pure (a ∷ rest))
          (λ a. hold_files y max_file id fs >>= λ rest. pure (a ∷ rest))
          (stage_one y codec max_file id (draws (length fs)) name content w)
          (hold_checked y id name content (refused y max_file name content) f)
          (stage_one-Simulates max_file id (draws (length fs)) name content w f h)
          (λ a v g held.
            then-Simulates (λ rest. pure (a ∷ rest)) (λ rest. pure (a ∷ rest))
              (stage_files y codec max_file id draws fs v) (hold_files y max_file id fs g)
              (stage_files-Simulates max_file id draws fs v g held)
              (λ b u e kept. record { same = refl; holds = kept }))

    module _ (dump : StagedApplication → B) where
      -- what `stage` does once the files are staged
      abbrev pub end_stage :
          Draw B
          → String
          → Payload
          → List StagedFile
          → Exec (Workspace B) WorkspaceError (List InputReference)
      end_stage draw id s staged =
          save y codec draw id "request"
            (dump (record { application_id = id; submission = s; files = staged }))
          >> pure (references staged)

      references-state :
          (staged : List StagedFile) (p : Result WorkspaceError String × Workspace B)
          → (((λ (w : Workspace B). p) >> pure (references staged)) p.1).1 ≡ p.1
      references-state staged (ok d, w) = refl
      references-state staged (err x, w) = refl

      pub end_stage-Holds :
          (draw : Draw B) (id : String) (s : Payload)
          (p : Result WorkspaceError (List StagedFile) × Workspace B)
          (q : Result WorkspaceError (List StagedFile) × Contents B)
          → IsPlain y "request"
          → Simulates p q
          → Holds y codec
              (((λ (w : Workspace B). p) >>= end_stage draw id s) p.1).1
              (hold_request y dump id s q)
      unfolding save
      end_stage-Holds draw id s (ok a, w) (ok b, f) plain h =
          let m : List StagedFile → B =
            λ staged. dump (record { application_id = id; submission = s; files = staged }) in
          let written =
            saved-Holds draw (m a) (artifact_aad id "request") (artifact_path y id "request") w f
              (artifact_path-associated y id "request" plain) h.holds in
          subst
            (λ c. Holds y codec (end_stage draw id s a w).1 (hold_request y dump id s (ok c, f)))
            (ok-injective h.same)
            (rw
              (references-state a (
                saved y codec draw (m a) (artifact_aad id "request") (artifact_path y id "request")
                  w))
              written)
      end_stage-Holds draw id s (ok a, w) (err e, f) plain h = absurd (apart a e h.same)
        where
          apart :
              (a : List StagedFile) (e : WorkspaceError)
              → ◌≡◌ {A = Result WorkspaceError (List StagedFile)} (ok a) (err e)
              → ⊥
          apart a e p = cc
      end_stage-Holds draw id s (err e, w) (ok b, f) plain h = absurd (apart b e h.same)
        where
          apart :
              (a : List StagedFile) (e : WorkspaceError)
              → ◌≡◌ {A = Result WorkspaceError (List StagedFile)} (err e) (ok a)
              → ⊥
          apart a e p = cc
      end_stage-Holds draw id s (err e, w) (err x, f) plain h = h.holds
