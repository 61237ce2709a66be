-- ===== src/Workspace/Roundtrip.antt =====
-- A value that is saved is loaded again.
use funder_match.Base.{
  ==-refl, All, List, Option, String, [], get, nat_eq, none, ok, refl, some, string_eq, subst, sym,
  ◌∙◌, ◌∷◌, ◌≡◌,
}
use funder_match.Workspace.Files.{
  System, Codec, FileKey, file_eq, Workspace, Draw, artifact_path, read_bytes, associated,
  artifact_aad,
}
use funder_match.Workspace.Operations.{StagedApplication, saved, save, validated, load}
use funder_match.Workspace.Rewrapping.{rewrap_all}
use funder_match.Workspace.Contents.{IsSound, Contents, as_read, put_contents, Holds}
use funder_match.Workspace.Naming.{IsPlain, artifact_path-associated}
use funder_match.Workspace.Specification.{IsNamed, Operation, run_all, plain_all}
use funder_match.Workspace.Storing.{saved-Holds}
use funder_match.Workspace.Refinement.{run_all-Holds, rewrap-Holds}

-- A workspace without files.
abbrev pub bare : {B : Type 0} → Option B → String → Workspace B
bare key version = record { files = []; folders = []; master_key = key; key_version = version }

-- One key rotation: the key, its version, and the nonces that the files draw.
pub record Turn (B : Type 0) : Type 0 where
  pub key : B
  pub version : String
  pub nonces : FileKey → B

module _ {B : Type 0} (y : System B) (codec : Codec B) where
  unfoldable pub rotate_all : List (Turn B) → Workspace B → Workspace B
  rotate_all [] w = w
  rotate_all (t ∷ ts) w = rotate_all ts (rewrap_all y codec t.key t.version t.nonces w).1

  rotate_all-Holds :
      (dump : StagedApplication → B) (ts : List (Turn B)) (w : Workspace B) (f : Contents B)
      → IsSound y codec
      → Holds y codec w f
      → Holds y codec (rotate_all ts w) f
  unfolding rotate_all
  rotate_all-Holds dump [] w f sound h = h
  rotate_all-Holds dump (t ∷ ts) w f sound h =
      rotate_all-Holds dump ts (rewrap_all y codec t.key t.version t.nonces w).1 f sound
        (rewrap-Holds y codec dump t.key t.version t.nonces w f sound h)

  load-Holds :
      {A : Type 0} (parse : B → Option A) (id name : String) (k : FileKey) (m : B) (a : A)
      (w : Workspace B) (f : Contents B)
      → artifact_path y id name ≡ ok k
      → IsPlain y name
      → f k ≡ some m
      → parse m ≡ some a
      → Holds y codec w f
      → load y codec parse id name w ≡ ok a
  unfolding load
  load-Holds parse id name k m a w f path plain held parses h =
      let aad : artifact_aad id name ≡ associated y k =
        artifact_path-associated y id name plain k path in
      let here : read_bytes y codec w k (artifact_aad id name) ≡ as_read (f k) =
        subst (λ a. read_bytes y codec w k a ≡ as_read (f k)) (sym aad) (h.reads k) in
      let read : read_bytes y codec w k (artifact_aad id name) ≡ ok m = rw held at here in
      rw path (rw read (rw (parses, validated) refl))

  -- A cipher that decrypts what it encrypts, JSON that reads back, and a value that its own JSON gives
  -- back, given: after any operations on an empty workspace, a value saved under a safe name is loaded
  -- as it was, also after any changes of the master key, where the names of the saved artifacts, its own
  -- among them, are found again from their paths, on which no directory is called like a file of an
  -- artifact.
  pub load-save :
      {A : Type 0} (dump : StagedApplication → B) (os : List (Operation B)) (key : Option B)
      (version : String) (ts : List (Turn B)) (draw : Draw B) (id name : String) (k : FileKey)
      (dumps : A → B) (parse : B → Option A) (a : A)
      → IsSound y codec
      → All (IsNamed y) os
      → IsPlain y name
      → artifact_path y id name ≡ ok k
      → parse (dumps a) ≡ some a
      → let w = run_all y codec dump os (bare key version) in
        load y codec parse id name (rotate_all ts (save y codec draw id name (dumps a) w).1) ≡ ok a
  unfolding save read_bytes get
  load-save dump os key version ts draw id name k dumps parse a sound named plain path parses =
      let w = run_all y codec dump os (bare key version) in
      let f = plain_all y dump os (λ j. none) in
      let nothing : Holds y codec (bare key version) (λ j. none) = record {
        unique = tt;
        reads = λ j. refl;
      } in
      let before : Holds y codec w f =
        run_all-Holds y codec dump os (bare key version) (λ j. none) sound named nothing in
      let aad : (j : FileKey) → ok k ≡ ok j → artifact_aad id name ≡ associated y j =
        λ j good. artifact_path-associated y id name plain j (path ∙ good) in
      let after : Holds y codec (saved y codec draw (dumps a) (artifact_aad id name) (ok k) w).1
          (put_contents k (dumps a) f) =
        saved-Holds y codec sound draw (dumps a) (artifact_aad id name) (ok k) w f aad before in
      let there : put_contents k (dumps a) f k ≡ some (dumps a) = rw (==-refl k) refl in
      rw path (
        load-Holds parse id name k (dumps a) a
          (rotate_all ts (saved y codec draw (dumps a) (artifact_aad id name) (ok k) w).1)
          (put_contents k (dumps a) f) path plain there parses
          (rotate_all-Holds dump ts (saved y codec draw (dumps a) (artifact_aad id name) (ok k) w).1
            (put_contents k (dumps a) f) sound after))
