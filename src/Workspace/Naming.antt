-- ===== src/Workspace/Naming.antt =====
-- A file is written with the associated data that a rotation of the key finds from its path.
use funder_match.Base.{
  List, Result, String, [], any, ap, arith, check_if-ok, err, false, nat_eq, ok, ok-injective, refl,
  string_eq, sym, ◌==◌, ◌||◌, ◌∙◌, ◌∷◌, ◌≡◌,
}
use funder_match.Workspace.Files.{
  System, FileKey, document, artifact, folder, in_folder, artifact_path, document_path, associated,
  artifact_aad, document_aad, WorkspaceError, unsafe_artifact, is_unsafe_part,
}

-- the directories of a path
abbrev pub parents : List String → List String
parents [] = []
parents (x ∷ []) = []
parents (x ∷ y ∷ ys) = x ∷ parents (y ∷ ys)

module _ {B : Type 0} (y : System B) where
  -- The name of an artifact is found again from its path, and no directory on it is called like a file
  -- of an artifact.
  pub record IsPlain (name : String) : Type 0 where
    pub found_again : y.without_suffix (y.json_path name) ≡ name
    pub no_file_above : any y.is_json_name (parents (y.path_parts name)) ≡ false

  folder-same : (id i : String) → folder y id ≡ ok i → id ≡ i
  unfolding folder
  folder-same id i h = ground arith

  in_folder-found :
      (f : String → FileKey) (k : FileKey) (r : Result WorkspaceError String)
      → in_folder f r ≡ ok k
      → (i : String) × ((r ≡ ok i) × (f i ≡ k))
  in_folder-found f k (err x) h = cc
  in_folder-found f k (ok i) h = (i, (refl, ok-injective h))

  pub document_path-associated :
      (id name : String) (k : FileKey)
      → document_path y id name ≡ ok k
      → document_aad id name ≡ associated y k
  unfolding document_path associated
  document_path-associated id name k h =
      let (i, (found, same)) = in_folder-found (λ i. document i name) k (folder y id) h in
      ap (λ i. document_aad i name) (folder-same id i found) ∙ ap (associated y) same

  pub artifact_path-associated :
      (id name : String)
      → IsPlain name
      → (k : FileKey) → artifact_path y id name ≡ ok k
      → artifact_aad id name ≡ associated y k
  unfolding artifact_path associated
  artifact_path-associated id name plain k h =
      let inside : in_folder (λ i. artifact i (y.json_path name)) (folder y id) ≡ ok k =
        (check_if-ok (name == "" || any is_unsafe_part (y.path_parts name)) unsafe_artifact
          (in_folder (λ i. artifact i (y.json_path name)) (folder y id)) h).1 in
      let (i, (found, same)) =
        in_folder-found (λ i. artifact i (y.json_path name)) k (folder y id) inside in
      ap (λ i. artifact_aad i name) (folder-same id i found)
      ∙ ap (artifact_aad i) (sym plain.found_again)
      ∙ ap (associated y) same
