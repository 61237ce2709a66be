-- ===== src/Workspace/Removing.antt =====
-- Removing files, one by one or with their application.
use funder_match.Base.{
  Bool, Bool-cases, Dict, IsDict, List, Result-cases, String, [], arith, contains, false, get,
  if◌then◌else◌, inl, inr, nat_eq, none, ok, refl, remove, string_eq, true, ◌||◌, ◌∷◌, ◌≡◌,
}
use funder_match.Workspace.Files.{
  System, Codec, FileKey, file_eq, Workspace, artifact_path, read_bytes, opened_file, associated,
}
use funder_match.Workspace.Operations.{unlink_all, belongs, has_file, drop_keys, deleted}
use funder_match.Workspace.Contents.{Contents, as_read, remove_contents, Holds, remove-Holds}
use funder_match.Workspace.Specification.{forget, forget_application}

module _ {B : Type 0} (y : System B) (codec : Codec B) where
  pub unlink_all-Holds :
      (id : String) (ns : List String) (w : Workspace B) (f : Contents B)
      → Holds y codec w f
      → Holds y codec (unlink_all y id ns w).1 (forget y id ns f)
  unfolding unlink_all forget
  unlink_all-Holds id [] w f h = h
  unlink_all-Holds id (n ∷ ns) w f h = elim (Result-cases (artifact_path y id n)) [
    | inr (x, bad) ↦ rw (bad, unlink_all, forget) h
    | inl (k, good) ↦
        rw (good, unlink_all, forget)
          (unlink_all-Holds id ns (record w { files = remove k w.files }) (remove_contents k f)
            (remove-Holds y codec k w f h))
  ]

  has_file-none :
      (id : String) (k : FileKey) (d : Dict FileKey B)
      → has_file id d ≡ false
      → belongs id k ≡ true
      → get k d ≡ none
  unfolding get
  has_file-none id k [] h own = refl
  has_file-none id k ((j, c) ∷ d) h own = ground (arith, has_file-none id k d)

  get-drop_keys :
      (p : FileKey → Bool) (k : FileKey) (d : Dict FileKey B)
      → get k (drop_keys p d) ≡ (if p k then none else get k d)
  unfolding get drop_keys
  get-drop_keys p k [] = ground arith
  get-drop_keys p k ((j, c) ∷ d) = ground (arith, get-drop_keys p k d)

  drop_keys-IsDict : (p : FileKey → Bool) (d : Dict FileKey B) → IsDict d → IsDict (drop_keys p d)
  unfolding get drop_keys
  drop_keys-IsDict p [] h = h
  drop_keys-IsDict p ((j, c) ∷ d) h = elim (Bool-cases (p j)) [
    | inl out ↦ rw out (drop_keys-IsDict p d h.1)
    | inr stays ↦ rw stays (ground (arith, get-drop_keys p j d), drop_keys-IsDict p d h.1)
  ]

  pub deleted-Holds :
      (id : String) (w : Workspace B) (f : Contents B)
      → Holds y codec w f
      → Holds y codec (deleted (ok id) w).1 (forget_application id f)
  unfolding read_bytes
  deleted-Holds id w f h = elim (Bool-cases (contains id w.folders || has_file id w.files)) [
    | inl there ↦ rw there (record {
      unique = drop_keys-IsDict (belongs id) w.files h.unique;
      reads = λ k. dropped_reads k;
    })
    | inr absent ↦
        rw absent (record { unique = h.unique; reads = λ k. absent_reads (ground arith) k })
  ]
    where
      dropped_reads :
          (k : FileKey)
          → opened_file y codec w.master_key
              (associated y k)
              (get k (drop_keys (belongs id) w.files))
            ≡ as_read (forget_application id f k)
      dropped_reads k = elim (Bool-cases (belongs id k)) [
        | inl own ↦ rw (get-drop_keys (belongs id) k w.files, own) refl
        | inr other ↦ rw (get-drop_keys (belongs id) k w.files, other) (h.reads k)
      ]

      absent_reads :
          has_file id w.files ≡ false
          → (k : FileKey)
          → opened_file y codec w.master_key (associated y k) (get k w.files)
            ≡ as_read (forget_application id f k)
      absent_reads no_file k = elim (Bool-cases (belongs id k)) [
        | inl own ↦ rw (has_file-none id k w.files no_file own, own) refl
        | inr other ↦ rw other (h.reads k)
      ]
