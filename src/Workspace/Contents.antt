-- ===== src/Workspace/Contents.antt =====
-- What the files of a workspace hold, once they are opened.
use funder_match.Base.{
  ==_iff, Bool-cases, IsDict, Option, Result, String, err, get-put, get-remove, if◌then◌else◌, inl,
  inr, nat_eq, none, ok, put-IsDict, refl, remove, remove-IsDict, some, string_eq, subst, ◌==◌, ◌≡◌,
}
use funder_match.Workspace.Files.{
  System, Codec, Envelope, FileKey, file_eq, Workspace, Draw, WorkspaceError, not_found, associated,
  sealed, opened, write_bytes, read_bytes,
}
use funder_match.Workspace.Operations.{put_file}

-- The documented behaviour of AES-GCM and of JSON with base64.
pub record IsSound {B : Type 0} (y : System B) (codec : Codec B) : Type 0 where
  pub decrypts :
      (key nonce m : B) (aad : String)
      → y.decrypt key nonce (y.encrypt key nonce m aad) aad ≡ some m
  pub loads_back : (v : Envelope B) → codec.loads (codec.dumps v) ≡ some v

-- The plain contents of the files.
abbrev pub Contents : Type 0 → Type 0
Contents B = FileKey → Option B

module _ {B : Type 0} where
  abbrev pub as_read : Option B → Result WorkspaceError B
  as_read none = err not_found
  as_read (some m) = ok m

  abbrev pub put_contents : FileKey → B → Contents B → Contents B
  put_contents k m f j = if k == j then some m else f j

  abbrev pub remove_contents : FileKey → Contents B → Contents B
  remove_contents k f j = if k == j then none else f j

  -- Each file that is there opens to its contents, with what a rotation finds from its path, and there
  -- is no other one.
  pub record Holds (y : System B) (codec : Codec B) (w : Workspace B) (f : Contents B)
      : Type 0 where
    pub unique : IsDict w.files
    pub reads : (k : FileKey) → read_bytes y codec w k (associated y k) ≡ as_read (f k)

  module _ (y : System B) (codec : Codec B) (sound : IsSound y codec) where
    sealed-opened :
        (version : String) (key : Option B) (draw : Draw B) (m : B) (aad : String)
        → opened y codec key aad (sealed y codec version key draw m aad) ≡ ok m
    sealed-opened version none draw m aad = refl
    sealed-opened version (some key) draw m aad =
        let v : Envelope B = record {
          key_version = version;
          data_nonce = draw.data_nonce;
          key_nonce = draw.key_nonce;
          ciphertext = y.encrypt draw.dek draw.data_nonce m aad;
          wrapped_key = y.encrypt key draw.key_nonce draw.dek aad;
        } in
        rw (sound.loads_back v) (
          rw (sound.decrypts key draw.key_nonce draw.dek aad)
            (rw (sound.decrypts draw.dek draw.data_nonce m aad) refl))

    pub put_file-Holds :
        (draw : Draw B) (m : B) (aad : String) (k : FileKey) (w : Workspace B) (f : Contents B)
        → aad ≡ associated y k
        → Holds y codec w f
        → Holds y codec (put_file y codec draw m aad k w) (put_contents k m f)
    unfolding read_bytes write_bytes
    put_file-Holds draw m aad k w f found h = record {
      unique = put-IsDict k (write_bytes y codec w draw m aad) w.files h.unique;
      reads = λ j. put_reads j;
    }
      where
        put_reads :
            (j : FileKey)
            → read_bytes y codec (put_file y codec draw m aad k w) j (associated y j)
              ≡ as_read (put_contents k m f j)
        put_reads j = elim (Bool-cases (k == j)) [
          | inl same ↦
              let there : k ≡ j = (==_iff k j).0 same in
              rw (get-put j k (write_bytes y codec w draw m aad) w.files, same)
                (subst
                  (λ i.
                    opened y codec w.master_key (associated y i) (write_bytes y codec w draw m aad)
                    ≡ ok m)
                  there
                  (subst
                    (λ a. opened y codec w.master_key a (write_bytes y codec w draw m aad) ≡ ok m)
                    found (sealed-opened w.key_version w.master_key draw m aad)))
          | inr other ↦
              rw (get-put j k (write_bytes y codec w draw m aad) w.files, other) (h.reads j)
        ]

  pub remove-Holds :
      (y : System B) (codec : Codec B) (k : FileKey) (w : Workspace B) (f : Contents B)
      → Holds y codec w f
      → Holds y codec (record w { files = remove k w.files }) (remove_contents k f)
  unfolding read_bytes
  remove-Holds y codec k w f h = record {
    unique = remove-IsDict k w.files h.unique;
    reads = λ j. removed_reads j;
  }
    where
      removed_reads :
          (j : FileKey)
          → read_bytes y codec (record w { files = remove k w.files }) j (associated y j)
            ≡ as_read (remove_contents k f j)
      removed_reads j = elim (Bool-cases (k == j)) [
        | inl same ↦ rw (get-remove j k w.files, same) refl
        | inr other ↦ rw (get-remove j k w.files, other) (h.reads j)
      ]
