-- ===== src/Workspace/Files.antt =====
-- The encrypted files of `ApplicationWorkspace`, src/fundermatch/orchestration/workspace.py. Bytes are
-- a type `B`; the cipher, the JSON of an envelope with its base64, the digest and what `pathlib` says of
-- a path are functions. A path is known by its application and its part below `agent` or `documents`.
use funder_match.Base.{
  Bool, Dict, Eq, List, Option, Result, String, String-discrete, any, check_if, concat, err, get,
  nat_eq, none, not, ok, some, string_eq, ℕ, ◌==◌, ◌||◌,
}

pub record System (B : Type 0) : Type 0 where
  pub encrypt : B → B → B → String → B
  pub decrypt : B → B → B → String → Option B
  pub key_size : B → ℕ
  pub size : B → ℕ
  pub sha256 : B → String
  pub is_pdf : B → Bool
  pub is_pdf_name : String → Bool
  pub path_name : String → String
  pub path_parts : String → List String
  -- whether the root is a parent of `(root / id).resolve()`
  pub is_inside : String → Bool
  -- the path of `f"{name}.json"` below `agent`, and `with_suffix("").as_posix()` of a path there
  pub json_path : String → String
  pub without_suffix : String → String
  -- whether the name of a directory could be that of an artifact's file
  pub is_json_name : String → Bool

-- the JSON object that `_write_bytes` makes
pub record Envelope (B : Type 0) : Type 0 where
  pub key_version : String
  pub data_nonce : B
  pub key_nonce : B
  pub ciphertext : B
  pub wrapped_key : B

pub record Codec (B : Type 0) : Type 0 where
  pub dumps : Envelope B → B
  pub loads : B → Option (Envelope B)

pub data FileKey : Type 0 where
  document artifact : String → String → FileKey

unfoldable pub FileKey-discrete : Discrete FileKey
FileKey-discrete = hlevel String-discrete

instance abbrev pub file_eq : Eq FileKey
file_eq = record { dec = FileKey-discrete }

-- `folders` are the directories of applications that were made; a file's directory is there too.
pub record Workspace (B : Type 0) : Type 0 where
  pub files : Dict FileKey B
  pub folders : List String
  pub master_key : Option B
  pub key_version : String

-- What one file draws: `AESGCM.generate_key` and `os.urandom`.
pub record Draw (B : Type 0) : Type 0 where
  pub dek : B
  pub data_nonce : B
  pub key_nonce : B

pub data WorkspaceError : Type 0 where
  unsafe_identifier boundary_violation unsafe_artifact unsafe_filename not_found invalid_envelope
        invalid_tag invalid_value no_files batch_limit not_pdf file_limit collision hash_mismatch
        past_guardrails no_encryption wrong_key_size :
      WorkspaceError

unfoldable pub document_aad : String → String → String
document_aad id filename = concat "document|" (concat id (concat "|" filename))

unfoldable pub artifact_aad : String → String → String
artifact_aad id name = concat "artifact|" (concat id (concat "|" name))

abbrev pub application_of : FileKey → String
application_of (document id name) = id
application_of (artifact id name) = id

abbrev pub is_unsafe_part : String → Bool
is_unsafe_part part = part == "" || part == "." || part == ".."

abbrev pub in_folder :
    (String → FileKey) → Result WorkspaceError String → Result WorkspaceError FileKey
in_folder f (err x) = err x
in_folder f (ok id) = ok (f id)

module _ {B : Type 0} where
  -- `_folder`
  unfoldable pub folder : System B → String → Result WorkspaceError String
  folder y id =
      check_if (id == "" || not (y.path_name id == id)) unsafe_identifier
        (check_if (not (y.is_inside id)) boundary_violation (ok id))

  -- `_artifact_path`
  unfoldable pub artifact_path : System B → String → String → Result WorkspaceError FileKey
  artifact_path y id name =
      check_if (name == "" || any is_unsafe_part (y.path_parts name)) unsafe_artifact
        (in_folder (λ i. artifact i (y.json_path name)) (folder y id))

  -- `_document_path`
  unfoldable pub document_path : System B → String → String → Result WorkspaceError FileKey
  document_path y id name = in_folder (λ i. document i name) (folder y id)

  abbrev pub sealed : System B → Codec B → String → Option B → Draw B → B → String → B
  sealed y codec version none draw content aad = content
  sealed y codec version (some key) draw content aad = codec.dumps (record {
    key_version = version;
    data_nonce = draw.data_nonce;
    key_nonce = draw.key_nonce;
    ciphertext = y.encrypt draw.dek draw.data_nonce content aad;
    wrapped_key = y.encrypt key draw.key_nonce draw.dek aad;
  })

  -- `_write_bytes`
  unfoldable pub write_bytes : System B → Codec B → Workspace B → Draw B → B → String → B
  write_bytes y codec w draw content aad =
      sealed y codec w.key_version w.master_key draw content aad

  abbrev pub decrypted : Option B → Result WorkspaceError B
  decrypted none = err invalid_tag
  decrypted (some m) = ok m

  -- the data key of an envelope
  abbrev pub unwrapped : System B → B → Envelope B → String → Result WorkspaceError B
  unwrapped y key v aad = decrypted (y.decrypt key v.key_nonce v.wrapped_key aad)

  abbrev pub opened_with :
      System B → Envelope B → String → Result WorkspaceError B → Result WorkspaceError B
  opened_with y v aad (err x) = err x
  opened_with y v aad (ok dek) = decrypted (y.decrypt dek v.data_nonce v.ciphertext aad)

  abbrev pub opened_envelope : System B → B → String → Option (Envelope B) → Result WorkspaceError B
  opened_envelope y key aad none = err invalid_envelope
  opened_envelope y key aad (some v) = opened_with y v aad (unwrapped y key v aad)

  abbrev pub opened : System B → Codec B → Option B → String → B → Result WorkspaceError B
  opened y codec none aad c = ok c
  opened y codec (some key) aad c = opened_envelope y key aad (codec.loads c)

  abbrev pub opened_file :
      System B → Codec B → Option B → String → Option B → Result WorkspaceError B
  opened_file y codec key aad none = err not_found
  opened_file y codec key aad (some c) = opened y codec key aad c

  -- `_read_bytes`
  unfoldable pub read_bytes :
      System B → Codec B → Workspace B → FileKey → String → Result WorkspaceError B
  read_bytes y codec w k aad = opened_file y codec w.master_key aad (get k w.files)

  -- The associated data that a key rotation finds from the path of a file.
  unfoldable pub associated : System B → FileKey → String
  associated y (document id filename) = document_aad id filename
  associated y (artifact id path) = artifact_aad id (y.without_suffix path)
