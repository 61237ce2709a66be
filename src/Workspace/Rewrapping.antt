-- ===== src/Workspace/Rewrapping.antt =====
-- `rewrap_all` of `ApplicationWorkspace`, src/fundermatch/orchestration/workspace.py.
use funder_match.Base.{
  Dict, Exec, Option, Result, String, [], err, if◌then◌else◌, nat_eq, none, ok, some, string_eq,
  suc, ℕ, ◌==◌, ◌∷◌,
}
use funder_match.Workspace.Files.{
  System, Codec, Envelope, FileKey, file_eq, Workspace, WorkspaceError, invalid_envelope,
  no_encryption, wrong_key_size, associated, unwrapped,
}

abbrev pub counted : Result WorkspaceError ℕ → Result WorkspaceError ℕ
counted (err x) = err x
counted (ok n) = ok (suc n)

module _ {B : Type 0} where
  abbrev pub wrapped_again :
      System B
      → Codec B
      → B
      → String
      → B
      → String
      → Envelope B
      → Result WorkspaceError B
      → Result WorkspaceError B
  wrapped_again y codec new version nonce aad v (err x) = err x
  wrapped_again y codec new version nonce aad v (ok dek) = ok (
      codec.dumps (record v {
        key_version = version;
        key_nonce = nonce;
        wrapped_key = y.encrypt new nonce dek aad;
      }))

  abbrev pub rewrapped_envelope :
      System B
      → Codec B
      → B
      → B
      → String
      → B
      → String
      → Option (Envelope B)
      → Result WorkspaceError B
  rewrapped_envelope y codec old new version nonce aad none = err invalid_envelope
  rewrapped_envelope y codec old new version nonce aad (some v) =
      wrapped_again y codec new version nonce aad v (unwrapped y old v aad)

  -- `_rewrap_file`: the new bytes of a file
  unfoldable pub rewrap_file :
      System B → Codec B → B → B → String → B → String → B → Result WorkspaceError B
  rewrap_file y codec old new version nonce aad c =
      rewrapped_envelope y codec old new version nonce aad (codec.loads c)

  abbrev pub rewrap_next :
      FileKey
      → B
      → Dict FileKey B
      → Result WorkspaceError ℕ × Dict FileKey B
      → Result WorkspaceError B
      → Result WorkspaceError ℕ × Dict FileKey B
  rewrap_next k c d rest (err x) = (err x, (k, c) ∷ d)
  rewrap_next k c d rest (ok c') = (counted rest.0, (k, c') ∷ rest.1)

  -- the loop of `rewrap_all`; a file that fails leaves those before it rewrapped
  unfoldable pub rewrap_files :
      System B
      → Codec B
      → B
      → B
      → String
      → (FileKey → B)
      → Dict FileKey B
      → Result WorkspaceError ℕ × Dict FileKey B
  rewrap_files y codec old new version nonces [] = (ok 0, [])
  rewrap_files y codec old new version nonces ((k, c) ∷ d) =
      rewrap_next k c d (rewrap_files y codec old new version nonces d)
        (rewrap_file y codec old new version (nonces k) (associated y k) c)

  abbrev pub rotated :
      Workspace B
      → B
      → String
      → Result WorkspaceError ℕ × Dict FileKey B
      → Result WorkspaceError ℕ × Workspace B
  rotated w new version (err x, files) = (err x, record w { files = files })
  rotated w new version (ok n, files) =
      (ok n, record w { files = files; master_key = some new; key_version = version })

  abbrev pub rewrap_from :
      System B
      → Codec B
      → B
      → String
      → (FileKey → B)
      → Workspace B
      → Option B
      → Result WorkspaceError ℕ × Workspace B
  rewrap_from y codec new version nonces w none = (err no_encryption, w)
  rewrap_from y codec new version nonces w (some old) =
      if y.key_size new == 32
      then rotated w new version (rewrap_files y codec old new version nonces w.files)
      else (err wrong_key_size, w)

  unfoldable pub rewrap_all :
      System B → Codec B → B → String → (FileKey → B) → Exec (Workspace B) WorkspaceError ℕ
  rewrap_all y codec new version nonces w = rewrap_from y codec new version nonces w w.master_key
