-- ===== src/Workspace/Rotation.antt =====
-- Changing the master key keeps every file as it was.
use funder_match.Base.{
  ==-refl, ==_iff, Bool-cases, Dict, IsDict, Option, Option-cases, Result, String, [], ap, arith,
  err, get, inl, inr, length, nat_eq, none, ok, ok-injective, refl, some, string_eq, subst, sym,
  true, ℕ, ◌==◌, ◌∙◌, ◌∷◌, ◌≡◌, ◌≢◌,
}
use funder_match.Workspace.Files.{
  System, Codec, Envelope, FileKey, file_eq, Workspace, WorkspaceError, not_found, associated,
  decrypted, unwrapped, opened, opened_file, opened_envelope, opened_with, read_bytes,
}
use funder_match.Workspace.Rewrapping.{
  wrapped_again, rewrapped_envelope, rewrap_file, rewrap_next, rewrap_files, rotated, rewrap_from,
  rewrap_all,
}
use funder_match.Workspace.Contents.{IsSound, Contents, as_read, Holds}

clash_option {ℓ} : {A : Type ℓ} (o : Option A) (a : A) → o ≡ none → o ≡ some a → ⊥
clash_option o a p q = cc

module _ {B : Type 0} (y : System B) (codec : Codec B) (sound : IsSound y codec) where
  decrypted-ok : (o : Option B) (m : B) → decrypted o ≡ ok m → o ≡ some m
  decrypted-ok none m h = cc
  decrypted-ok (some n) m h = ap (λ z. some z) (ok-injective h)

  wrapped_again-opened :
      (old new : B) (version : String) (nonce : B) (aad : String) (v : Envelope B) (m : B)
      (r : Result WorkspaceError B)
      → opened_with y v aad r ≡ ok m
      → (c' : B) × ((wrapped_again y codec new version nonce aad v r ≡ ok c')
          × (opened y codec (some new) aad c' ≡ ok m))
  wrapped_again-opened old new version nonce aad v m (err x) h = cc
  wrapped_again-opened old new version nonce aad v m (ok dek) h =
      let v' : Envelope B = record v {
        key_version = version;
        key_nonce = nonce;
        wrapped_key = y.encrypt new nonce dek aad;
      } in
      (codec.dumps v', (refl, rw (sound.loads_back v') (rw (sound.decrypts new nonce dek aad) h)))

  rewrapped_envelope-opened :
      (old new : B) (version : String) (nonce : B) (aad : String) (m : B) (o : Option (Envelope B))
      → opened_envelope y old aad o ≡ ok m
      → (c' : B) × ((rewrapped_envelope y codec old new version nonce aad o ≡ ok c')
          × (opened y codec (some new) aad c' ≡ ok m))
  rewrapped_envelope-opened old new version nonce aad m none h = cc
  rewrapped_envelope-opened old new version nonce aad m (some v) h =
      wrapped_again-opened old new version nonce aad v m (unwrapped y old v aad) h

  rewrap_file-opened :
      (old new : B) (version : String) (nonce : B) (aad : String) (c m : B)
      → opened y codec (some old) aad c ≡ ok m
      → (c' : B) × ((rewrap_file y codec old new version nonce aad c ≡ ok c')
          × (opened y codec (some new) aad c' ≡ ok m))
  unfolding rewrap_file
  rewrap_file-opened old new version nonce aad c m h =
      rewrapped_envelope-opened old new version nonce aad m (codec.loads c) h

  -- Each file opens.
  abbrev AllOpen : B → Dict FileKey B → Type 0
  AllOpen key d =
      (k : FileKey) (c : B)
      → get k d ≡ some c
      → (m : B) × (opened y codec (some key) (associated y k) c ≡ ok m)

  -- The same keys, whose files open under the new key to what they held.
  record IsRewrapped (old new : B) (d : Dict FileKey B)
      (p : Result WorkspaceError ℕ × Dict FileKey B) : Type 0 where
    pub all_of_them : p.0 ≡ ok (length d)
    pub kept :
        (k : FileKey)
        → opened_file y codec (some new) (associated y k) (get k p.1)
          ≡ opened_file y codec (some old) (associated y k) (get k d)
    pub unique : IsDict p.1
    pub still_absent : (k : FileKey) → get k d ≡ none → get k p.1 ≡ none

  rewrap_next-IsRewrapped :
      (old new : B) (k : FileKey) (c c' m : B) (d : Dict FileKey B)
      (p : Result WorkspaceError ℕ × Dict FileKey B)
      → get k d ≡ none
      → get k p.1 ≡ none
      → opened y codec (some old) (associated y k) c ≡ ok m
      → opened y codec (some new) (associated y k) c' ≡ ok m
      → IsRewrapped old new d p
      → IsRewrapped old new ((k, c) ∷ d) (rewrap_next k c d p (ok c'))
  unfolding get
  rewrap_next-IsRewrapped old new k c c' m d p fresh fresh' before after h = record {
    all_of_them = rw h.all_of_them refl;
    kept = λ j. kept_at j;
    unique = (fresh', h.unique);
    still_absent = λ j e. ground (arith, h.still_absent j);
  }
    where
      kept_at :
          (j : FileKey)
          → opened_file y codec (some new) (associated y j) (get j ((k, c') ∷ p.1))
            ≡ opened_file y codec (some old) (associated y j) (get j ((k, c) ∷ d))
      kept_at j = elim (Bool-cases (k == j)) [
        | inl same ↦
            let there : k ≡ j = (==_iff k j).0 same in
            rw same (
              subst
                (λ i.
                  opened y codec (some new) (associated y i) c'
                  ≡ opened y codec (some old) (associated y i) c)
                there (after ∙ sym before))
        | inr other ↦ rw other (h.kept j)
      ]

  rewrap_files-IsRewrapped :
      (old new : B) (version : String) (nonces : FileKey → B) (d : Dict FileKey B)
      → IsDict d
      → AllOpen old d
      → IsRewrapped old new d (rewrap_files y codec old new version nonces d)
  unfolding rewrap_files get
  rewrap_files-IsRewrapped old new version nonces [] u h = record {
    all_of_them = refl;
    kept = λ k. refl;
    unique = tt;
    still_absent = λ k e. e;
  }
  rewrap_files-IsRewrapped old new version nonces ((k, c) ∷ d) u h =
      let rest =
        rewrap_files-IsRewrapped old new version nonces d u.1
          (λ j e found. h j e (tail_found j e found)) in
      let (m, before) = h k c (head_found tt) in
      let (c', (again, after)) =
        rewrap_file-opened old new version (nonces k) (associated y k) c m before in
      rw again (
        rewrap_next-IsRewrapped old new k c c' m d (rewrap_files y codec old new version nonces d)
          u.0 (rest.still_absent k u.0) before after rest)
    where
      head_found : Unit {0} → get k ((k, c) ∷ d) ≡ some c
      head_found t = rw (==-refl k) refl

      tail_found : (j : FileKey) (e : B) → get j d ≡ some e → get j ((k, c) ∷ d) ≡ some e
      tail_found j e found = elim (Bool-cases (k == j)) [
        | inr other ↦ rw other found
        | inl same ↦
            let there : k ≡ j = (==_iff k j).0 same in
            let absent : get j d ≡ none = subst (λ i. get i d ≡ none) there u.0 in
            absurd (clash_option (get j d) e absent found)
      ]

  -- A file that is there is never reported as missing.
  decrypted-there : (o : Option B) → decrypted o ≢ err not_found
  decrypted-there none h = cc
  decrypted-there (some m) h = cc

  opened_with-there :
      (v : Envelope B) (aad : String) (r : Result WorkspaceError B)
      → r ≢ err not_found
      → opened_with y v aad r ≢ err not_found
  opened_with-there v aad (err x) there h = there h
  opened_with-there v aad (ok dek) there h =
      decrypted-there (y.decrypt dek v.data_nonce v.ciphertext aad) h

  opened_envelope-there :
      (key : B) (aad : String) (o : Option (Envelope B))
      → opened_envelope y key aad o ≢ err not_found
  opened_envelope-there key aad none h = cc
  opened_envelope-there key aad (some v) h =
      opened_with-there v aad (unwrapped y key v aad)
        (decrypted-there (y.decrypt key v.key_nonce v.wrapped_key aad)) h

  as_read-AllOpen :
      (key : B) (w : Workspace B) (f : Contents B)
      → w.master_key ≡ some key
      → Holds y codec w f
      → AllOpen key w.files
  unfolding read_bytes
  as_read-AllOpen key w f locked h k c found =
      let here : read_bytes y codec w k (associated y k) ≡ as_read (f k) = h.reads k in
      elim (Option-cases (f k)) [
        | inr (m, is) ↦ (m, (rw (locked, found, is) at here))
        | inl absent ↦ absurd (
            opened_envelope-there key (associated y k) (codec.loads c)
              (rw (locked, found, absent) at here))
      ]

  rotated-Holds :
      (old new : B) (version : String) (w : Workspace B) (f : Contents B)
      (p : Result WorkspaceError ℕ × Dict FileKey B)
      → w.master_key ≡ some old
      → Holds y codec w f
      → IsRewrapped old new w.files p
      → ((rotated w new version p).0 ≡ ok (length w.files))
        × Holds y codec (rotated w new version p).1 f
  unfolding read_bytes
  rotated-Holds old new version w f (err x, files) locked h r = absurd (bad x r.all_of_them)
    where
      bad :
          (x : WorkspaceError) → ◌≡◌ {A = Result WorkspaceError ℕ} (err x) (ok (length w.files)) → ⊥
      bad x e = cc
  rotated-Holds old new version w f (ok n, files) locked h r = (
    r.all_of_them,
    record { unique = r.unique; reads = λ k. r.kept k ∙ (rw locked at h.reads k) },
  )

  -- A rotation to a key of 32 bytes goes through.
  pub rewrap_all-Holds :
      (old new : B) (version : String) (nonces : FileKey → B) (w : Workspace B) (f : Contents B)
      → w.master_key ≡ some old
      → (y.key_size new == 32) ≡ true
      → Holds y codec w f
      → ((rewrap_all y codec new version nonces w).0 ≡ ok (length w.files))
        × Holds y codec (rewrap_all y codec new version nonces w).1 f
  unfolding rewrap_all
  rewrap_all-Holds old new version nonces w f locked size h =
      let done =
        rewrap_files-IsRewrapped old new version nonces w.files h.unique
          (as_read-AllOpen old w f locked h) in
      let from : rewrap_from y codec new version nonces w w.master_key
          ≡ rewrap_from y codec new version nonces w (some old) =
        ap (rewrap_from y codec new version nonces w) locked in
      let through : rewrap_all y codec new version nonces w
          ≡ rotated w new version (rewrap_files y codec old new version nonces w.files) =
        from ∙ rw size refl in
      subst (λ p. (p.0 ≡ ok (length w.files)) × Holds y codec p.1 f) (sym through)
        (rotated-Holds old new version w f (rewrap_files y codec old new version nonces w.files)
          locked h done)
