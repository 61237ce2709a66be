-- ===== src/Workspace/Tests.antt =====
-- A request that is saved with a toy cipher, and read under another key.
use funder_match.Base.{
  ==-refl, All, List, Option, String, String-discrete, [], err, false, if◌then◌else◌, nat_eq, none,
  not, ok, refl, some, string_eq, true, ◌==◌, ◌∷◌, ◌≡◌,
}
use funder_match.Workspace.Files.{
  System, Codec, Envelope, artifact, document, Draw, artifact_path, folder, read_bytes, associated,
  boundary_violation,
}
use funder_match.Workspace.Operations.{StagedApplication, save, load}
use funder_match.Workspace.Contents.{IsSound, as_read}
use funder_match.Workspace.Naming.{IsPlain}
use funder_match.Workspace.Specification.{
  IsNamed, Operation, save_operation, stage_operation, rewrap_operation, run_all, plain_all,
}
use funder_match.Workspace.Refinement.{run_all-refines}
use funder_match.Workspace.Roundtrip.{rotate_all, bare, load-save}

-- Bytes as what they are made of; a box opens under its own associated data only.
data Bytes : Type 0 where
  raw : String → Bytes
  box : Bytes → Bytes → Bytes → String → Bytes
  envelope : String → Bytes → Bytes → Bytes → Bytes → Bytes

unbox : Bytes → String → Option Bytes
unbox (raw s) aad = none
unbox (box key nonce m own) aad = if own == aad then some m else none
unbox (envelope v a b c d) aad = none

parts : Bytes → Option (Envelope Bytes)
parts (raw s) = none
parts (box key nonce m own) = none
parts (envelope v a b c d) =
    some
      (record { key_version = v; data_nonce = a; key_nonce = b; ciphertext = c; wrapped_key = d })

abbrev words : Bytes → String
words (raw s) = s
words _ = "sealed"

abbrev toy : System Bytes
toy = record {
  encrypt = λ key nonce m aad. box key nonce m aad;
  decrypt = λ key nonce c aad. unbox c aad;
  key_size = λ key. 32;
  size = λ m. 1;
  sha256 = words;
  is_pdf = λ m. true;
  is_pdf_name = λ name. true;
  path_name = λ name. name;
  path_parts = λ name. name ∷ [];
  is_inside = λ id. not (id == "..");
  json_path = λ name. name;
  without_suffix = λ path. path;
  is_json_name = λ part. false;
}

abbrev toy_codec : Codec Bytes
toy_codec = record {
  dumps = λ v. envelope v.key_version v.data_nonce v.key_nonce v.ciphertext v.wrapped_key;
  loads = parts;
}

toy-IsSound : IsSound toy toy_codec
unfolding unbox parts
toy-IsSound = record { decrypts = λ key nonce m aad. rw (==-refl aad) refl; loads_back = λ v. refl }

abbrev toy_dump : StagedApplication → Bytes
toy_dump r = raw r.application_id

abbrev toy_draw : Draw Bytes
toy_draw = record { dek = raw "dek"; data_nonce = raw "n1"; key_nonce = raw "n2" }

abbrev operations : List (Operation Bytes)
operations =
    stage_operation "app" [] (("a.pdf", raw "pdf") ∷ []) 10 10 (λ n. toy_draw) toy_draw
    ∷ save_operation "app" "guardrails" (raw "passed") toy_draw
    ∷ rewrap_operation (raw "second key") "v2" (λ k. raw "n3")
    ∷ []

plain : (name : String) → IsPlain toy name
plain name = record { found_again = refl; no_file_above = refl }

named : All (IsNamed toy) operations
unfolding IsNamed
named = (plain "request", (plain "guardrails", (tt, tt)))

refused_id : folder toy ".." ≡ err boundary_violation
unfolding folder String-discrete
refused_id = refl

run_all-refines_example :
    read_bytes toy toy_codec
      (run_all toy toy_codec toy_dump operations (bare (some (raw "first key")) "v1"))
      (document "app" "a.pdf")
      (associated toy (document "app" "a.pdf"))
    ≡ as_read (plain_all toy toy_dump operations (λ j. none) (document "app" "a.pdf"))
run_all-refines_example =
    run_all-refines toy toy_codec toy_dump operations (some (raw "first key")) "v1"
      (document "app" "a.pdf") toy-IsSound named

safe : artifact_path toy "app" "request" ≡ ok (artifact "app" "request")
unfolding artifact_path folder String-discrete
safe = refl

load-save_example :
    load toy toy_codec
      (λ m. some (words m))
      "app"
      "request"
      (rotate_all toy toy_codec
        (record { key = raw "third key"; version = "v3"; nonces = λ k. raw "n4" } ∷ [])
        (save toy toy_codec toy_draw "app" "request"
          (raw "hello")
          (run_all toy toy_codec toy_dump operations (bare (some (raw "first key")) "v1"))).1)
    ≡ ok "hello"
load-save_example =
    load-save toy toy_codec toy_dump operations (some (raw "first key")) "v1" _ toy_draw "app"
      "request" (artifact "app" "request") raw (λ m. some (words m)) "hello" toy-IsSound named
      (plain "request") safe refl
