-- ===== src/Precedent/Store.antt =====
-- `QdrantPrecedentStore`, src/fundermatch/precedent/store.py. The client of the vector store acts on a
-- state `Q` and may raise; the embeddings, `uuid5` and the dump and the reading of a payload are
-- functions.
use funder_match.Base.{
  Bool, Exec, List, Option, Result, String, [], check_if, concat, err, false, if◌then◌else◌, length,
  nat_eq, none, not, ok, pure, raise, some, string_eq, true, ℕ, ◌&&◌, ◌==◌, ◌>>=◌, ◌>>◌, ◌||◌, ◌∷◌,
}
use funder_match.Json.{Json, Payload}
use funder_match.Number.{Decimal}
use funder_match.Suggest.Schema.{PrecedentStatus, active, revoked, superseded, DecidedLoanCase}
use funder_match.Precedent.Case.{validate_case}

abbrev pub Vector : Type 0
Vector = List Decimal

-- `models.PointStruct`
pub record Point : Type 0 where
  pub id : String
  pub profile_vector : Vector
  pub comments_vector : Vector
  pub payload : Payload

pub data StoreError : Type 0 where
  client_error embedding_error vector_count not_confirmed invalid_payload verification_failed
        key_error lifecycle_changed :
      StoreError

-- `QdrantClient`, for records with their payloads and without vectors
pub record Client (Q : Type 0) : Type 0 where
  pub collection_exists : String → Exec Q StoreError Bool
  pub delete_collection : String → Exec Q StoreError (Unit {0})
  pub create_collection : String → ℕ → Exec Q StoreError (Unit {0})
  pub upsert : String → List Point → Exec Q StoreError (Unit {0})
  pub set_payload : String → Payload → String → Exec Q StoreError (Unit {0})
  pub retrieve : String → List String → Q → Result StoreError (List (Option Payload))

-- `PrecedentEmbedder`
pub record Embedder : Type 0 where
  pub vector_size : ℕ
  pub embed_profiles : List DecidedLoanCase → Result StoreError (List Vector)
  pub embed_comments : List DecidedLoanCase → Result StoreError (List Vector)

pub record Store (Q : Type 0) : Type 0 where
  pub client : Client Q
  pub embedder : Embedder
  pub collection : String
  pub uuid5 : String → String
  pub dump : DecidedLoanCase → Payload
  pub parse : Payload → Option DecidedLoanCase
  pub same : DecidedLoanCase → DecidedLoanCase → Bool

unfoldable pub status_eq : PrecedentStatus → PrecedentStatus → Bool
status_eq active active = true
status_eq revoked revoked = true
status_eq superseded superseded = true
status_eq _ _ = false

abbrev status_value : PrecedentStatus → String
status_value active = "active"
status_value revoked = "revoked"
status_value superseded = "superseded"

abbrev pub read_case : Option DecidedLoanCase → Result StoreError DecidedLoanCase
read_case none = err invalid_payload
read_case (some c) = elim (validate_case c) [ ok d ↦ ok d | err _ ↦ err invalid_payload ]

abbrev checked :
    PrecedentStatus → Result StoreError DecidedLoanCase → Result StoreError DecidedLoanCase
checked status (err x) = err x
checked status (ok c) =
    if status_eq c.lifecycle_status status then ok c else err verification_failed

module _ {Q : Type 0} where
  unfoldable pub point_id : Store Q → String → String
  point_id s case_id = s.uuid5 (concat "fundermatch:" case_id)

  -- `_ensure_collection`
  abbrev absent_after : Store Q → Bool → Bool → Exec Q StoreError Bool
  absent_after s recreate present =
      if present && recreate
      then (do s.client.delete_collection s.collection; pure true)
      else pure (not present)

  abbrev create_if : Store Q → Bool → Exec Q StoreError (Unit {0})
  create_if s true = s.client.create_collection s.collection s.embedder.vector_size
  create_if s false = pure tt

  unfoldable pub ensure_collection : Store Q → Bool → Exec Q StoreError (Unit {0})
  ensure_collection s recreate = do
    present ← s.client.collection_exists s.collection
    absent ← absent_after s recreate present
    create_if s absent

  -- `zip(cases, profile_vectors, comment_vectors)`, of one length
  unfoldable pub points_of : Store Q → List DecidedLoanCase → List Vector → List Vector → List Point
  points_of s [] ps cs = []
  points_of s (k ∷ ks) [] cs = []
  points_of s (k ∷ ks) (p ∷ ps) [] = []
  points_of s (k ∷ ks) (p ∷ ps) (c ∷ cs) =
      record {
        id = point_id s k.case_id;
        profile_vector = p;
        comments_vector = c;
        payload = s.dump k;
      }
      ∷ points_of s ks ps cs

  abbrev embedded :
      Store Q
      → List DecidedLoanCase
      → Result StoreError (List Vector)
      → Result StoreError (List Vector)
      → Result StoreError (List Point)
  embedded s cases (err x) cs = err x
  embedded s cases (ok ps) (err x) = err x
  embedded s cases (ok ps) (ok cs) =
      check_if (not (length ps == length cases) || not (length cs == length cases)) vector_count
        (ok (points_of s cases ps cs))

  abbrev put_points : Store Q → Result StoreError (List Point) → Exec Q StoreError ℕ
  put_points s (err x) = raise x
  put_points s (ok points) = do s.client.upsert s.collection points; pure (length points)

  unfoldable pub seed : Store Q → List DecidedLoanCase → Bool → Exec Q StoreError ℕ
  seed s cases recreate = do
    ensure_collection s recreate
    put_points s
        (embedded s cases (s.embedder.embed_profiles cases) (s.embedder.embed_comments cases))

  -- the one record that `retrieve` is to return, and its payload as a case
  abbrev pub read_records :
      Store Q
      → StoreError
      → Result StoreError (List (Option Payload))
      → Result StoreError DecidedLoanCase
  read_records s e (err x) = err x
  read_records s e (ok (some p ∷ [])) = read_case (s.parse p)
  read_records s e (ok _) = err e

  unfoldable pub read_one :
      Store Q → StoreError → String → String → Q → Result StoreError DecidedLoanCase
  read_one s e collection point q = read_records s e (s.client.retrieve collection (point ∷ []) q)

  abbrev pub verified :
      Store Q
      → DecidedLoanCase
      → Result StoreError DecidedLoanCase
      → Result StoreError DecidedLoanCase
  verified s c (err x) = err x
  verified s c (ok stored) = if s.same stored c then ok stored else err verification_failed

  abbrev pub confirmed :
      Store Q → DecidedLoanCase → Result StoreError ℕ × Q → Result StoreError DecidedLoanCase × Q
  confirmed s c (err x, q) = (err x, q)
  confirmed s c (ok n, q) =
      (verified s c (read_one s not_confirmed s.collection (point_id s c.case_id) q), q)

  unfoldable pub write_one : Store Q → DecidedLoanCase → Exec Q StoreError DecidedLoanCase
  write_one s c q = confirmed s c (seed s (c ∷ []) false q)

  abbrev reread :
      Store Q
      → String
      → PrecedentStatus
      → Result StoreError (Unit {0}) × Q
      → Result StoreError DecidedLoanCase × Q
  reread s id status (err x, q) = (err x, q)
  reread s id status (ok _, q) =
      (checked status (read_one s not_confirmed s.collection (point_id s id) q), q)

  abbrev change_status :
      Store Q
      → String
      → PrecedentStatus
      → PrecedentStatus
      → Result StoreError DecidedLoanCase
      → Exec Q StoreError DecidedLoanCase
  change_status s id before status (err x) q = (err x, q)
  change_status s id before status (ok c) q =
      if status_eq c.lifecycle_status status
      then (ok c, q)
      else if not (status_eq c.lifecycle_status before)
      then (err lifecycle_changed, q)
      else reread s id status (
          s.client.set_payload s.collection
            (("lifecycle_status", Json.text (status_value status)) ∷ []) (point_id s id) q)

  unfoldable pub set_lifecycle :
      Store Q → String → PrecedentStatus → PrecedentStatus → Exec Q StoreError DecidedLoanCase
  set_lifecycle s id before status q =
      change_status s id before status (read_one s key_error s.collection (point_id s id) q) q
