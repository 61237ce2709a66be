-- ===== src/Guardrails/Worker.antt =====
-- `GuardrailWorker`, src/fundermatch/orchestration/guardrails.py. A bundle that was parsed is advisory,
-- requires a human decision and has a notice, so the three tests of that are left out. `str` of a
-- decimal, the length of the state's JSON, the verification of a signature and the look-up of
-- precedents, which may raise, are functions.
use funder_match.Base.{
  Bool, Dict, List, Option, Result, String, [], any, check_if, contains, err, false, get,
  if◌then◌else◌, length, ltb, nat_eq, none, not, ok, some, string_eq, true, ℕ, ◌&&◌, ◌*◌, ◌==◌,
  ◌||◌, ◌∷◌,
}
use funder_match.Number.{Decimal, whole, at_most, below}
use funder_match.Orchestration.Schema.{
  WorkerName, value, DocumentReference, EvidenceReference, EligibilityReference, WorkerReceipt,
  ApplicationMemoryState,
}
use funder_match.Orchestration.Context.{WorkerExecutionPolicy, Raised, WorkerContext, execute}
use funder_match.Rules.Schema.{SourceCitation, BorrowerApplication}
use funder_match.Suggest.Schema.{
  PrecedentMatch, RuleGatedRetrievalResult, Grounding, evidence_claim, calculation_claim,
  precedent_claim, GroundedClaim, SuggestionBundle,
}
use funder_match.Workspace.Files.{System, Codec, WorkspaceError}

pub data Refusal : Type 0 where
  attention terminal : String → Refusal
  unavailable : Refusal
  unreadable : WorkspaceError → Refusal

pub record Guard (B : Type 0) : Type 0 where
  pub system : System B
  pub codec : Codec B
  pub parse_application : B → Option BorrowerApplication
  pub parse_retrieval : B → Option RuleGatedRetrievalResult
  pub parse_suggestion : B → Option SuggestionBundle
  pub policy_hash : Option String
  pub verify : Option (WorkerReceipt → String → Bool)
  pub execution_policies : Dict String WorkerExecutionPolicy
  pub resolve : Option (List String → Result Raised Bool)
  pub text_of : Decimal → String
  pub count_text : ℕ → String
  pub size : ApplicationMemoryState → ℕ
  pub result_hash : WorkerName → String → List String → String

abbrev pub is_text : Option String → String → Bool
is_text none s = false
is_text (some t) s = t == s

-- `bool(signature)`
abbrev pub is_signed : Option String → Bool
is_signed none = false
is_signed (some s) = not (s == "")

abbrev pub violates : WorkerReceipt → WorkerExecutionPolicy → Bool
violates r p =
    ltb p.max_attempts r.attempt
    || ltb p.max_calls (length r.tool_calls)
    || any (λ tool. not (contains tool p.permitted_tools)) r.tool_calls
    || below (whole (p.worker_deadline_seconds * 1000)) r.latency_ms

abbrev pub checked_policy : WorkerReceipt → Option WorkerExecutionPolicy → Result Refusal (Unit {0})
checked_policy r none = err (terminal "worker_policy_missing")
checked_policy r (some p) = check_if (violates r p) (terminal "worker_policy_violation") (ok tt)

abbrev pub is_verified : (WorkerReceipt → String → Bool) → WorkerReceipt → Option String → Bool
is_verified verify r none = false
is_verified verify r (some s) = verify r s

-- one turn of the loop over the receipts
unfoldable pub checked_receipt :
    Dict String WorkerExecutionPolicy
    → String
    → (WorkerReceipt → String → Bool)
    → WorkerReceipt
    → Result Refusal (Unit {0})
checked_receipt policies hash verify r =
    check_if (not (is_text r.policy_hash hash) || not (is_signed r.signature))
      (terminal "worker_receipt_invalid")
      (check_if (not (is_verified verify r r.signature)) (terminal "worker_receipt_invalid")
        (checked_policy r (get (value r.worker) policies)))

abbrev pub and_then :
    Result Refusal (Unit {0}) → Result Refusal (Unit {0}) → Result Refusal (Unit {0})
and_then (err x) next = err x
and_then (ok _) next = next

-- a loop whose turns may raise
unfoldable pub each {ℓ} :
    {A : Type ℓ} → (A → Result Refusal (Unit {0})) → List A → Result Refusal (Unit {0})
each f [] = ok tt
each f (x ∷ xs) = and_then (f x) (each f xs)

abbrev pub checked_receipts :
    Dict String WorkerExecutionPolicy
    → Option String
    → Option (WorkerReceipt → String → Bool)
    → List WorkerReceipt
    → Result Refusal (Unit {0})
checked_receipts policies none verify rs = ok tt
checked_receipts policies (some hash) none rs = err (terminal "receipt_verifier_missing")
checked_receipts policies (some hash) (some verify) rs =
    each (checked_receipt policies hash verify) rs

abbrev pub document_ids : List DocumentReference → List String
document_ids [] = []
document_ids (d ∷ ds) = d.document_id ∷ document_ids ds

abbrev pub is_degenerate : EvidenceReference → Bool
is_degenerate e = ltb e.page_number 1 || at_most e.bbox.x1 e.bbox.x0 || at_most e.bbox.y1 e.bbox.y0

abbrev pub eligible_ids : List EligibilityReference → List String
eligible_ids [] = []
eligible_ids (e ∷ es) =
    let rest = eligible_ids es in if e.eligible then e.funder_id ∷ rest else rest

abbrev pub case_ids : List PrecedentMatch → List String
case_ids [] = []
case_ids (m ∷ ms) = m.precedent.case_id ∷ case_ids ms

-- `resolved`, for precedents that were found: whatever the look-up raises, its budget's refusals
-- among them, is reported as unavailable
abbrev pub checked_answer : Result Raised Bool → Result Refusal (Unit {0})
checked_answer (err x) = err unavailable
checked_answer (ok false) = err (attention "precedent_receipt_unverified")
checked_answer (ok true) = ok tt

-- `context.execute("qdrant_verify", …)` and what is made of it
abbrev pub checked_precedents :
    Option (List String → Result Raised Bool)
    → List String
    → WorkerContext
    → Result Refusal (Unit {0})
checked_precedents resolve [] c = ok tt
checked_precedents none (i ∷ is) c = err (attention "precedent_receipt_unverified")
checked_precedents (some resolve) (i ∷ is) c =
    checked_answer (execute "qdrant_verify" (resolve (i ∷ is)) c).0

-- the context that the look-up leaves
abbrev pub after_lookup :
    Option (List String → Result Raised Bool) → List String → WorkerContext → WorkerContext
after_lookup resolve [] c = c
after_lookup none (i ∷ is) c = c
after_lookup (some resolve) (i ∷ is) c = (execute "qdrant_verify" (resolve (i ∷ is)) c).1

abbrev pub same_number : Decimal → Decimal → Bool
same_number a b = at_most a b && at_most b a

-- equal citations, as tuples
unfoldable pub cites : SourceCitation → EvidenceReference → Bool
cites c e =
    c.document_id == e.document_id
    && c.page_number == e.page_number
    && same_number c.bbox.x0 e.bbox.x0
    && same_number c.bbox.y0 e.bbox.y0
    && same_number c.bbox.x1 e.bbox.x1
    && same_number c.bbox.y1 e.bbox.y1

abbrev pub is_grounded : List EvidenceReference → List String → Grounding → Bool
is_grounded evidence precedents (evidence_claim m) = any (cites m.citation) evidence
is_grounded evidence precedents (calculation_claim funder check) = true
is_grounded evidence precedents (precedent_claim case_id score) = contains case_id precedents

abbrev pub other_policy : Option String → Option String → Bool
other_policy none claimed = false
other_policy (some hash) claimed = not (is_text claimed hash)

-- one turn of the loop over the claims
unfoldable pub checked_claim :
    Option String
    → String
    → List EvidenceReference
    → List String
    → GroundedClaim
    → Result Refusal (Unit {0})
checked_claim policy id evidence precedents c =
    check_if (not (c.application_id == id)) (terminal "cross_application_claim") (
      check_if (other_policy policy c.policy_hash) (terminal "claim_policy_mismatch") (
        check_if (not (is_grounded evidence precedents c.grounding))
          (attention "unsupported_output_claim") (ok tt)))

abbrev pub is_none {ℓ} : {A : Type ℓ} → List A → Bool
is_none [] = true
is_none (_ ∷ _) = false

abbrev pub is_on : Option String → Bool
is_on none = false
is_on (some _) = true
