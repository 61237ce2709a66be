-- ===== src/Guardrails/Safety.antt =====
-- What the guardrails let through.
use funder_match.Base.{
  All, Bool, List, Option, Result, String, [], all, any, arith, contains, err, false, get, nat_eq,
  none, not, ok, refl, some, string_eq, true, ◌&&◌, ◌*◌, ◌∷◌, ◌≡◌, ◌≢◌, ◌≤◌,
}
use funder_match.Number.{below}
use funder_match.Orchestration.Schema.{EvidenceReference, ApplicationMemoryState}
use funder_match.Orchestration.Context.{Raised, WorkerContext, execute}
use funder_match.Rules.Schema.{BorrowerApplication}
use funder_match.Suggest.Schema.{
  RuleGatedRetrievalResult, GroundedClaim, SuggestionBundle, candidate_ids,
}
use funder_match.Guardrails.Worker.{
  Refusal, Guard, and_then, each, document_ids, is_degenerate, eligible_ids, case_ids,
  checked_answer, checked_precedents, is_grounded, other_policy, checked_claim, is_none, is_on,
}
use funder_match.Guardrails.Run.{
  funder_ids, expected_values, differs, checked_owners, checked_evidence, checked_funders,
  checked_claims, checked,
}
use funder_match.Guardrails.Receipts.{each-All}

-- A citation of this application, with a page and a box that is not empty, whose value is the
-- application's where its metric is one of them.
pub record IsCitedBy {B : Type 0} (g : Guard B) (s : ApplicationMemoryState)
    (a : BorrowerApplication) (e : EvidenceReference) : Type 0 where
  pub owned : contains e.document_id (document_ids s.documents) ≡ true
  pub page : 1 ≤ e.page_number
  pub wide : below e.bbox.x0 e.bbox.x1 ≡ true
  pub high : below e.bbox.y0 e.bbox.y1 ≡ true
  pub supported : (t : String) → get e.metric (expected_values g a) ≡ some t → e.value ≡ t

-- A claim on this application, under the policy in force, that rests on cited evidence or on a
-- precedent that was found.
pub record IsClaimedBy {B : Type 0} (g : Guard B) (s : ApplicationMemoryState)
    (r : RuleGatedRetrievalResult) (c : GroundedClaim) : Type 0 where
  pub own : c.application_id ≡ s.application_id
  pub policy : (hash : String) → g.policy_hash ≡ some hash → c.policy_hash ≡ some hash
  pub grounded : is_grounded s.evidence (case_ids r.matches) c.grounding ≡ true

-- Artifacts that may be shown to a reviewer.
pub record IsCleared {B : Type 0} (g : Guard B) (s : ApplicationMemoryState)
    (a : BorrowerApplication) (r : RuleGatedRetrievalResult) (b : SuggestionBundle)
    (k : WorkerContext) : Type 0 where
  pub own_application : a.application_id ≡ s.application_id
  pub own_retrieval : r.application_id ≡ s.application_id
  pub own_suggestion : b.application.application_id ≡ s.application_id
  pub evidence : s.evidence ≢ []
  pub cited : All (IsCitedBy g s a) s.evidence
  pub retrieved :
      All (λ funder. contains funder (eligible_ids s.eligibility) ≡ true) (funder_ids r.matches)
  pub suggested :
      All
        (λ funder. contains funder (eligible_ids s.eligibility) ≡ true)
        (candidate_ids b.candidates)
  pub resolved :
      case_ids r.matches ≢ []
      → (find : List String → Result Raised Bool) × ((g.resolve ≡ some find)
          × ((execute "qdrant_verify" (find (case_ids r.matches)) k).0 ≡ ok true))
  pub claims : All (IsClaimedBy g s r) b.claims
  pub ledger : (hash : String) → g.policy_hash ≡ some hash → b.claims ≢ []
  pub small : g.size s ≤ 256 * 1024

pub and_then-both :
    (x y : Result Refusal (Unit {0})) → and_then x y ≡ ok tt → (x ≡ ok tt) × (y ≡ ok tt)
and_then-both (err e) y h = cc
and_then-both (ok t) y h = (refl, h)

pub all-All : {A : Type 0} (p : A → Bool) (xs : List A) → all p xs ≡ true → All (λ x. p x ≡ true) xs
all-All p [] h = tt
all-All p (x ∷ xs) h = (ground arith, all-All p xs (ground arith))

checked_precedents-found :
    (o : Option (List String → Result Raised Bool)) (is : List String) (c : WorkerContext)
    → checked_precedents o is c ≡ ok tt
    → is ≢ []
    → (find : List String → Result Raised Bool) × ((o ≡ some find)
        × ((execute "qdrant_verify" (find is) c).0 ≡ ok true))
checked_precedents-found o [] c h there = absurd (there refl)
checked_precedents-found none (i ∷ is) c h there = cc
checked_precedents-found (some find) (i ∷ is) c h there =
    (find, (refl, answered (execute "qdrant_verify" (find (i ∷ is)) c).0 h))
  where
    answered : (o : Result Raised Bool) → checked_answer o ≡ ok tt → o ≡ ok true
    answered (err x) h = cc
    answered (ok true) h = refl
    answered (ok false) h = cc

claim-IsClaimedBy :
    {B : Type 0} (g : Guard B) (s : ApplicationMemoryState) (r : RuleGatedRetrievalResult)
    (c : GroundedClaim)
    → checked_claim g.policy_hash s.application_id s.evidence (case_ids r.matches) c ≡ ok tt
    → IsClaimedBy g s r c
unfolding checked_claim
claim-IsClaimedBy g s r c h = record {
  own = ground arith;
  policy = λ hash on. claimed (g.policy_hash) (c.policy_hash) hash (ground arith) on;
  grounded = ground arith;
}
  where
    claimed :
        (o q : Option String) (hash : String)
        → other_policy o q ≡ false
        → o ≡ some hash
        → q ≡ some hash
    claimed none q hash h on = cc
    claimed (some p) none hash h on = cc
    claimed (some p) (some t) hash h on = ground arith

module _ {B : Type 0} (g : Guard B) (s : ApplicationMemoryState) (a : BorrowerApplication) where
  evidence-IsCitedBy :
      (e : EvidenceReference)
      → contains e.document_id (document_ids s.documents) ≡ true
      → is_degenerate e ≡ false
      → differs e.value (get e.metric (expected_values g a)) ≡ false
      → IsCitedBy g s a e
  unfolding below
  evidence-IsCitedBy e owned placed agrees = record {
    owned = owned;
    page = ground arith;
    wide = ground arith;
    high = ground arith;
    supported = λ t found. valued (get e.metric (expected_values g a)) t agrees found;
  }
    where
      valued :
          (o : Option String) (t : String) → differs e.value o ≡ false → o ≡ some t → e.value ≡ t
      valued none t h found = cc
      valued (some u) t h found = ground arith

  evidence-AllCitedBy :
      (es : List EvidenceReference)
      → any (λ e. not (contains e.document_id (document_ids s.documents))) es ≡ false
      → any is_degenerate es ≡ false
      → any (λ e. differs e.value (get e.metric (expected_values g a))) es ≡ false
      → All (IsCitedBy g s a) es
  evidence-AllCitedBy [] p q d = tt
  evidence-AllCitedBy (e ∷ es) p q d = (
    evidence-IsCitedBy e (ground arith) (ground arith) (ground arith),
    evidence-AllCitedBy es (ground arith) (ground arith) (ground arith),
  )

module _ {B : Type 0} where
  pub checked-IsCleared :
      (g : Guard B) (s : ApplicationMemoryState) (a : BorrowerApplication)
      (r : RuleGatedRetrievalResult) (b : SuggestionBundle) (k : WorkerContext)
      → checked g s a r b k ≡ ok tt
      → IsCleared g s a r b k
  unfolding checked
  checked-IsCleared g s a r b k h =
      let (owners, h1) = and_then-both (checked_owners s a r b) _ h in
      let (evidence, h2) = and_then-both (checked_evidence g s a) _ h1 in
      let (funders, h3) = and_then-both (checked_funders s r b) _ h2 in
      let (precedents, h4) =
        and_then-both (checked_precedents g.resolve (case_ids r.matches) k) _ h3 in
      let (claims, size) = and_then-both (checked_claims g s r b) _ h4 in
      let stated : each
            (checked_claim g.policy_hash s.application_id s.evidence (case_ids r.matches)) b.claims
          ≡ ok tt =
        ground arith in
      record {
        own_application = ground arith;
        own_retrieval = ground arith;
        own_suggestion = ground arith;
        evidence = λ empty. cited_at_all s.evidence empty (ground arith);
        cited = evidence-AllCitedBy g s a s.evidence (ground arith) (ground arith) (ground arith);
        retrieved = all-All _ (funder_ids r.matches) (ground arith);
        suggested = all-All _ (candidate_ids b.candidates) (ground arith);
        resolved = checked_precedents-found g.resolve (case_ids r.matches) k precedents;
        claims = each-All _ (IsClaimedBy g s r) b.claims (claim-IsClaimedBy g s r) stated;
        ledger = λ hash on empty. stated_at_all g.policy_hash b.claims hash on empty (ground arith);
        small = ground arith;
      }
    where
      cited_at_all : (es : List EvidenceReference) → es ≡ [] → is_none es ≡ false → ⊥
      cited_at_all [] empty h = cc
      cited_at_all (e ∷ es) empty h = cc

      stated_at_all :
          (o : Option String) (cs : List GroundedClaim) (hash : String)
          → o ≡ some hash
          → cs ≡ []
          → (is_on o && is_none cs) ≡ false
          → ⊥
      stated_at_all none cs hash on empty h = cc
      stated_at_all (some o) [] hash on empty h = cc
      stated_at_all (some o) (c ∷ cs) hash on empty h = cc
