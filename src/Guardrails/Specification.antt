-- ===== src/Guardrails/Specification.antt =====
-- What the guardrails promise of a state that they let through.
use funder_match.Base.{
  All, Bool, Dict, List, Result, String, [], contains, get, map, nat_eq, ok, some, string_eq, true,
  ◌*◌, ◌+◌, ◌∷◌, ◌≡◌, ◌≢◌, ◌≤◌,
}
use funder_match.Number.{below}
use funder_match.Orchestration.Schema.{
  EvidenceReference, GuardrailResult, WorkerResult, ApplicationMemoryState,
}
use funder_match.Orchestration.Context.{Raised, WorkerContext}
use funder_match.Rules.Schema.{BorrowerApplication}
use funder_match.Suggest.Schema.{
  PrecedentMatch, RuleGatedRetrievalResult, GroundedClaim, SuggestionBundle,
}
use funder_match.Workspace.Files.{Workspace}
use funder_match.Workspace.Operations.{load}
use funder_match.Guardrails.Worker.{Guard}
use funder_match.Guardrails.Receipts.{AllTrusted}
use funder_match.Guardrails.Conditions.{Any, IsEligible, Rests}

-- The texts of an application's figures and facts, by metric.
abbrev pub figures : {B : Type 0} → Guard B → BorrowerApplication → Dict String String
figures g a =
    ("annual_revenue_crore", g.text_of a.profile.annual_revenue_crore)
    ∷ ("ebitda_margin_pct", g.text_of a.profile.ebitda_margin_pct)
    ∷ ("dscr", g.text_of a.profile.dscr)
    ∷ ("pat_crore", g.text_of a.profile.pat_crore)
    ∷ ("debt_to_equity", g.text_of a.profile.debt_to_equity)
    ∷ ("debt_to_ebitda", g.text_of a.profile.debt_to_ebitda)
    ∷ ("collateral_cover", g.text_of a.profile.collateral_cover)
    ∷ ("years_operating", g.count_text a.profile.years_operating)
    ∷ ("employee_count", g.count_text a.profile.employee_count)
    ∷ ("borrower_name", a.borrower_name)
    ∷ ("industry", a.industry)
    ∷ ("sub_industry", a.sub_industry)
    ∷ ("region", a.region)
    ∷ []

abbrev pub id_of : PrecedentMatch → String
id_of m = m.precedent.case_id

-- The look-up of the precedents is permitted, within the budget of calls, and finds them all.
pub record IsFound (find : List String → Result Raised Bool) (ids : List String) (k : WorkerContext)
    : Type 0 where
  pub permitted :
      (tools : List String) → k.permitted_tools ≡ some tools → contains "qdrant_verify" tools ≡ true
  pub affordable : k.tool_calls + 1 ≤ k.max_tool_calls
  pub answer : find ids ≡ ok true

module _ {B : Type 0} (g : Guard B) (s : ApplicationMemoryState) where
  -- A citation of a document of the state, on a page and in a box that is not empty, whose value is
  -- the application's where its metric is one of them.
  pub record IsCited (a : BorrowerApplication) (e : EvidenceReference) : Type 0 where
    pub owned : Any (λ d. d.document_id ≡ e.document_id) s.documents
    pub page : 1 ≤ e.page_number
    pub wide : below e.bbox.x0 e.bbox.x1 ≡ true
    pub high : below e.bbox.y0 e.bbox.y1 ≡ true
    pub supported : (t : String) → get e.metric (figures g a) ≡ some t → e.value ≡ t

  pub record IsClaimed (r : RuleGatedRetrievalResult) (c : GroundedClaim) : Type 0 where
    pub own : c.application_id ≡ s.application_id
    pub policy : (hash : String) → g.policy_hash ≡ some hash → c.policy_hash ≡ some hash
    pub rests : Rests s.evidence r.matches c.grounding

  -- Artifacts that may be shown to a reviewer.
  pub record IsSafe (a : BorrowerApplication) (r : RuleGatedRetrievalResult) (b : SuggestionBundle)
      (k : WorkerContext) : Type 0 where
    pub own_application : a.application_id ≡ s.application_id
    pub own_retrieval : r.application_id ≡ s.application_id
    pub own_suggestion : b.application.application_id ≡ s.application_id
    pub evidence : s.evidence ≢ []
    pub cited : All (IsCited a) s.evidence
    pub retrieved : All (λ m. IsEligible s.eligibility m.precedent.decision.funder_id) r.matches
    pub suggested : All (λ c. IsEligible s.eligibility c.funder_id) b.candidates
    pub resolved :
        r.matches ≢ []
        → (find : List String → Result Raised Bool) × ((g.resolve ≡ some find)
            × IsFound find (map id_of r.matches) k)
    pub claims : All (IsClaimed r) b.claims
    pub ledger : (hash : String) → g.policy_hash ≡ some hash → b.claims ≢ []
    pub small : g.size s ≤ 256 * 1024

-- A state that the guardrails let through, with its artifacts as the workspace holds them.
pub record IsReleased {B : Type 0} (g : Guard B) (w : Workspace B) (s : ApplicationMemoryState)
    (k : WorkerContext) (x : WorkerResult) : Type 0 where
  pub application : BorrowerApplication
  pub retrieval : RuleGatedRetrievalResult
  pub suggestion : SuggestionBundle
  pub analysed :
      load g.system g.codec g.parse_application s.application_id "financial_analysis" w
      ≡ ok application
  pub matched :
      load g.system g.codec g.parse_retrieval s.application_id "precedent_retrieval" w
      ≡ ok retrieval
  pub suggested :
      load g.system g.codec g.parse_suggestion s.application_id "suggestion" w ≡ ok suggestion
  pub trusted : AllTrusted g.execution_policies g.policy_hash g.verify s.worker_receipts
  pub safe : IsSafe g s application retrieval suggestion k
  pub results : List GuardrailResult
  pub reported_all : x.guardrails ≡ some results
  pub passed_all : All (λ result. result.passed ≡ true) results
