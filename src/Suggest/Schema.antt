-- ===== src/Suggest/Schema.antt =====
-- Matches of precedents, src/fundermatch/matching/schema.py, and the bundle that is assembled from
-- them, src/fundermatch/suggest/schema.py. Texts made for display are left out: a factor keeps the
-- two values that it compares, a claim the thing that it states.
use funder_match.Base.{
  Bool, List, Option, Result, String, [], all, any, check_if, contains, false, length, ltb, nat_eq,
  not, ok, string_eq, true, ℕ, ◌==◌, ◌∷◌,
}
use funder_match.Number.{Decimal}
use funder_match.Workflow.Schema.{DecisionOverride}
use funder_match.Rules.Schema.{
  FinancialProfile, EvidenceMetric, BorrowerApplication, RuleCheck, FunderEligibility, is_unique,
}

pub data DecisionOutcome : Type 0 where
  approved rejected approved_with_conditions : DecisionOutcome

pub data PrecedentStatus : Type 0 where
  active revoked superseded : PrecedentStatus

pub data Team : Type 0 where
  finance operations : Team

pub record ReviewerComment : Type 0 where
  pub team : Team
  pub author : String
  pub text : String
  pub created_at : ℕ

pub record HumanDecision : Type 0 where
  pub outcome : DecisionOutcome
  pub funder_id : String
  pub decided_by : String
  pub decided_at : ℕ
  pub rationale : String
  pub conditions : List String
  pub overrides : List DecisionOverride

pub record DecidedLoanCase : Type 0 where
  pub case_id : String
  pub borrower_name : String
  pub industry : String
  pub sub_industry : String
  pub region : String
  pub loan_type : String
  pub profile : FinancialProfile
  pub evidence : List EvidenceMetric
  pub comments : List ReviewerComment
  pub decision : HumanDecision
  pub lifecycle_status : PrecedentStatus
  pub policy_hash : Option String
  pub valid_until : Option ℕ
  pub supersedes_case_id : Option String

pub record PrecedentMatch : Type 0 where
  pub precedent : DecidedLoanCase
  pub score : Decimal
  pub profile_score : Option Decimal
  pub comments_score : Option Decimal

pub record RuleGatedRetrievalResult : Type 0 where
  pub application_id : String
  pub eligibility : List FunderEligibility
  pub matches : List PrecedentMatch

-- `observation` says whether two texts are the same, or gives the difference of two numbers.
pub data SimilarityFactor : Type 0 where
  text_factor : String → String → String → SimilarityFactor
  numeric_factor : String → Decimal → Decimal → SimilarityFactor

pub record ExplainedPrecedent : Type 0 where
  pub match : PrecedentMatch
  pub factors : List SimilarityFactor

pub record AdvisoryCandidate : Type 0 where
  pub funder_id : String
  pub display_name : String
  pub passed_checks : List RuleCheck
  pub precedents : List ExplainedPrecedent
  pub no_close_precedent : Bool

pub record ExcludedFunder : Type 0 where
  pub funder_id : String
  pub display_name : String
  pub failed_checks : List RuleCheck

-- What a claim states, which is also its one grounding source.
pub data Grounding : Type 0 where
  evidence_claim : EvidenceMetric → Grounding
  calculation_claim : String → RuleCheck → Grounding
  precedent_claim : String → Decimal → Grounding

pub record GroundedClaim : Type 0 where
  pub application_id : String
  pub policy_hash : Option String
  pub grounding : Grounding

pub record SuggestionBundle : Type 0 where
  pub application : BorrowerApplication
  pub candidates : List AdvisoryCandidate
  pub excluded_funders : List ExcludedFunder
  pub claims : List GroundedClaim

pub data SuggestError : Type 0 where
  other_application duplicate_policies not_covered ineligible_precedent missing_eligibility
        check_count failed_check wrong_funder no_failed_check duplicate_candidates
        duplicate_excluded in_both too_many_claims :
      SuggestError

abbrev pub funder_of : PrecedentMatch → String
funder_of m = m.precedent.decision.funder_id

abbrev pub has_any {ℓ} : {A : Type ℓ} → List A → Bool
has_any [] = false
has_any (_ ∷ _) = true

-- `AdvisoryCandidate.validate_candidate`, after the bounds on the number of checks
unfoldable pub validate_candidate : AdvisoryCandidate → Result SuggestError AdvisoryCandidate
validate_candidate c = check_if (not (length c.passed_checks == 8)) check_count (
    check_if (not (all (λ k. k.passed) c.passed_checks)) failed_check (
      check_if (any (λ e. not (funder_of e.match == c.funder_id)) c.precedents) wrong_funder
        (ok c)))

-- `ExcludedFunder`, whose failed checks have all failed by construction
unfoldable pub validate_excluded : ExcludedFunder → Result SuggestError ExcludedFunder
validate_excluded f =
    check_if (not (has_any f.failed_checks)) no_failed_check
      (check_if (any (λ k. k.passed) f.failed_checks) failed_check (ok f))

abbrev pub candidate_ids : List AdvisoryCandidate → List String
candidate_ids [] = []
candidate_ids (c ∷ cs) = c.funder_id ∷ candidate_ids cs

abbrev pub excluded_ids : List ExcludedFunder → List String
excluded_ids [] = []
excluded_ids (f ∷ fs) = f.funder_id ∷ excluded_ids fs

-- `SuggestionBundle`: the bound on the claims, then `validate_partition`
unfoldable pub validate_partition : SuggestionBundle → Result SuggestError SuggestionBundle
validate_partition b = check_if (ltb 500 (length b.claims)) too_many_claims (
    check_if (not (is_unique (candidate_ids b.candidates))) duplicate_candidates (
      check_if (not (is_unique (excluded_ids b.excluded_funders))) duplicate_excluded (
        check_if
          (any (λ i. contains i (excluded_ids b.excluded_funders)) (candidate_ids b.candidates))
          in_both (ok b))))
