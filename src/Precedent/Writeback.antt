-- ===== src/Precedent/Writeback.antt =====
-- `PrecedentWritebackService`, src/fundermatch/precedent/writeback.py: a decided workflow becomes a
-- precedent. The call runs alone: between its awaits no other call comes. `sha256`, the canonical
-- JSON, the redaction and the reading of a bundle are functions.
use funder_match.Base.{
  Bool, Dict, List, Option, Result, String, [], any, concat, contains, err, get, if◌then◌else◌,
  keep, nat_eq, none, not, ok, put, some, string_eq, suc, zero, ℕ, ◌*◌, ◌+◌, ◌==◌, ◌∷◌,
}
use funder_match.Json.{Payload}
use funder_match.Workflow.Schema.{
  state_eq, role_eq, HumanAction, approve, reject, approve_with_conditions, send_back, action_eq,
  DecisionOverride, HumanDecisionRecord, PrecedentWriteReceipt, TransitionResult, WorkflowError,
  invalid_transition,
}
use funder_match.Workflow.Repository.{Repository}
use funder_match.Rules.Schema.{
  RuleCriterion, borrower_name_metric, metric_eq, BorrowerApplication, RuleCheck,
}
use funder_match.Suggest.Schema.{
  DecisionOutcome, approved, rejected, approved_with_conditions, active, Team, finance, operations,
  ReviewerComment, DecidedLoanCase, ExcludedFunder, SuggestionBundle, candidate_ids,
}
use funder_match.Suggest.Assembler.{loan_type_value}
use funder_match.Precedent.Case.{CaseError, validate_case}
use funder_match.Precedent.Store.{Store, StoreError}

pub record Writer (Q : Type 0) : Type 0 where
  pub store : Store Q
  pub parse_bundle : Payload → Option SuggestionBundle
  pub canonical : Payload → String
  pub sha256 : String → String
  pub redact : String → String
  pub policy_hash : Option String
  pub validity_days : Option ℕ
  pub day : ℕ

pub data OutboxStatus : Type 0 where
  pending completed failed : OutboxStatus

-- a row of `guardrail_outbox`, without its times; its key is the command
pub record OutboxRow : Type 0 where
  pub application_id : String
  pub operation : String
  pub payload_hash : String
  pub status : OutboxStatus
  pub attempts : ℕ
  pub receipt : Option PrecedentWriteReceipt
  pub last_error_code : Option String

-- `outbox` is `none` where there is no pool.
abbrev pub Outbox : Type 0
Outbox = Option (Dict String OutboxRow)

pub record Memory (Q : Type 0) : Type 0 where
  pub repository : Repository
  pub points : Q
  pub outbox : Outbox

pub data WriteError : Type 0 where
  workflow_error : WorkflowError → WriteError
  store_error : StoreError → WriteError
  invalid_case : CaseError → WriteError
  invalid_bundle missing_funder no_outcome missing_receipt no_longer_available no_longer_matches :
      WriteError

pub record WritebackResult : Type 0 where
  pub transition : TransitionResult
  pub precedent : DecidedLoanCase

-- `check.criterion.value`
unfoldable pub criterion_value : RuleCriterion → String
criterion_value RuleCriterion.industry = "industry"
criterion_value RuleCriterion.region = "region"
criterion_value RuleCriterion.loan_type = "loan_type"
criterion_value RuleCriterion.requested_amount = "requested_amount_crore"
criterion_value RuleCriterion.dscr = "dscr"
criterion_value RuleCriterion.debt_to_ebitda = "debt_to_ebitda"
criterion_value RuleCriterion.collateral_cover = "collateral_cover"
criterion_value RuleCriterion.operating_history = "years_operating"

-- `s[:n]` on texts
unfoldable pub text_take : ℕ → String → String
text_take zero s = String.[]
text_take (suc n) String.[] = String.[]
text_take (suc n) (String.◌∷◌ c s) = String.◌∷◌ c (text_take n s)

abbrev pub criteria : List DecisionOverride → List String
criteria [] = []
criteria (o ∷ os) = o.criterion ∷ criteria os

-- `excluded`, in which the last of several funders with one id stands
unfoldable pub excluded_into :
    Dict String ExcludedFunder → List ExcludedFunder → Dict String ExcludedFunder
excluded_into d [] = d
excluded_into d (f ∷ fs) = excluded_into (put f.funder_id f d) fs

abbrev pub missing : List RuleCheck → List DecisionOverride → Bool
missing checks overrides =
    any (λ k. not (contains (criterion_value k.criterion) (criteria overrides))) checks

abbrev pub selected_excluded :
    Option ExcludedFunder → List DecisionOverride → Result WriteError (Unit {0})
selected_excluded none overrides = err (workflow_error invalid_transition)
selected_excluded (some f) overrides =
    if missing f.failed_checks overrides then err (workflow_error invalid_transition) else ok tt

-- `_validate_selected_funder`
unfoldable pub validate_selected_funder :
    SuggestionBundle → Option String → List DecisionOverride → Result WriteError (Unit {0})
validate_selected_funder b none overrides = err (workflow_error invalid_transition)
validate_selected_funder b (some funder) overrides =
    if contains funder (candidate_ids b.candidates)
    then ok tt
    else selected_excluded (get funder (excluded_into [] b.excluded_funders)) overrides

unfoldable pub outcome_of : HumanAction → Option DecisionOutcome
outcome_of approve = some approved
outcome_of reject = some rejected
outcome_of approve_with_conditions = some approved_with_conditions
outcome_of send_back = none

abbrev pub redact_all : (String → String) → List String → List String
redact_all redact [] = []
redact_all redact (s ∷ ss) = redact s ∷ redact_all redact ss

abbrev pub redact_overrides : (String → String) → List DecisionOverride → List DecisionOverride
redact_overrides redact [] = []
redact_overrides redact (o ∷ os) =
    record {
      criterion = o.criterion;
      original_result = redact o.original_result;
      justification = redact o.justification;
    }
    ∷ redact_overrides redact os

abbrev pub review : Team → String → String → ℕ → ReviewerComment
review team author text decided_at = record {
  team = team;
  author = author;
  text = text;
  created_at = decided_at;
}

abbrev pub end_of : Option ℕ → ℕ → ℕ → Option ℕ
end_of none day decided_at = none
end_of (some days) day decided_at = some (decided_at + days * day)

abbrev pub validated : DecidedLoanCase → Result WriteError DecidedLoanCase
validated c = elim (validate_case c) [ ok d ↦ ok d | err x ↦ err (invalid_case x) ]

module _ {Q : Type 0} where
  -- `_payload_hash`
  unfoldable pub payload_hash : Writer Q → DecidedLoanCase → String
  payload_hash e c = e.sha256 (e.canonical (e.store.dump c))

  -- the case of `_build_case`, for an outcome and a funder
  unfoldable pub case_of :
      Writer Q
      → BorrowerApplication
      → HumanDecisionRecord
      → DecisionOutcome
      → String
      → DecidedLoanCase
  case_of e a d outcome funder = record {
    case_id = a.application_id;
    borrower_name = concat "Application " (text_take 12 (e.sha256 a.application_id));
    industry = a.industry;
    sub_industry = a.sub_industry;
    region = a.region;
    loan_type = loan_type_value a.loan_type;
    profile = a.profile;
    evidence = keep (λ m. not (m.name == borrower_name_metric)) a.evidence;
    comments =
        review finance "Finance review context" (e.redact a.finance_context) d.decided_at
        ∷ review operations "Operations review context" (e.redact a.operations_context) d.decided_at
        ∷ [];
    decision = record {
      outcome = outcome;
      funder_id = funder;
      decided_by = "Verified human reviewer";
      decided_at = d.decided_at;
      rationale = e.redact d.reason;
      conditions = redact_all e.redact d.conditions;
      overrides = redact_overrides e.redact d.overrides;
    };
    lifecycle_status = active;
    policy_hash = e.policy_hash;
    valid_until = end_of e.validity_days e.day d.decided_at;
    supersedes_case_id = none;
  }

  abbrev pub build_from :
      Writer Q
      → BorrowerApplication
      → HumanDecisionRecord
      → Option DecisionOutcome
      → Option String
      → Result WriteError DecidedLoanCase
  build_from e a d none funder = err no_outcome
  build_from e a d (some outcome) none = err missing_funder
  build_from e a d (some outcome) (some funder) = validated (case_of e a d outcome funder)

  -- `_build_case`
  unfoldable pub build_case :
      Writer Q → SuggestionBundle → HumanDecisionRecord → Result WriteError DecidedLoanCase
  build_case e b d = build_from e b.application d (outcome_of d.action) d.funder_id
