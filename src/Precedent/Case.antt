-- ===== src/Precedent/Case.antt =====
-- The validators of a decided case and its retrievability, src/fundermatch/precedent/schema.py.
use funder_match.Base.{
  Bool, List, Option, Result, [], all, any, check_if, err, false, if◌then◌else◌, leb, length,
  nat_eq, none, not, ok, some, string_eq, true, within, ℕ, ◌&&◌, ◌||◌, ◌∷◌,
}
use funder_match.Workflow.Schema.{DecisionOverride}
use funder_match.Number.{whole}
use funder_match.Text.{
  is_lower, is_alphanumeric, is_name_part, is_type_part, all_codes, starts, is_filled, is_digest,
}
use funder_match.Rules.Schema.{
  MetricName, annual_revenue_metric, ebitda_margin_metric, dscr_metric, pat_metric,
  debt_to_equity_metric, debt_to_ebitda_metric, collateral_cover_metric, years_operating_metric,
  employee_count_metric, borrower_name_metric, industry_metric, sub_industry_metric, region_metric,
  MetricValue, amount, words, same_value, metrics_into, has_required,
}
use funder_match.Suggest.Schema.{
  DecisionOutcome, approved_with_conditions, PrecedentStatus, active, Team, finance, operations,
  ReviewerComment, HumanDecision, DecidedLoanCase,
}

pub data CaseError : Type 0 where
  invalid_fields conditions_mismatch evidence_mismatch missing_team expired_at_birth : CaseError

abbrev has_any {ℓ} : {A : Type ℓ} → List A → Bool
has_any [] = false
has_any (_ ∷ _) = true

abbrev requires_conditions : DecisionOutcome → Bool
requires_conditions approved_with_conditions = true
requires_conditions _ = false

-- `HumanDecision.validate_conditions`
unfoldable pub validate_decision : HumanDecision → Result CaseError HumanDecision
validate_decision d =
    if has_any d.conditions
    then (if requires_conditions d.outcome then ok d else err conditions_mismatch)
    else (if requires_conditions d.outcome then err conditions_mismatch else ok d)

-- `expected`
unfoldable pub expected_fact : DecidedLoanCase → MetricName → MetricValue
expected_fact c annual_revenue_metric = amount c.profile.annual_revenue_crore
expected_fact c ebitda_margin_metric = amount c.profile.ebitda_margin_pct
expected_fact c dscr_metric = amount c.profile.dscr
expected_fact c pat_metric = amount c.profile.pat_crore
expected_fact c debt_to_equity_metric = amount c.profile.debt_to_equity
expected_fact c debt_to_ebitda_metric = amount c.profile.debt_to_ebitda
expected_fact c collateral_cover_metric = amount c.profile.collateral_cover
expected_fact c years_operating_metric = amount (whole c.profile.years_operating)
expected_fact c employee_count_metric = amount (whole c.profile.employee_count)
expected_fact c borrower_name_metric = words c.borrower_name
expected_fact c industry_metric = words c.industry
expected_fact c sub_industry_metric = words c.sub_industry
expected_fact c region_metric = words c.region

abbrev is_finance : Team → Bool
is_finance finance = true
is_finance operations = false

abbrev is_operations : Team → Bool
is_operations finance = false
is_operations operations = true

abbrev pub ends_by : Option ℕ → ℕ → Bool
ends_by none t = false
ends_by (some end) t = leb end t

-- `DecidedLoanCase.validate_internal_consistency`
unfoldable pub validate_internal_consistency : DecidedLoanCase → Result CaseError DecidedLoanCase
validate_internal_consistency c =
    let metrics = metrics_into [] c.evidence in
    check_if
      (not (has_required metrics)
        || any (λ entry. not (same_value (expected_fact c entry.0) entry.1)) metrics)
      evidence_mismatch
      (check_if
        (not
          (any (λ r. is_finance r.team) c.comments && any (λ r. is_operations r.team) c.comments))
        missing_team
        (check_if (ends_by c.valid_until c.decision.decided_at) expired_at_birth (ok c)))

abbrev valid_comment : ReviewerComment → Bool
valid_comment c = is_filled c.author && within 1 2000 c.text

abbrev valid_override : DecisionOverride → Bool
valid_override o =
    within 1 100 o.criterion && within 1 500 o.original_result && within 1 1000 o.justification

-- the fields of `HumanDecision`
unfoldable pub valid_decision : HumanDecision → Bool
valid_decision d =
    is_filled d.funder_id
    && is_filled d.decided_by
    && within 1 2000 d.rationale
    && all valid_override d.overrides

-- the fields of `DecidedLoanCase`
unfoldable pub valid_fields : DecidedLoanCase → Bool
unfolding valid_decision
valid_fields c =
    within 3 200 c.case_id
    && starts is_alphanumeric c.case_id
    && all_codes is_name_part c.case_id
    && is_filled c.borrower_name
    && is_filled c.industry
    && is_filled c.sub_industry
    && is_filled c.region
    && within 2 80 c.loan_type
    && starts is_lower c.loan_type
    && all_codes is_type_part c.loan_type
    && leb 3 (length c.evidence)
    && leb (length c.evidence) 20
    && leb 2 (length c.comments)
    && all valid_comment c.comments
    && valid_decision c.decision
    && is_digest c.policy_hash

abbrev decided : DecidedLoanCase → Result CaseError HumanDecision → Result CaseError DecidedLoanCase
decided c (err e) = err e
decided c (ok d) = validate_internal_consistency c

-- `DecidedLoanCase.model_validate`, on fields of the right types, texts that are stripped of white
-- space, and a profile, evidence and times that are valid
unfoldable pub validate_case : DecidedLoanCase → Result CaseError DecidedLoanCase
validate_case c =
    check_if (not (valid_fields c)) invalid_fields (decided c (validate_decision c.decision))

abbrev pub is_active : PrecedentStatus → Bool
is_active active = true
is_active _ = false

-- `is_retrievable` at the time `now`
unfoldable pub is_retrievable : ℕ → DecidedLoanCase → Bool
is_retrievable now c = is_active c.lifecycle_status && not (ends_by c.valid_until now)
