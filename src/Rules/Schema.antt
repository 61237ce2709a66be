-- ===== src/Rules/Schema.antt =====
-- Policies, applications and rule results, src/fundermatch/rules/schema.py, with the profile and the
-- evidence of src/fundermatch/precedent/schema.py. Stripping white space is left out; so is the
-- wording of a check's `actual` and `requirement`, whose contents are kept.
use funder_match.Base.{
  Bool, Dict, Eq, List, Option, Result, String, [], any, check_if, contains, false, get, length,
  ltb, nat_eq, none, not, ok, put, some, string_eq, true, ℕ, ◌&&◌, ◌==◌, ◌||◌, ◌∷◌,
}
use funder_match.Number.{Decimal, whole, at_most, below}
use funder_match.Orchestration.Schema.{BoundingBox}

pub data RuleCriterion : Type 0 where
  industry region loan_type requested_amount dscr debt_to_ebitda collateral_cover
        operating_history :
      RuleCriterion

pub data LoanType : Type 0 where
  term_loan working_capital equipment_finance invoice_finance loan_against_property other : LoanType

unfoldable pub LoanType-discrete : Discrete LoanType
LoanType-discrete = hlevel

instance abbrev pub loan_type_eq : Eq LoanType
loan_type_eq = record { dec = LoanType-discrete }

pub record FinancialProfile : Type 0 where
  pub annual_revenue_crore : Decimal
  pub requested_amount_crore : Decimal
  pub ebitda_margin_pct : Decimal
  pub pat_crore : Decimal
  pub dscr : Decimal
  pub debt_to_equity : Decimal
  pub debt_to_ebitda : Decimal
  pub collateral_cover : Decimal
  pub years_operating : ℕ
  pub employee_count : ℕ

-- the names that an `EvidenceMetric` may have
pub data MetricName : Type 0 where
  annual_revenue_metric ebitda_margin_metric dscr_metric pat_metric debt_to_equity_metric
        debt_to_ebitda_metric collateral_cover_metric years_operating_metric employee_count_metric
        borrower_name_metric industry_metric sub_industry_metric region_metric :
      MetricName

unfoldable pub MetricName-discrete : Discrete MetricName
MetricName-discrete = hlevel

instance abbrev pub metric_eq : Eq MetricName
metric_eq = record { dec = MetricName-discrete }

pub data MetricValue : Type 0 where
  amount : Decimal → MetricValue
  words : String → MetricValue

pub record SourceCitation : Type 0 where
  pub document_id : String
  pub page_number : ℕ
  pub bbox : BoundingBox

pub record EvidenceMetric : Type 0 where
  pub name : MetricName
  pub value : MetricValue
  pub unit : String
  pub period : String
  pub citation : SourceCitation

pub record BorrowerApplication : Type 0 where
  pub application_id : String
  pub borrower_name : String
  pub industry : String
  pub sub_industry : String
  pub region : String
  pub loan_type : LoanType
  pub profile : FinancialProfile
  pub evidence : List EvidenceMetric
  pub finance_context : String
  pub operations_context : String

pub record FunderPolicy : Type 0 where
  pub funder_id : String
  pub display_name : String
  pub allowed_industries : List String
  pub allowed_regions : List String
  pub allowed_loan_types : List LoanType
  pub min_requested_amount_crore : Decimal
  pub max_requested_amount_crore : Decimal
  pub min_dscr : Decimal
  pub max_debt_to_ebitda : Decimal
  pub min_collateral_cover : Decimal
  pub min_years_operating : ℕ

pub data RuleError : Type 0 where
  evidence_count evidence_mismatch amount_range field_range no_policies duplicate_funders :
      RuleError

-- `==` of two values: a `Decimal` by its amount, and never the same as a text
unfoldable pub same_value : MetricValue → MetricValue → Bool
same_value (amount a) (amount b) = at_most a b && at_most b a
same_value (words a) (words b) = a == b
same_value _ _ = false

-- `expected`
unfoldable pub expected : BorrowerApplication → MetricName → MetricValue
expected a annual_revenue_metric = amount a.profile.annual_revenue_crore
expected a ebitda_margin_metric = amount a.profile.ebitda_margin_pct
expected a dscr_metric = amount a.profile.dscr
expected a pat_metric = amount a.profile.pat_crore
expected a debt_to_equity_metric = amount a.profile.debt_to_equity
expected a debt_to_ebitda_metric = amount a.profile.debt_to_ebitda
expected a collateral_cover_metric = amount a.profile.collateral_cover
expected a years_operating_metric = amount (whole a.profile.years_operating)
expected a employee_count_metric = amount (whole a.profile.employee_count)
expected a borrower_name_metric = words a.borrower_name
expected a industry_metric = words a.industry
expected a sub_industry_metric = words a.sub_industry
expected a region_metric = words a.region

-- `{metric.name: metric.value for metric in self.evidence}`
unfoldable pub metrics_into :
    Dict MetricName MetricValue → List EvidenceMetric → Dict MetricName MetricValue
metrics_into d [] = d
metrics_into d (e ∷ es) = metrics_into (put e.name e.value d) es

abbrev pub is_known : Option MetricValue → Bool
is_known none = false
is_known (some v) = true

abbrev pub has_required : Dict MetricName MetricValue → Bool
has_required d =
    is_known (get annual_revenue_metric d)
    && is_known (get ebitda_margin_metric d)
    && is_known (get dscr_metric d)

abbrev pub contradicts : BorrowerApplication → MetricName × MetricValue → Bool
contradicts a entry = not (same_value (expected a entry.0) entry.1)

-- `validate_evidence`, after the bounds on the number of metrics
unfoldable pub validate_evidence : BorrowerApplication → Result RuleError BorrowerApplication
validate_evidence a =
    let metrics = metrics_into [] a.evidence in
    check_if (ltb (length a.evidence) 3 || ltb 20 (length a.evidence)) evidence_count (
      check_if (not (has_required metrics) || any (contradicts a) metrics) evidence_mismatch (ok a))

abbrev is_empty {ℓ} : {A : Type ℓ} → List A → Bool
is_empty [] = true
is_empty (_ ∷ _) = false

-- the ranges of the policy's fields, then `validate_amount_range`
unfoldable pub validate_policy : FunderPolicy → Result RuleError FunderPolicy
validate_policy p =
    check_if
      (p.funder_id == ""
        || p.display_name == ""
        || is_empty p.allowed_industries
        || is_empty p.allowed_regions
        || is_empty p.allowed_loan_types
        || below p.min_requested_amount_crore (whole 0)
        || at_most p.max_requested_amount_crore (whole 0)
        || at_most p.min_dscr (whole 0)
        || below p.max_debt_to_ebitda (whole 0)
        || below p.min_collateral_cover (whole 0))
      field_range
      (check_if (below p.max_requested_amount_crore p.min_requested_amount_crore) amount_range
        (ok p))

abbrev pub is_unique : List String → Bool
is_unique [] = true
is_unique (x ∷ xs) = not (contains x xs) && is_unique xs

abbrev pub funder_ids : List FunderPolicy → List String
funder_ids [] = []
funder_ids (p ∷ ps) = p.funder_id ∷ funder_ids ps

-- `PolicySet` and `validate_unique_funders`, on policies that are valid
unfoldable pub validate_policy_set : List FunderPolicy → Result RuleError (List FunderPolicy)
validate_policy_set ps =
    check_if (is_empty ps) no_policies
      (check_if (not (is_unique (funder_ids ps))) duplicate_funders (ok ps))

-- the contents of `requirement`
pub data Requirement : Type 0 where
  one_of : List String → Requirement
  one_loan_type : List LoanType → Requirement
  between : Decimal → Decimal → Requirement
  at_least no_more_than : Decimal → Requirement
  years : ℕ → Requirement

pub data Actual : Type 0 where
  named : String → Actual
  loan : LoanType → Actual
  figure : Decimal → Actual
  year_count : ℕ → Actual

pub record RuleCheck : Type 0 where
  pub criterion : RuleCriterion
  pub passed : Bool
  pub actual : Actual
  pub requirement : Requirement

pub record FunderEligibility : Type 0 where
  pub funder_id : String
  pub eligible : Bool
  pub checks : List RuleCheck
