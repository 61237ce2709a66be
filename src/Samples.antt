-- ===== src/Samples.antt =====
-- An application, two funders and a precedent, for the tests of several parts.
use funder_match.Base.{[], nat_eq, none, string_eq, ◌∷◌}
use funder_match.Number.{Decimal, whole}
use funder_match.Rules.Schema.{
  MetricName, amount, EvidenceMetric, LoanType, BorrowerApplication, FunderPolicy,
}
use funder_match.Suggest.Schema.{approved, active, DecidedLoanCase, PrecedentMatch}

abbrev pub borrower : BorrowerApplication
borrower = record {
  application_id = "app-1";
  borrower_name = "Mill";
  industry = "Textiles";
  sub_industry = "Weaving";
  region = "Gujarat";
  loan_type = LoanType.term_loan;
  profile = record {
    annual_revenue_crore = whole 40;
    requested_amount_crore = whole 5;
    ebitda_margin_pct = whole 12;
    pat_crore = whole 2;
    dscr = whole 2;
    debt_to_equity = whole 1;
    debt_to_ebitda = whole 3;
    collateral_cover = whole 2;
    years_operating = 9;
    employee_count = 80;
  };
  evidence = [];
  finance_context = "f";
  operations_context = "o";
}

abbrev pub lender : FunderPolicy
lender = record {
  funder_id = "f1";
  display_name = "Lender";
  allowed_industries = "Textiles" ∷ [];
  allowed_regions = "Gujarat" ∷ [];
  allowed_loan_types = LoanType.term_loan ∷ [];
  min_requested_amount_crore = whole 1;
  max_requested_amount_crore = whole 10;
  min_dscr = whole 1;
  max_debt_to_ebitda = whole 4;
  min_collateral_cover = whole 1;
  min_years_operating = 5;
}

abbrev pub strict_lender : FunderPolicy
strict_lender = record lender { funder_id = "f2"; min_dscr = whole 3 }

abbrev pub past_case : DecidedLoanCase
past_case = record {
  case_id = "case-1";
  borrower_name = "Spinner";
  industry = "Textiles";
  sub_industry = "Spinning";
  region = "Gujarat";
  loan_type = "term_loan";
  profile = borrower.profile;
  evidence = [];
  comments = [];
  decision = record {
    outcome = approved;
    funder_id = "f1";
    decided_by = "r1";
    decided_at = 3;
    rationale = "sound";
    conditions = [];
    overrides = [];
  };
  lifecycle_status = active;
  policy_hash = none;
  valid_until = none;
  supersedes_case_id = none;
}

abbrev pub close_match : PrecedentMatch
close_match = record {
  precedent = past_case;
  score = whole 1;
  profile_score = none;
  comments_score = none;
}

abbrev pub fact : MetricName → Decimal → EvidenceMetric
fact name d = record {
  name = name;
  value = amount d;
  unit = "unit";
  period = "FY25";
  citation = record {
    document_id = "d";
    page_number = 1;
    bbox = record { x0 = whole 0; y0 = whole 0; x1 = whole 1; y1 = whole 1 };
  };
}
