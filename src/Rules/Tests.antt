-- ===== src/Rules/Tests.antt =====
-- A borrower and a funder, and the properties of the rules applied to them.
use funder_match.Base.{
  String-discrete, [], arith, false, get, nat_eq, ok, put, refl, string_eq, true, ℕ, ◌↔◌, ◌∷◌, ◌≡◌,
}
use funder_match.Number.{Decimal, pos, whole, at_most}
use funder_match.Rules.Schema.{
  LoanType, LoanType-discrete, MetricName, MetricName-discrete, annual_revenue_metric,
  ebitda_margin_metric, dscr_metric, amount, SourceCitation, EvidenceMetric, BorrowerApplication,
  FunderPolicy, validate_evidence, metrics_into, same_value, expected, validate_policy_set,
}
use funder_match.Rules.Engine.{
  evaluate, evaluate_all, checks_for, Meets, evaluate-Meets, result_ids, AllDifferent,
  evaluate_all-AllDifferent,
}
use funder_match.Rules.Evidence.{
  IsSupported, validate_evidence-IsSupported, validate_evidence_shadowed,
}

abbrev hundredths : ℕ → Decimal
hundredths n = record { coefficient = pos n; places = 2 }

abbrev page : SourceCitation
page = record {
  document_id = "d";
  page_number = 1;
  bbox = record { x0 = whole 0; y0 = whole 0; x1 = whole 1; y1 = whole 1 };
}

abbrev metric_of : MetricName → Decimal → EvidenceMetric
metric_of name d = record {
  name = name;
  value = amount d;
  unit = "unit";
  period = "FY25";
  citation = page;
}

abbrev borrower : BorrowerApplication
borrower = record {
  application_id = "a";
  borrower_name = "Mill";
  industry = "Textiles";
  sub_industry = "Unclassified";
  region = "Gujarat";
  loan_type = LoanType.term_loan;
  profile = record {
    annual_revenue_crore = whole 40;
    requested_amount_crore = whole 5;
    ebitda_margin_pct = hundredths 1250;
    pat_crore = whole 2;
    dscr = hundredths 145;
    debt_to_equity = whole 1;
    debt_to_ebitda = hundredths 310;
    collateral_cover = hundredths 125;
    years_operating = 9;
    employee_count = 80;
  };
  evidence =
      metric_of annual_revenue_metric (whole 40)
      ∷ metric_of ebitda_margin_metric (record { coefficient = pos 125; places = 1 })
      ∷ metric_of dscr_metric (hundredths 145)
      ∷ [];
  finance_context = "f";
  operations_context = "o";
}

abbrev lender : FunderPolicy
lender = record {
  funder_id = "f1";
  display_name = "Lender";
  allowed_industries = "Textiles" ∷ "Food" ∷ [];
  allowed_regions = "Gujarat" ∷ [];
  allowed_loan_types = LoanType.term_loan ∷ [];
  min_requested_amount_crore = whole 1;
  max_requested_amount_crore = whole 10;
  min_dscr = hundredths 130;
  max_debt_to_ebitda = whole 4;
  min_collateral_cover = hundredths 120;
  min_years_operating = 5;
}

abbrev strict_lender : FunderPolicy
strict_lender = record lender { funder_id = "f2"; min_dscr = hundredths 150 }

lender_takes : (evaluate borrower lender).eligible ≡ true
unfolding evaluate checks_for at_most String-discrete LoanType-discrete
lender_takes = refl

strict_lender_refuses : (evaluate borrower strict_lender).eligible ≡ false
unfolding evaluate checks_for at_most String-discrete LoanType-discrete
strict_lender_refuses = refl

evaluate-Meets_example : ((evaluate borrower lender).eligible ≡ true) ↔ Meets borrower lender
evaluate-Meets_example = evaluate-Meets borrower lender

two_lenders : validate_policy_set (lender ∷ strict_lender ∷ []) ≡ ok (lender ∷ strict_lender ∷ [])
unfolding validate_policy_set String-discrete
two_lenders = refl

evaluate_all-AllDifferent_example :
    (result_ids (evaluate_all borrower (lender ∷ strict_lender ∷ [])) ≡ "f1" ∷ "f2" ∷ [])
    × AllDifferent (result_ids (evaluate_all borrower (lender ∷ strict_lender ∷ [])))
evaluate_all-AllDifferent_example =
    evaluate_all-AllDifferent borrower (lender ∷ strict_lender ∷ []) (lender ∷ strict_lender ∷ [])
      two_lenders

accepts : validate_evidence borrower ≡ ok borrower
unfolding validate_evidence metrics_into same_value expected get put at_most MetricName-discrete
accepts = refl

validate_evidence-IsSupported_example :
    (validate_evidence borrower ≡ ok borrower) ↔ IsSupported borrower
validate_evidence-IsSupported_example = validate_evidence-IsSupported borrower

-- A revenue ten times as high, in front of the true one.
abbrev false_revenue : EvidenceMetric
false_revenue = metric_of annual_revenue_metric (whole 400)

abbrev false_evidence : BorrowerApplication
false_evidence = record borrower { evidence = false_revenue ∷ borrower.evidence }

validate_evidence_shadowed_example : validate_evidence false_evidence ≡ ok false_evidence
unfolding MetricName-discrete
validate_evidence_shadowed_example =
    validate_evidence_shadowed borrower false_revenue accepts refl (omega arith)
