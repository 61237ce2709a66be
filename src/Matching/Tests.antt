-- ===== src/Matching/Tests.antt =====
-- A retrieval that finds one precedent.
use funder_match.Base.{
  List, String-discrete, [], get, nat_eq, none, ok, put, refl, some, string_eq, true, ℕ, ◌∷◌, ◌≡◌,
}
use native.Mathlib.Decide.{ℕ_discrete}
use funder_match.Json.{Json, Payload}
use funder_match.Number.{whole, at_most}
use funder_match.Rules.Schema.{
  LoanType-discrete, MetricName-discrete, annual_revenue_metric, ebitda_margin_metric, dscr_metric,
  BorrowerApplication, same_value, metrics_into,
}
use funder_match.Rules.Engine.{evaluate, evaluate_all, checks_for}
use funder_match.Suggest.Schema.{
  Team, finance, operations, ReviewerComment, DecidedLoanCase, RuleGatedRetrievalResult,
}
use funder_match.Samples.{fact, borrower, lender, strict_lender, past_case}
use funder_match.Precedent.Case.{
  validate_case, valid_fields, valid_decision, validate_decision, validate_internal_consistency,
  expected_fact, is_retrievable,
}
use funder_match.Matching.Retriever.{
  VectorName, profile_vector, comments_vector, Filter, Hit, Retriever, retrieve, add_profiles,
  add_comments, combined, match_of, collect, insert, sort, scores_for,
}
use funder_match.Matching.Safety.{IsGated, retrieve-IsGated}

abbrev comment : Team → ReviewerComment
comment team = record { team = team; author = "r"; text = "t"; created_at = 1 }

abbrev full_case : DecidedLoanCase
full_case = record past_case {
  evidence =
      fact annual_revenue_metric (whole 40)
      ∷ fact ebitda_margin_metric (whole 12)
      ∷ fact dscr_metric (whole 2)
      ∷ [];
  comments = comment finance ∷ comment operations ∷ [];
}

abbrev sample_payload : Payload
sample_payload = ("case_id", Json.text "case-1") ∷ []

abbrev sample_search : BorrowerApplication → VectorName → Filter → ℕ → List Hit
sample_search a profile_vector f n =
    record { id = "p1"; payload = some sample_payload; score = whole 1 } ∷ []
sample_search a comments_vector f n = []

abbrev sample_retriever : Retriever
sample_retriever = record {
  config = record {
    top_k = 5;
    candidate_limit = 25;
    profile_weight = whole 1;
    comments_weight = whole 0;
    min_score = whole 0;
    require_active_lifecycle = true;
  };
  search = sample_search;
  parse = λ p. some full_case;
  plus = λ a b. a;
  times = λ a b. b;
  now = 10;
}

abbrev found : RuleGatedRetrievalResult
found = record {
  application_id = "app-1";
  eligibility = evaluate_all borrower (lender ∷ strict_lender ∷ []);
  matches =
      record {
        precedent = full_case;
        score = whole 1;
        profile_score = some (whole 1);
        comments_score = none;
      }
      ∷ [];
}

retrieves : retrieve sample_retriever borrower (lender ∷ strict_lender ∷ []) ≡ ok found
unfolding retrieve evaluate_all evaluate checks_for scores_for add_profiles add_comments collect
    match_of combined sort insert validate_case valid_fields valid_decision validate_decision
    validate_internal_consistency expected_fact same_value metrics_into is_retrievable get put
    at_most String-discrete LoanType-discrete MetricName-discrete ℕ_discrete
retrieves = refl

retrieve-IsGated_example :
    IsGated sample_retriever borrower (evaluate_all borrower (lender ∷ strict_lender ∷ [])) found
retrieve-IsGated_example =
    retrieve-IsGated sample_retriever borrower (lender ∷ strict_lender ∷ []) found retrieves
