-- ===== src/Suggest/Tests.antt =====
-- A bundle of two funders, one of them with a precedent.
use funder_match.Base.{
  All, String-discrete, [], get, keep, nat_eq, none, not, ok, put, refl, string_eq, ◌∷◌, ◌≡◌,
}
use funder_match.Number.{at_most}
use native.Mathlib.Decide.{ℕ_discrete}
use funder_match.Rules.Schema.{LoanType-discrete, FunderPolicy, funder_ids}
use funder_match.Rules.Engine.{evaluate, evaluate_all, checks_for}
use funder_match.Suggest.Schema.{
  RuleGatedRetrievalResult, SuggestionBundle, validate_candidate, validate_excluded,
  validate_partition, candidate_ids, excluded_ids, candidate_ids,
}
use funder_match.Suggest.Assembler.{
  assemble, is_eligible, eligibility_into, claims_of, explain, group, split_policies, candidate_for,
  excluded_for,
}
use funder_match.Samples.{borrower, lender, strict_lender, close_match}
use funder_match.Suggest.Partition.{IsBacked, assemble-partition}

abbrev retrieval : RuleGatedRetrievalResult
retrieval = record {
  application_id = "app-1";
  eligibility = evaluate_all borrower (lender ∷ strict_lender ∷ []);
  matches = close_match ∷ [];
}

abbrev sample_bundle : SuggestionBundle
unfolding claims_of
sample_bundle = record {
  application = borrower;
  candidates = candidate_for borrower lender (evaluate borrower lender) (close_match ∷ []) ∷ [];
  excluded_funders = excluded_for strict_lender (evaluate borrower strict_lender) ∷ [];
  claims = claims_of none borrower retrieval;
}

assembles : assemble none borrower (lender ∷ strict_lender ∷ []) retrieval ≡ ok sample_bundle
unfolding sample_bundle assemble group split_policies validate_candidate validate_excluded
    validate_partition evaluate_all evaluate checks_for explain get put at_most String-discrete
    LoanType-discrete ℕ_discrete
assembles = refl

assemble-partition_example :
    let through = λ (p : FunderPolicy).
      is_eligible (get p.funder_id (eligibility_into [] retrieval.eligibility)) in
    (candidate_ids sample_bundle.candidates
      ≡ funder_ids (keep through (lender ∷ strict_lender ∷ [])))
    × ((excluded_ids sample_bundle.excluded_funders
          ≡ funder_ids (keep (λ p. not (through p)) (lender ∷ strict_lender ∷ [])))
        × All (IsBacked retrieval.matches) sample_bundle.candidates)
assemble-partition_example =
    assemble-partition none borrower (lender ∷ strict_lender ∷ []) retrieval sample_bundle assembles
