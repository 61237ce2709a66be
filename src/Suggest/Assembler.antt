-- ===== src/Suggest/Assembler.antt =====
-- `SuggestionAssembler`, src/fundermatch/suggest/assembler.py.
use funder_match.Base.{
  Bool, Dict, List, Option, Result, String, [], all, check_if, contains, err, false, get,
  if◌then◌else◌, keep, length, nat_eq, none, not, ok, put, some, string_eq, ◌&&◌, ◌++◌, ◌==◌, ◌∷◌,
}
use funder_match.Rules.Schema.{
  EvidenceMetric, BorrowerApplication, LoanType, term_loan, working_capital, equipment_finance,
  invoice_finance, loan_against_property, other, RuleCheck, FunderEligibility, FunderPolicy,
}
use funder_match.Suggest.Schema.{
  DecidedLoanCase, PrecedentMatch, RuleGatedRetrievalResult, SimilarityFactor, text_factor,
  numeric_factor, ExplainedPrecedent, AdvisoryCandidate, ExcludedFunder, GroundedClaim, Grounding,
  evidence_claim, calculation_claim, precedent_claim, SuggestionBundle, SuggestError,
  other_application, duplicate_policies, not_covered, ineligible_precedent, missing_eligibility,
  funder_of, has_any, validate_candidate, validate_excluded, validate_partition,
}

-- `loan_type.value`
unfoldable pub loan_type_value : LoanType → String
loan_type_value term_loan = "term_loan"
loan_type_value working_capital = "working_capital"
loan_type_value equipment_finance = "equipment_finance"
loan_type_value invoice_finance = "invoice_finance"
loan_type_value loan_against_property = "loan_against_property"
loan_type_value other = "other"

-- `_explain`
unfoldable pub explain : BorrowerApplication → DecidedLoanCase → List SimilarityFactor
explain a c =
    text_factor "industry" a.industry c.industry
    ∷ text_factor "region" a.region c.region
    ∷ text_factor "sub_industry" a.sub_industry c.sub_industry
    ∷ text_factor "loan_type" (loan_type_value a.loan_type) c.loan_type
    ∷ numeric_factor "annual_revenue_crore" a.profile.annual_revenue_crore
        c.profile.annual_revenue_crore
    ∷ numeric_factor "requested_amount_crore" a.profile.requested_amount_crore
        c.profile.requested_amount_crore
    ∷ numeric_factor "dscr" a.profile.dscr c.profile.dscr
    ∷ numeric_factor "pat_crore" a.profile.pat_crore c.profile.pat_crore
    ∷ numeric_factor "debt_to_equity" a.profile.debt_to_equity c.profile.debt_to_equity
    ∷ numeric_factor "debt_to_ebitda" a.profile.debt_to_ebitda c.profile.debt_to_ebitda
    ∷ numeric_factor "collateral_cover" a.profile.collateral_cover c.profile.collateral_cover
    ∷ []

abbrev pub explain_all : BorrowerApplication → List PrecedentMatch → List ExplainedPrecedent
explain_all a [] = []
explain_all a (m ∷ ms) = record { match = m; factors = explain a m.precedent } ∷ explain_all a ms

abbrev evidence_claims : List EvidenceMetric → List Grounding
evidence_claims [] = []
evidence_claims (e ∷ es) = evidence_claim e ∷ evidence_claims es

abbrev check_claims : String → List RuleCheck → List Grounding
check_claims id [] = []
check_claims id (c ∷ cs) = calculation_claim id c ∷ check_claims id cs

abbrev calculation_claims : List FunderEligibility → List Grounding
calculation_claims [] = []
calculation_claims (e ∷ es) = check_claims e.funder_id e.checks ++ calculation_claims es

abbrev precedent_claims : List PrecedentMatch → List Grounding
precedent_claims [] = []
precedent_claims (m ∷ ms) = precedent_claim m.precedent.case_id m.score ∷ precedent_claims ms

abbrev pub grounded : Option String → String → List Grounding → List GroundedClaim
grounded policy_hash id [] = []
grounded policy_hash id (g ∷ gs) =
    record { application_id = id; policy_hash = policy_hash; grounding = g }
    ∷ grounded policy_hash id gs

abbrev pub groundings : BorrowerApplication → RuleGatedRetrievalResult → List Grounding
groundings a r =
    evidence_claims a.evidence ++ calculation_claims r.eligibility ++ precedent_claims r.matches

-- `_claims`
unfoldable pub claims_of :
    Option String → BorrowerApplication → RuleGatedRetrievalResult → List GroundedClaim
claims_of policy_hash a r = grounded policy_hash a.application_id (groundings a r)

-- `policies_by_id`
abbrev pub policies_into : Dict String FunderPolicy → List FunderPolicy → Dict String FunderPolicy
policies_into d [] = d
policies_into d (p ∷ ps) = policies_into (put p.funder_id p d) ps

-- `eligibility_by_id`
abbrev pub eligibility_into :
    Dict String FunderEligibility → List FunderEligibility → Dict String FunderEligibility
eligibility_into d [] = d
eligibility_into d (e ∷ es) = eligibility_into (put e.funder_id e d) es

abbrev keys {ℓ} : {A : Type ℓ} → Dict String A → List String
keys [] = []
keys ((k, v) ∷ d) = k ∷ keys d

abbrev same_keys : List String → List String → Bool
same_keys xs ys = all (λ x. contains x ys) xs && all (λ y. contains y xs) ys

abbrev pub is_eligible : Option FunderEligibility → Bool
is_eligible none = false
is_eligible (some e) = e.eligible

abbrev pub matches_of : Option (List PrecedentMatch) → List PrecedentMatch
matches_of none = []
matches_of (some ms) = ms

-- the loop that fills `matches_by_funder`
unfoldable pub group :
    Dict String FunderEligibility
    → Dict String (List PrecedentMatch)
    → List PrecedentMatch
    → Result SuggestError (Dict String (List PrecedentMatch))
group eligibility d [] = ok d
group eligibility d (m ∷ ms) =
    let id = funder_of m in
    let rest = group eligibility (put id (matches_of (get id d) ++ m ∷ []) d) ms in
    check_if (not (is_eligible (get id eligibility))) ineligible_precedent rest

abbrev pub candidate_for :
    BorrowerApplication → FunderPolicy → FunderEligibility → List PrecedentMatch → AdvisoryCandidate
candidate_for a p e matches = record {
  funder_id = p.funder_id;
  display_name = p.display_name;
  passed_checks = e.checks;
  precedents = explain_all a matches;
  no_close_precedent = not (has_any (explain_all a matches));
}

abbrev pub excluded_for : FunderPolicy → FunderEligibility → ExcludedFunder
excluded_for p e = record {
  funder_id = p.funder_id;
  display_name = p.display_name;
  failed_checks = keep (λ c. not c.passed) e.checks;
}

abbrev pub Parts : Type 0
Parts = List AdvisoryCandidate × List ExcludedFunder

abbrev pub add_candidate :
    Result SuggestError AdvisoryCandidate → Result SuggestError Parts → Result SuggestError Parts
add_candidate (err x) rest = err x
add_candidate (ok c) (err x) = err x
add_candidate (ok c) (ok (cs, fs)) = ok (c ∷ cs, fs)

abbrev pub add_excluded :
    Result SuggestError ExcludedFunder → Result SuggestError Parts → Result SuggestError Parts
add_excluded (err x) rest = err x
add_excluded (ok f) (err x) = err x
add_excluded (ok f) (ok (cs, fs)) = ok (cs, f ∷ fs)

abbrev pub place :
    BorrowerApplication
    → Dict String (List PrecedentMatch)
    → FunderPolicy
    → Option FunderEligibility
    → Result SuggestError Parts
    → Result SuggestError Parts
place a grouped p none rest = err missing_eligibility
place a grouped p (some e) rest =
    if e.eligible
    then add_candidate
        (validate_candidate (candidate_for a p e (matches_of (get p.funder_id grouped)))) rest
    else add_excluded (validate_excluded (excluded_for p e)) rest

-- the loop over the policies
unfoldable pub split_policies :
    BorrowerApplication
    → Dict String FunderEligibility
    → Dict String (List PrecedentMatch)
    → List FunderPolicy
    → Result SuggestError Parts
split_policies a eligibility grouped [] = ok ([], [])
split_policies a eligibility grouped (p ∷ ps) =
    place a grouped p (get p.funder_id eligibility) (split_policies a eligibility grouped ps)

abbrev pub bundle_of :
    Option String
    → BorrowerApplication
    → RuleGatedRetrievalResult
    → Result SuggestError Parts
    → Result SuggestError SuggestionBundle
bundle_of hash a r (err x) = err x
bundle_of hash a r (ok (cs, fs)) = validate_partition (record {
  application = a;
  candidates = cs;
  excluded_funders = fs;
  claims = claims_of hash a r;
})

abbrev pub assemble_grouped :
    Option String
    → BorrowerApplication
    → List FunderPolicy
    → RuleGatedRetrievalResult
    → Result SuggestError (Dict String (List PrecedentMatch))
    → Result SuggestError SuggestionBundle
assemble_grouped hash a ps r (err x) = err x
assemble_grouped hash a ps r (ok grouped) =
    bundle_of hash a r (split_policies a (eligibility_into [] r.eligibility) grouped ps)

unfoldable pub assemble :
    Option String
    → BorrowerApplication
    → List FunderPolicy
    → RuleGatedRetrievalResult
    → Result SuggestError SuggestionBundle
assemble hash a ps r = check_if (not (r.application_id == a.application_id)) other_application (
    check_if (not (length (policies_into [] ps) == length ps)) duplicate_policies (
      check_if
        (not (same_keys (keys (eligibility_into [] r.eligibility)) (keys (policies_into [] ps))))
        not_covered
        (assemble_grouped hash a ps r (group (eligibility_into [] r.eligibility) [] r.matches))))
