-- ===== src/Rules/Engine.antt =====
-- `EligibilityEngine`, src/fundermatch/rules/engine.py, and when it lets a funder through.
use funder_match.Base.{
  All, Bool, List, String, [], all, ap, arith, contains, false, leb, nat_eq, ok, refl, string_eq,
  subst, sym, true, ◌&&◌, ◌↔◌, ◌∷◌, ◌≡◌, ◌≢◌, ◌≤◌,
}
use funder_match.Number.{at_most}
use funder_match.Rules.Schema.{
  RuleCriterion, loan_type_eq, BorrowerApplication, FunderPolicy, FunderEligibility, RuleCheck,
  Actual, Requirement, one_of, one_loan_type, between, at_least, no_more_than, years, named, loan,
  figure, year_count, is_unique, funder_ids, validate_policy_set,
}

abbrev check : RuleCriterion → Bool → Actual → Requirement → RuleCheck
check criterion passed actual requirement = record {
  criterion = criterion;
  passed = passed;
  actual = actual;
  requirement = requirement;
}

unfoldable pub checks_for : BorrowerApplication → FunderPolicy → List RuleCheck
checks_for a p =
    check RuleCriterion.industry (contains a.industry p.allowed_industries) (named a.industry)
      (one_of p.allowed_industries)
    ∷ check RuleCriterion.region (contains a.region p.allowed_regions) (named a.region)
        (one_of p.allowed_regions)
    ∷ check RuleCriterion.loan_type (contains a.loan_type p.allowed_loan_types) (loan a.loan_type)
        (one_loan_type p.allowed_loan_types)
    ∷ check RuleCriterion.requested_amount
        (at_most p.min_requested_amount_crore a.profile.requested_amount_crore
          && at_most a.profile.requested_amount_crore p.max_requested_amount_crore)
        (figure a.profile.requested_amount_crore)
        (between p.min_requested_amount_crore p.max_requested_amount_crore)
    ∷ check RuleCriterion.dscr (at_most p.min_dscr a.profile.dscr) (figure a.profile.dscr)
        (at_least p.min_dscr)
    ∷ check RuleCriterion.debt_to_ebitda (at_most a.profile.debt_to_ebitda p.max_debt_to_ebitda)
        (figure a.profile.debt_to_ebitda) (no_more_than p.max_debt_to_ebitda)
    ∷ check RuleCriterion.collateral_cover
        (at_most p.min_collateral_cover a.profile.collateral_cover)
        (figure a.profile.collateral_cover) (at_least p.min_collateral_cover)
    ∷ check RuleCriterion.operating_history (leb p.min_years_operating a.profile.years_operating)
        (year_count a.profile.years_operating) (years p.min_years_operating)
    ∷ []

unfoldable pub evaluate : BorrowerApplication → FunderPolicy → FunderEligibility
evaluate a p = record {
  funder_id = p.funder_id;
  eligible = all (λ c. c.passed) (checks_for a p);
  checks = checks_for a p;
}

unfoldable pub evaluate_all : BorrowerApplication → List FunderPolicy → List FunderEligibility
evaluate_all a [] = []
evaluate_all a (p ∷ ps) = evaluate a p ∷ evaluate_all a ps

-- What a funder's policy asks of an application.
pub record Meets (a : BorrowerApplication) (p : FunderPolicy) : Type 0 where
  pub industry : contains a.industry p.allowed_industries ≡ true
  pub region : contains a.region p.allowed_regions ≡ true
  pub loan_type : contains a.loan_type p.allowed_loan_types ≡ true
  pub large_enough : at_most p.min_requested_amount_crore a.profile.requested_amount_crore ≡ true
  pub small_enough : at_most a.profile.requested_amount_crore p.max_requested_amount_crore ≡ true
  pub dscr : at_most p.min_dscr a.profile.dscr ≡ true
  pub debt : at_most a.profile.debt_to_ebitda p.max_debt_to_ebitda ≡ true
  pub cover : at_most p.min_collateral_cover a.profile.collateral_cover ≡ true
  pub history : p.min_years_operating ≤ a.profile.years_operating

-- The engine lets an application through to a funder exactly when it meets every requirement of the
-- funder's policy.
pub evaluate-Meets :
    (a : BorrowerApplication) (p : FunderPolicy) → ((evaluate a p).eligible ≡ true) ↔ Meets a p
unfolding evaluate checks_for
evaluate-Meets a p = (
  λ h. ground arith,
  λ h. ground (
    arith, h.industry, h.region, h.loan_type, h.large_enough, h.small_enough, h.dscr, h.debt,
    h.cover, h.history,
  ),
)

abbrev pub result_ids : List FunderEligibility → List String
result_ids [] = []
result_ids (e ∷ es) = e.funder_id ∷ result_ids es

result_ids-evaluate_all :
    (a : BorrowerApplication) (ps : List FunderPolicy)
    → result_ids (evaluate_all a ps) ≡ funder_ids ps
unfolding evaluate_all evaluate
result_ids-evaluate_all a [] = refl
result_ids-evaluate_all a (p ∷ ps) = ap (λ t. p.funder_id ∷ t) (result_ids-evaluate_all a ps)

-- No two entries are the same.
unfoldable pub AllDifferent : List String → Type 0
AllDifferent [] = Unit
AllDifferent (x ∷ xs) = All (λ y. x ≢ y) xs × AllDifferent xs

all_apart : (x : String) (xs : List String) → contains x xs ≡ false → All (λ y. x ≢ y) xs
all_apart x [] h = tt
all_apart x (z ∷ zs) h = ((λ e. ground arith), all_apart x zs (ground arith))

unique-AllDifferent : (xs : List String) → is_unique xs ≡ true → AllDifferent xs
unfolding AllDifferent
unique-AllDifferent [] h = tt
unique-AllDifferent (x ∷ xs) h =
    (all_apart x xs (ground arith), unique-AllDifferent xs (ground arith))

-- For a policy set that the validator accepts, an application gets one result for each funder, in
-- the order of the policies, and no two of the results are of one funder.
pub evaluate_all-AllDifferent :
    (a : BorrowerApplication) (ps qs : List FunderPolicy)
    → validate_policy_set ps ≡ ok qs
    → (result_ids (evaluate_all a qs) ≡ funder_ids ps)
      × AllDifferent (result_ids (evaluate_all a qs))
unfolding validate_policy_set
evaluate_all-AllDifferent a ps qs h =
    let same : qs ≡ ps = ground arith in
    let unique : is_unique (funder_ids ps) ≡ true = ground arith in
    let ids = result_ids-evaluate_all a ps in
    rw same (ids, subst AllDifferent (sym ids) (unique-AllDifferent (funder_ids ps) unique))
