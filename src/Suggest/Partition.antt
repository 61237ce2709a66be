-- ===== src/Suggest/Partition.antt =====
-- How a bundle divides the funders, and which precedents it shows for each.
use funder_match.Base.{
  ==_iff, All, Bool, Bool-cases, Dict, List, Option, Option-cases, Result, String, [], all, ap,
  arith, check_if-ok, err, get, get-put, inl, inr, keep, nat_eq, not, ok, ok-injective, put, refl,
  string_eq, subst, sym, true, ◌++◌, ◌==◌, ◌∙◌, ◌∷◌, ◌≡◌,
}
use mathlib.Core.List.{append-nil, append_assoc}
use funder_match.Rules.Schema.{BorrowerApplication, FunderEligibility, FunderPolicy, funder_ids}
use funder_match.Suggest.Schema.{
  PrecedentMatch, RuleGatedRetrievalResult, ExplainedPrecedent, AdvisoryCandidate, ExcludedFunder,
  SuggestionBundle, SuggestError, missing_eligibility, ineligible_precedent, funder_of,
  validate_candidate, validate_excluded, validate_partition, candidate_ids, excluded_ids,
}
use funder_match.Suggest.Assembler.{
  explain_all, eligibility_into, is_eligible, matches_of, group, candidate_for, excluded_for,
  add_candidate, add_excluded, place, split_policies, bundle_of, assemble_grouped, assemble, Parts,
}

abbrev pub shown : List ExplainedPrecedent → List PrecedentMatch
shown [] = []
shown (e ∷ es) = e.match ∷ shown es

shown-explain_all :
    (a : BorrowerApplication) (ms : List PrecedentMatch) → shown (explain_all a ms) ≡ ms
shown-explain_all a [] = refl
shown-explain_all a (m ∷ ms) = ap (λ t. m ∷ t) (shown-explain_all a ms)

-- A candidate shows its own precedents, all of them, in the order of the retrieval, and all its
-- checks have passed.
pub record IsBacked (matches : List PrecedentMatch) (c : AdvisoryCandidate) : Type 0 where
  pub own : shown c.precedents ≡ keep (λ m. funder_of m == c.funder_id) matches
  pub passed : all (λ k. k.passed) c.passed_checks ≡ true

-- The matches of one funder, in the order in which they came.
group-keep :
    (el : Dict String FunderEligibility) (d g : Dict String (List PrecedentMatch))
    (ms : List PrecedentMatch) (id : String)
    → group el d ms ≡ ok g
    → matches_of (get id g) ≡ matches_of (get id d) ++ keep (λ m. funder_of m == id) ms
unfolding group
group-keep el d g [] id h = sym (append-nil _ ∙ ap (λ t. matches_of (get id t)) (ok-injective h))
group-keep el d g (m ∷ ms) id h =
    let j = funder_of m in
    let e = put j (matches_of (get j d) ++ m ∷ []) d in
    let step = check_if-ok (not (is_eligible (get j el))) ineligible_precedent (group el e ms) h in
    let ih = group-keep el e g ms id step.1 in
    elim (Bool-cases (j == id)) [
      | inl same ↦
          let key : j ≡ id = (==_iff j id).0 same in
          let here : matches_of (get id e) ≡ matches_of (get id d) ++ m ∷ [] =
            rw (get-put id j (matches_of (get j d) ++ m ∷ []) d, same) (rw key refl) in
          rw same (
            ih
            ∙ ap (λ t. t ++ keep (λ x. funder_of x == id) ms) here
            ∙ append_assoc (matches_of (get id d)) (m ∷ []) _)
      | inr other ↦
          let there : matches_of (get id e) ≡ matches_of (get id d) =
            rw (get-put id j (matches_of (get j d) ++ m ∷ []) d, other) refl in
          rw other (ih ∙ ap (λ t. t ++ keep (λ x. funder_of x == id) ms) there)
    ]

validate_candidate-passed :
    (c c' : AdvisoryCandidate)
    → validate_candidate c ≡ ok c'
    → (c' ≡ c) × (all (λ k. k.passed) c.passed_checks ≡ true)
unfolding validate_candidate
validate_candidate-passed c c' h = ground arith

validate_excluded-same : (f f' : ExcludedFunder) → validate_excluded f ≡ ok f' → f' ≡ f
unfolding validate_excluded
validate_excluded-same f f' h = ground arith

add_candidate-ok :
    (r : Result SuggestError AdvisoryCandidate) (rest : Result SuggestError Parts) (parts : Parts)
    → add_candidate r rest ≡ ok parts
    → (c : AdvisoryCandidate) × ((older : Parts) × ((r ≡ ok c)
          × ((rest ≡ ok older) × (parts ≡ (c ∷ older.0, older.1)))))
add_candidate-ok (err x) rest parts h = cc
add_candidate-ok (ok c) (err x) parts h = cc
add_candidate-ok (ok c) (ok (cs, fs)) parts h =
    (c, ((cs, fs), (refl, (refl, sym (ok-injective h)))))

add_excluded-ok :
    (r : Result SuggestError ExcludedFunder) (rest : Result SuggestError Parts) (parts : Parts)
    → add_excluded r rest ≡ ok parts
    → (f : ExcludedFunder) × ((older : Parts) × ((r ≡ ok f)
          × ((rest ≡ ok older) × (parts ≡ (older.0, f ∷ older.1)))))
add_excluded-ok (err x) rest parts h = cc
add_excluded-ok (ok f) (err x) parts h = cc
add_excluded-ok (ok f) (ok (cs, fs)) parts h = (f, ((cs, fs), (refl, (refl, sym (ok-injective h)))))

module _ (a : BorrowerApplication) (el : Dict String FunderEligibility) where
  abbrev lets_through : FunderPolicy → Bool
  lets_through p = is_eligible (get p.funder_id el)

  -- The two lists that the loop over the policies makes.
  record IsDivided (ps : List FunderPolicy) (ms : List PrecedentMatch) (parts : Parts)
      : Type 0 where
    candidates : candidate_ids parts.0 ≡ funder_ids (keep lets_through ps)
    excluded : excluded_ids parts.1 ≡ funder_ids (keep (λ p. not (lets_through p)) ps)
    backed : All (IsBacked ms) parts.0

  place-IsDivided :
      (g : Dict String (List PrecedentMatch)) (ms : List PrecedentMatch) (p : FunderPolicy)
      (ps : List FunderPolicy) (rest : Result SuggestError Parts) (parts : Parts)
      → ((id : String) → matches_of (get id g) ≡ keep (λ m. funder_of m == id) ms)
      → ((older : Parts) → rest ≡ ok older → IsDivided ps ms older)
      → place a g p (get p.funder_id el) rest ≡ ok parts
      → IsDivided (p ∷ ps) ms parts
  place-IsDivided g ms p ps rest parts grouped ih h = elim (Option-cases (get p.funder_id el)) [
    | inl missing ↦
        let refused : place a g p (get p.funder_id el) rest ≡ err missing_eligibility =
          rw missing refl in
        cc
    | inr (e, found) ↦ elim (Bool-cases e.eligible) [
      | inl through ↦
          let mine = matches_of (get p.funder_id g) in
          let (c, (older, (valid, (before, same)))) =
            add_candidate-ok (validate_candidate (candidate_for a p e mine)) rest parts
              (rw (found, through) at h) in
          let (alike, passed) = validate_candidate-passed (candidate_for a p e mine) c valid in
          let part = ih older before in
          rw (same, alike)
            (record {
              candidates = rw (found, through) (ap (λ t. p.funder_id ∷ t) part.candidates);
              excluded = rw (found, through) part.excluded;
              backed = (
                record { own = shown-explain_all a mine ∙ grouped p.funder_id; passed = passed },
                part.backed,
              );
            })
      | inr stopped ↦
          let (f, (older, (valid, (before, same)))) =
            add_excluded-ok (validate_excluded (excluded_for p e)) rest parts
              (rw (found, stopped) at h) in
          let alike = validate_excluded-same (excluded_for p e) f valid in
          let part = ih older before in
          rw (same, alike)
            (record {
              candidates = rw (found, stopped) part.candidates;
              excluded = rw (found, stopped) (ap (λ t. p.funder_id ∷ t) part.excluded);
              backed = part.backed;
            })
    ]
  ]

  split_policies-IsDivided :
      (g : Dict String (List PrecedentMatch)) (ms : List PrecedentMatch) (ps : List FunderPolicy)
      (parts : Parts)
      → ((id : String) → matches_of (get id g) ≡ keep (λ m. funder_of m == id) ms)
      → split_policies a el g ps ≡ ok parts
      → IsDivided ps ms parts
  unfolding split_policies
  split_policies-IsDivided g ms [] parts grouped h =
      subst (λ t. IsDivided [] ms t) (ok-injective h)
        (record { candidates = refl; excluded = refl; backed = tt })
  split_policies-IsDivided g ms (p ∷ ps) parts grouped h =
      place-IsDivided g ms p ps (split_policies a el g ps) parts grouped
        (λ older. split_policies-IsDivided g ms ps older grouped) h

bundle_of-parts :
    (hash : Option String) (a : BorrowerApplication) (r : RuleGatedRetrievalResult)
    (parts : Result SuggestError Parts) (b : SuggestionBundle)
    → bundle_of hash a r parts ≡ ok b
    → parts ≡ ok (b.candidates, b.excluded_funders)
unfolding validate_partition
bundle_of-parts hash a r (err x) b h = cc
bundle_of-parts hash a r (ok (cs, fs)) b h = ground arith

assemble_grouped-parts :
    (hash : Option String) (a : BorrowerApplication) (ps : List FunderPolicy)
    (r : RuleGatedRetrievalResult)
    (grouped : Result SuggestError (Dict String (List PrecedentMatch))) (b : SuggestionBundle)
    → assemble_grouped hash a ps r grouped ≡ ok b
    → (g : Dict String (List PrecedentMatch)) × ((grouped ≡ ok g)
        × (split_policies a (eligibility_into [] r.eligibility) g ps
            ≡ ok (b.candidates, b.excluded_funders)))
assemble_grouped-parts hash a ps r (err x) b h = cc
assemble_grouped-parts hash a ps r (ok g) b h = (
  g,
  (refl, bundle_of-parts hash a r (split_policies a (eligibility_into [] r.eligibility) g ps) b h),
)

assemble-grouped :
    (hash : Option String) (a : BorrowerApplication) (ps : List FunderPolicy)
    (r : RuleGatedRetrievalResult) (b : SuggestionBundle)
    → assemble hash a ps r ≡ ok b
    → assemble_grouped hash a ps r (group (eligibility_into [] r.eligibility) [] r.matches) ≡ ok b
unfolding assemble
assemble-grouped hash a ps r b h = ground arith

-- A bundle that is assembled divides the funders by their eligibility, in the order of the policies:
-- the eligible ones are the candidates and the others are excluded. Every check of a candidate has
-- passed, and it shows all the precedents that the retrieval found for it, in their order, and no
-- other one.
pub assemble-partition :
    (hash : Option String) (a : BorrowerApplication) (ps : List FunderPolicy)
    (r : RuleGatedRetrievalResult) (b : SuggestionBundle)
    → assemble hash a ps r ≡ ok b
    → let through =
        λ (p : FunderPolicy). is_eligible (get p.funder_id (eligibility_into [] r.eligibility)) in
      (candidate_ids b.candidates ≡ funder_ids (keep through ps))
      × ((excluded_ids b.excluded_funders ≡ funder_ids (keep (λ p. not (through p)) ps))
          × All (IsBacked r.matches) b.candidates)
unfolding get
assemble-partition hash a ps r b h =
    let el = eligibility_into [] r.eligibility in
    let (g, (grouped, parts)) =
      assemble_grouped-parts hash a ps r (group el [] r.matches) b
        (assemble-grouped hash a ps r b h) in
    let whole =
      split_policies-IsDivided a el g r.matches ps (b.candidates, b.excluded_funders)
        (λ id. group-keep el [] g r.matches id grouped) parts in
    (whole.candidates, (whole.excluded, whole.backed))
