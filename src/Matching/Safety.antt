-- ===== src/Matching/Safety.antt =====
-- What a retrieval returns, whatever the vector store answers.
use funder_match.Base.{
  All, All-take, Bool-cases, Dict, List, Option, Result, Result-cases, String, [], arith, contains,
  err, false, inl, inr, length, length-take_le, nat_eq, none, ok, ok-injective, refl, some,
  string_eq, subst, sym, take, true, ℕ, ◌<◌, ◌==◌, ◌∙◌, ◌∷◌, ◌≡◌, ◌≤◌, ◌⊎◌,
}
use funder_match.Number.{at_most}
use funder_match.Rules.Schema.{BorrowerApplication, FunderPolicy, FunderEligibility}
use funder_match.Rules.Engine.{evaluate_all}
use funder_match.Suggest.Schema.{
  PrecedentStatus, active, revoked, superseded, DecidedLoanCase, PrecedentMatch,
  RuleGatedRetrievalResult,
}
use funder_match.Precedent.Case.{is_retrievable, is_active, ends_by}
use funder_match.Matching.Retriever.{
  Retriever, Scores, RetrieveError, eligible_funders, judge, read_case, match_of, add_match,
  collect, sort, scores_for, result_of, ranked_result, retrieve_for, retrieve,
}
use funder_match.Matching.Ranking.{IsRanked, sort-IsRanked, take-IsRanked, sort-All}

-- Some result of the rules is for this funder, and lets the application through.
abbrev pub IsEligible : List FunderEligibility → String → Type 0
IsEligible [] funder = ⊥
IsEligible (e ∷ es) funder = ((e.funder_id ≡ funder) × (e.eligible ≡ true)) ⊎ IsEligible es funder

eligible_funders-IsEligible :
    (es : List FunderEligibility) (funder : String)
    → contains funder (eligible_funders es) ≡ true
    → IsEligible es funder
eligible_funders-IsEligible [] funder h = cc
eligible_funders-IsEligible (e ∷ es) funder h = elim (Bool-cases e.eligible) [
  | inr out ↦ inr (eligible_funders-IsEligible es funder (rw out at h))
  | inl through ↦ elim (Bool-cases (funder == e.funder_id)) [
    | inl same ↦ inl (ground arith, through)
    | inr other ↦ inr (eligible_funders-IsEligible es funder (ground arith))
  ]
]

-- A match as the loop over the scores keeps it.
record IsKept (e : Retriever) (funders : List String) (m : PrecedentMatch) : Type 0 where
  pub eligible : contains m.precedent.decision.funder_id funders ≡ true
  pub close : at_most e.config.min_score m.score ≡ true
  pub live : e.config.require_active_lifecycle ≡ true → is_retrievable e.now m.precedent ≡ true

-- Active, and not past its validity where it has one.
pub record IsLive (now : ℕ) (c : DecidedLoanCase) : Type 0 where
  pub status : c.lifecycle_status ≡ active
  pub in_force : (end : ℕ) → c.valid_until ≡ some end → now < end

is_retrievable-IsLive : (now : ℕ) (c : DecidedLoanCase) → is_retrievable now c ≡ true → IsLive now c
unfolding is_retrievable
is_retrievable-IsLive now c h = record {
  status = active_only c.lifecycle_status (ground arith);
  in_force = λ end found. ends_later c.valid_until end found (ground arith);
}
  where
    active_only : (p : PrecedentStatus) → is_active p ≡ true → p ≡ active
    active_only active h = refl
    active_only revoked h = cc
    active_only superseded h = cc

    ends_later : (o : Option ℕ) (end : ℕ) → o ≡ some end → ends_by o now ≡ false → now < end
    ends_later none end found h = cc
    ends_later (some t) end found h = ground arith

-- A match that the rules allow: a result of the rules lets the application through to its funder, its
-- score reaches the threshold, and it is live where that is required.
pub record IsFair (e : Retriever) (eligibility : List FunderEligibility) (m : PrecedentMatch)
    : Type 0 where
  pub eligible : IsEligible eligibility m.precedent.decision.funder_id
  pub close : at_most e.config.min_score m.score ≡ true
  pub live : e.config.require_active_lifecycle ≡ true → IsLive e.now m.precedent

IsKept-IsFair :
    (e : Retriever) (es : List FunderEligibility) (ms : List PrecedentMatch)
    → All (IsKept e (eligible_funders es)) ms
    → All (IsFair e es) ms
IsKept-IsFair e es [] h = tt
IsKept-IsFair e es (m ∷ ms) h = (
  record {
    eligible = eligible_funders-IsEligible es m.precedent.decision.funder_id h.0.eligible;
    close = h.0.close;
    live = λ required. is_retrievable-IsLive e.now m.precedent (h.0.live required);
  },
  IsKept-IsFair e es ms h.1,
)

judge-IsKept :
    (e : Retriever) (funders : List String) (s : Scores) (c : DecidedLoanCase) (m : PrecedentMatch)
    → judge e funders s c ≡ ok (some m)
    → IsKept e funders m
judge-IsKept e funders s c m h = ground arith

match_of-IsKept :
    (e : Retriever) (funders : List String) (s : Scores) (m : PrecedentMatch)
    → match_of e funders s ≡ ok (some m)
    → IsKept e funders m
unfolding match_of
match_of-IsKept e funders s m h = elim (Result-cases (read_case (e.parse s.payload))) [
  | inr (x, bad) ↦ let refused : match_of e funders s ≡ err x = rw (bad, match_of) refl in cc
  | inl (c, good) ↦ judge-IsKept e funders s c m (rw (good, match_of) at h)
]

add_match-IsKept :
    (e : Retriever) (funders : List String) (r : Result RetrieveError (Option PrecedentMatch))
    (rest : Result RetrieveError (List PrecedentMatch)) (ms : List PrecedentMatch)
    → ((m : PrecedentMatch) → r ≡ ok (some m) → IsKept e funders m)
    → ((older : List PrecedentMatch) → rest ≡ ok older → All (IsKept e funders) older)
    → add_match r rest ≡ ok ms
    → All (IsKept e funders) ms
add_match-IsKept e funders (err x) rest ms p q h = cc
add_match-IsKept e funders (ok m) (err x) ms p q h = cc
add_match-IsKept e funders (ok none) (ok older) ms p q h =
    subst (All (IsKept e funders)) (ok-injective h) (q older refl)
add_match-IsKept e funders (ok (some m)) (ok older) ms p q h =
    subst (All (IsKept e funders)) (ok-injective h) (p m refl, q older refl)

collect-IsKept :
    (e : Retriever) (funders : List String) (d : Dict String Scores) (ms : List PrecedentMatch)
    → collect e funders d ≡ ok ms
    → All (IsKept e funders) ms
unfolding collect
collect-IsKept e funders [] ms h = subst (All (IsKept e funders)) (ok-injective h) tt
collect-IsKept e funders ((k, s) ∷ d) ms h =
    add_match-IsKept e funders (match_of e funders s) (collect e funders d) ms
      (match_of-IsKept e funders s) (collect-IsKept e funders d) h

-- What the result says of the application, and of its matches.
pub record IsGated (e : Retriever) (a : BorrowerApplication) (eligibility : List FunderEligibility)
    (r : RuleGatedRetrievalResult) : Type 0 where
  pub own : r.application_id ≡ a.application_id
  pub rules : r.eligibility ≡ eligibility
  pub few : length r.matches ≤ e.config.top_k
  pub ranked : IsRanked r.matches
  pub fair : All (IsFair e eligibility) r.matches

gate :
    (e : Retriever) (a : BorrowerApplication) (eligibility : List FunderEligibility)
    (funders : List String) (r : RuleGatedRetrievalResult)
    → eligible_funders eligibility ≡ funders
    → retrieve_for e a eligibility funders ≡ ok r
    → IsGated e a eligibility r
gate e a eligibility [] r same h =
    subst (IsGated e a eligibility) (ok-injective h)
      (record { own = refl; rules = refl; few = omega arith; ranked = tt; fair = tt })
gate e a eligibility (f ∷ fs) r same h =
    elim (Result-cases (collect e (f ∷ fs) (scores_for e a (f ∷ fs)))) [
      | inr (x, bad) ↦
          let refused : retrieve_for e a eligibility (f ∷ fs) ≡ err x = rw bad refl in cc
      | inl (ms, good) ↦
          let found : ranked_result e a eligibility (collect e (f ∷ fs) (scores_for e a (f ∷ fs)))
              ≡ ok (result_of e a eligibility (take e.config.top_k (sort ms))) =
            rw good refl in
          let fair = collect-IsKept e (f ∷ fs) (scores_for e a (f ∷ fs)) ms good in
          subst (IsGated e a eligibility) (ok-injective (sym found ∙ h)) (record {
            own = refl;
            rules = refl;
            few = length-take_le e.config.top_k (sort ms);
            ranked = take-IsRanked e.config.top_k (sort ms) (sort-IsRanked ms);
            fair = IsKept-IsFair e eligibility (take e.config.top_k (sort ms)) (
                rw same (
                  All-take (IsKept e (f ∷ fs)) e.config.top_k (sort ms)
                    (sort-All (IsKept e (f ∷ fs)) ms fair)));
          })
    ]

-- Whatever the vector store answers, a retrieval that returns has the engine's own results for the
-- policies, and its matches, at most `top_k`: each belongs to a funder for which one of these results
-- lets the application through, reaches the threshold, and, where that is required, is active and not
-- past its validity; they stand by falling score, and by case id at the same score.
pub retrieve-IsGated :
    (e : Retriever) (a : BorrowerApplication) (ps : List FunderPolicy)
    (r : RuleGatedRetrievalResult)
    → retrieve e a ps ≡ ok r
    → IsGated e a (evaluate_all a ps) r
unfolding retrieve
retrieve-IsGated e a ps r h =
    gate e a (evaluate_all a ps) (eligible_funders (evaluate_all a ps)) r refl h
