-- ===== src/Matching/Retriever.antt =====
-- `RuleGatedPrecedentRetriever`, src/fundermatch/matching/retriever.py. The vector search and the
-- embeddings are a function of the filter and the limit; `parse` reads a payload's fields; `plus` and
-- `times` are the operations on floats, with their rounding.
use funder_match.Base.{
  Bool, Dict, List, Option, Result, String, [], contains, err, false, get, if◌then◌else◌, ltb,
  nat_eq, none, not, ok, put, some, string_eq, take, true, ℕ, ◌&&◌, ◌==◌, ◌||◌, ◌∷◌,
}
use Prim.Native.Char.{code}
use funder_match.Json.{Payload}
use funder_match.Number.{Decimal, whole, negsuc, at_most, below}
use funder_match.Rules.Schema.{BorrowerApplication, FunderPolicy, FunderEligibility}
use funder_match.Rules.Engine.{evaluate_all}
use funder_match.Suggest.Schema.{DecidedLoanCase, PrecedentMatch, RuleGatedRetrievalResult}
use funder_match.Precedent.Case.{validate_case, is_retrievable}

pub record RetrievalConfig : Type 0 where
  pub top_k : ℕ
  pub candidate_limit : ℕ
  pub profile_weight : Decimal
  pub comments_weight : Decimal
  pub min_score : Decimal
  pub require_active_lifecycle : Bool

pub data VectorName : Type 0 where
  profile_vector comments_vector : VectorName

-- `funder_filter`
pub record Filter : Type 0 where
  pub funders : List String
  pub active_only : Bool

pub record Hit : Type 0 where
  pub id : String
  pub payload : Option Payload
  pub score : Decimal

pub record Retriever : Type 0 where
  pub config : RetrievalConfig
  pub search : BorrowerApplication → VectorName → Filter → ℕ → List Hit
  pub parse : Payload → Option DecidedLoanCase
  pub plus : Decimal → Decimal → Decimal
  pub times : Decimal → Decimal → Decimal
  pub now : ℕ

-- `_Scores`
pub record Scores : Type 0 where
  pub payload : Payload
  pub profile : Option Decimal
  pub comments : Option Decimal

pub data RetrieveError : Type 0 where
  invalid_payload invalid_score ineligible_precedent : RetrieveError

-- `eligible_funders`
abbrev pub eligible_funders : List FunderEligibility → List String
eligible_funders [] = []
eligible_funders (e ∷ es) =
    let rest = eligible_funders es in if e.eligible then e.funder_id ∷ rest else rest

abbrev profile_of : Option Scores → Option Decimal
profile_of none = none
profile_of (some s) = s.profile

abbrev put_profile : Hit → Option Payload → Dict String Scores → Dict String Scores
put_profile h none d = d
put_profile h (some p) d =
    put h.id (record { payload = p; profile = some h.score; comments = none }) d

abbrev put_comments : Hit → Option Payload → Dict String Scores → Dict String Scores
put_comments h none d = d
put_comments h (some p) d =
    put h.id (record { payload = p; profile = profile_of (get h.id d); comments = some h.score }) d

-- the two loops that fill `scores`
unfoldable pub add_profiles : Dict String Scores → List Hit → Dict String Scores
add_profiles d [] = d
add_profiles d (h ∷ hs) = add_profiles (put_profile h h.payload d) hs

unfoldable pub add_comments : Dict String Scores → List Hit → Dict String Scores
add_comments d [] = d
add_comments d (h ∷ hs) = add_comments (put_comments h h.payload d) hs

-- `item.profile or 0.0`
abbrev or_zero : Option Decimal → Decimal
or_zero none = whole 0
or_zero (some d) = d

unfoldable pub combined : Retriever → Scores → Decimal
combined e s =
    e.plus (e.times e.config.profile_weight (or_zero s.profile))
      (e.times e.config.comments_weight (or_zero s.comments))

abbrev in_range : Decimal → Bool
in_range d = at_most (record { coefficient = negsuc 0; places = 0 }) d && at_most d (whole 1)

abbrev is_bounded : Option Decimal → Bool
is_bounded none = true
is_bounded (some d) = in_range d

-- `PrecedentMatch(...)`, whose scores are bounded
abbrev pub make_match :
    Retriever → Scores → DecidedLoanCase → Result RetrieveError (Option PrecedentMatch)
make_match e s c =
    if in_range (combined e s) && is_bounded s.profile && is_bounded s.comments
    then ok (
        some (record {
          precedent = c;
          score = combined e s;
          profile_score = s.profile;
          comments_score = s.comments;
        }))
    else err invalid_score

abbrev pub judge :
    Retriever
    → List String
    → Scores
    → DecidedLoanCase
    → Result RetrieveError (Option PrecedentMatch)
judge e funders s c =
    if e.config.require_active_lifecycle && not (is_retrievable e.now c)
    then ok none
    else if not (contains c.decision.funder_id funders)
    then err ineligible_precedent
    else if at_most e.config.min_score (combined e s)
    then make_match e s c
    else ok none

abbrev pub read_case : Option DecidedLoanCase → Result RetrieveError DecidedLoanCase
read_case none = err invalid_payload
read_case (some c) = elim (validate_case c) [ ok d ↦ ok d | err _ ↦ err invalid_payload ]

-- one turn of the loop over the scores
unfoldable pub match_of :
    Retriever → List String → Scores → Result RetrieveError (Option PrecedentMatch)
match_of e funders s = elim (read_case (e.parse s.payload)) [
  | err x ↦ err x
  | ok c ↦ judge e funders s c
]

abbrev pub add_match :
    Result RetrieveError (Option PrecedentMatch)
    → Result RetrieveError (List PrecedentMatch)
    → Result RetrieveError (List PrecedentMatch)
add_match (err x) rest = err x
add_match (ok m) (err x) = err x
add_match (ok none) (ok ms) = ok ms
add_match (ok (some m)) (ok ms) = ok (m ∷ ms)

unfoldable pub collect :
    Retriever → List String → Dict String Scores → Result RetrieveError (List PrecedentMatch)
collect e funders [] = ok []
collect e funders ((k, s) ∷ d) = add_match (match_of e funders s) (collect e funders d)

-- `<=` on texts
unfoldable pub text_le : String → String → Bool
text_le String.[] t = true
text_le (String.◌∷◌ c s) String.[] = false
text_le (String.◌∷◌ c s) (String.◌∷◌ d t) =
    let rest = text_le s t in ltb (code c) (code d) || (code c == code d && rest)

-- `<=` on the keys `(-match.score, match.precedent.case_id)`
unfoldable pub precedes : PrecedentMatch → PrecedentMatch → Bool
precedes a b =
    below b.score a.score
    || (at_most a.score b.score
        && at_most b.score a.score
        && text_le a.precedent.case_id b.precedent.case_id)

unfoldable pub insert : PrecedentMatch → List PrecedentMatch → List PrecedentMatch
insert m [] = m ∷ []
insert m (x ∷ xs) = let rest = insert m xs in if precedes m x then m ∷ x ∷ xs else x ∷ rest

-- `sorted`, which keeps the order of equal keys
unfoldable pub sort : List PrecedentMatch → List PrecedentMatch
sort [] = []
sort (m ∷ ms) = insert m (sort ms)

abbrev pub result_of :
    Retriever
    → BorrowerApplication
    → List FunderEligibility
    → List PrecedentMatch
    → RuleGatedRetrievalResult
result_of e a eligibility ms = record {
  application_id = a.application_id;
  eligibility = eligibility;
  matches = ms;
}

abbrev pub ranked_result :
    Retriever
    → BorrowerApplication
    → List FunderEligibility
    → Result RetrieveError (List PrecedentMatch)
    → Result RetrieveError RuleGatedRetrievalResult
ranked_result e a eligibility (err x) = err x
ranked_result e a eligibility (ok ms) =
    ok (result_of e a eligibility (take e.config.top_k (sort ms)))

-- the searches and the scores, for the eligible funders
unfoldable pub scores_for : Retriever → BorrowerApplication → List String → Dict String Scores
scores_for e a funders =
    let filter : Filter = record {
      funders = funders;
      active_only = e.config.require_active_lifecycle;
    } in
    add_comments (add_profiles [] (e.search a profile_vector filter e.config.candidate_limit))
      (e.search a comments_vector filter e.config.candidate_limit)

abbrev pub retrieve_for :
    Retriever
    → BorrowerApplication
    → List FunderEligibility
    → List String
    → Result RetrieveError RuleGatedRetrievalResult
retrieve_for e a eligibility [] = ok (result_of e a eligibility [])
retrieve_for e a eligibility (f ∷ fs) =
    ranked_result e a eligibility (collect e (f ∷ fs) (scores_for e a (f ∷ fs)))

unfoldable pub retrieve :
    Retriever
    → BorrowerApplication
    → List FunderPolicy
    → Result RetrieveError RuleGatedRetrievalResult
retrieve e a ps = retrieve_for e a (evaluate_all a ps) (eligible_funders (evaluate_all a ps))
