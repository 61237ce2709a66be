-- ===== src/Guardrails/Released.antt =====
-- The guardrails let exactly the states through that keep their promises.
use funder_match.Base.{
  All, Bool, List, Option, Result, String, [], ap, arith, contains, false, ltb, map, nat_eq, none,
  ok, refl, some, string_eq, true, ◌+◌, ◌↔◌, ◌∷◌, ◌≡◌, ◌≢◌,
}
use funder_match.Orchestration.Schema.{EvidenceReference, ApplicationMemoryState}
use funder_match.Orchestration.Context.{
  Raised, WorkerContext, execute, consume_tool_call, is_permitted,
}
use funder_match.Rules.Schema.{BorrowerApplication}
use funder_match.Suggest.Schema.{
  PrecedentMatch, AdvisoryCandidate, RuleGatedRetrievalResult, GroundedClaim, SuggestionBundle,
  candidate_ids,
}
use funder_match.Workspace.Files.{Workspace}
use funder_match.Guardrails.Worker.{Guard, eligible_ids, case_ids}
use funder_match.Guardrails.Run.{funder_ids, expected_values, result_of, run}
use funder_match.Guardrails.Safety.{IsCitedBy, IsClaimedBy, IsCleared}
use funder_match.Guardrails.Acceptance.{verdict-IsPassed_iff}
use funder_match.Guardrails.Conditions.{
  IsEligible, contains-IsEligible, contains-documents, grounded-Rests,
}
use funder_match.Guardrails.Specification.{
  figures, id_of, IsFound, IsCited, IsClaimed, IsSafe, IsReleased,
}

execute-IsFound :
    (find : List String → Result Raised Bool) (ids : List String) (k : WorkerContext)
    → ((execute "qdrant_verify" (find ids) k).0 ≡ ok true) ↔ IsFound find ids k
unfolding execute consume_tool_call
execute-IsFound find ids k = (
  λ h. record {
    permitted = λ tools listed. ground arith;
    affordable = ground arith;
    answer = ground arith;
  },
  λ h.
      let enough : ltb k.max_tool_calls (k.tool_calls + 1) ≡ false = ground (arith, h.affordable) in
      let listed = allowed k.permitted_tools h.permitted in
      ground (arith, listed, enough, h.answer),
)
  where
    allowed :
        (o : Option (List String))
        → ((tools : List String) → o ≡ some tools → contains "qdrant_verify" tools ≡ true)
        → is_permitted o "qdrant_verify" ≡ true
    allowed none p = refl
    allowed (some tools) p = p tools refl

All-along :
    {A : Type 0} (P Q : A → Type 0) (xs : List A) → ((x : A) → P x → Q x) → All P xs → All Q xs
All-along P Q [] p h = tt
All-along P Q (x ∷ xs) p h = (p x h.0, All-along P Q xs p h.1)

All-funders :
    (P : String → Type 0) (ms : List PrecedentMatch)
    → All P (funder_ids ms) ↔ All (λ m. P m.precedent.decision.funder_id) ms
All-funders P [] = (λ h. tt, λ h. tt)
All-funders P (m ∷ ms) = let ih = All-funders P ms in (λ h. (h.0, ih.0 h.1), λ h. (h.0, ih.1 h.1))

All-candidates :
    (P : String → Type 0) (cs : List AdvisoryCandidate)
    → All P (candidate_ids cs) ↔ All (λ c. P c.funder_id) cs
All-candidates P [] = (λ h. tt, λ h. tt)
All-candidates P (c ∷ cs) =
    let ih = All-candidates P cs in (λ h. (h.0, ih.0 h.1), λ h. (h.0, ih.1 h.1))

case_ids-map : (ms : List PrecedentMatch) → case_ids ms ≡ map id_of ms
case_ids-map [] = refl
case_ids-map (m ∷ ms) = ap (λ t. m.precedent.case_id ∷ t) (case_ids-map ms)

matches_there : (ms : List PrecedentMatch) → (ms ≢ []) ↔ (case_ids ms ≢ [])
matches_there [] = (λ h e. h refl, λ h e. h refl)
matches_there (m ∷ ms) = (λ h e. apart_ids e, λ h e. apart_matches e)
  where
    apart_ids : (m.precedent.case_id ∷ case_ids ms) ≡ [] → ⊥
    apart_ids e = cc

    apart_matches : (m ∷ ms) ≡ [] → ⊥
    apart_matches e = cc

figures-expected_values :
    {B : Type 0} (g : Guard B) (a : BorrowerApplication) → expected_values g a ≡ figures g a
unfolding expected_values
figures-expected_values g a = refl

module _ {B : Type 0} (g : Guard B) (s : ApplicationMemoryState) where
  IsCited-iff :
      (a : BorrowerApplication) (e : EvidenceReference) → IsCitedBy g s a e ↔ IsCited g s a e
  IsCited-iff a e =
      let docs = contains-documents s.documents e.document_id in
      (
        λ h. record {
          owned = docs.0 h.owned;
          page = h.page;
          wide = h.wide;
          high = h.high;
          supported = λ t found. h.supported t (rw (figures-expected_values g a) found);
        },
        λ h. record {
          owned = docs.1 h.owned;
          page = h.page;
          wide = h.wide;
          high = h.high;
          supported = λ t found. h.supported t (rw (figures-expected_values g a) at found);
        },
      )

  IsClaimed-iff :
      (r : RuleGatedRetrievalResult) (c : GroundedClaim) → IsClaimedBy g s r c ↔ IsClaimed g s r c
  IsClaimed-iff r c =
      let rests = grounded-Rests s.evidence r.matches c.grounding in
      (
        λ h. record { own = h.own; policy = h.policy; rests = rests.0 h.grounded },
        λ h. record { own = h.own; policy = h.policy; grounded = rests.1 h.rests },
      )

  IsCleared-iff :
      (a : BorrowerApplication) (r : RuleGatedRetrievalResult) (b : SuggestionBundle)
      (k : WorkerContext)
      → IsCleared g s a r b k ↔ IsSafe g s a r b k
  IsCleared-iff a r b k =
      let P : String → Type 0 = λ f. contains f (eligible_ids s.eligibility) ≡ true in
      let Q : String → Type 0 = IsEligible s.eligibility in
      let funders = All-funders Q r.matches in
      let candidates = All-candidates Q b.candidates in
      let ids = case_ids-map r.matches in
      let there = matches_there r.matches in
      (
        λ h. record {
          own_application = h.own_application;
          own_retrieval = h.own_retrieval;
          own_suggestion = h.own_suggestion;
          evidence = h.evidence;
          cited =
              All-along (IsCitedBy g s a) (IsCited g s a) s.evidence (λ e. (IsCited-iff a e).0)
                h.cited;
          retrieved = funders.0 (
              All-along P Q (funder_ids r.matches) (λ f. (contains-IsEligible s.eligibility f).0)
                h.retrieved);
          suggested = candidates.0 (
              All-along P Q (candidate_ids b.candidates)
                (λ f. (contains-IsEligible s.eligibility f).0) h.suggested);
          resolved = λ some_match.
              let (find, (is, answer)) = h.resolved (there.0 some_match) in
              (find, (is, (execute-IsFound find (map id_of r.matches) k).0 (rw ids at answer)));
          claims =
              All-along (IsClaimedBy g s r) (IsClaimed g s r) b.claims (λ c. (IsClaimed-iff r c).0)
                h.claims;
          ledger = h.ledger;
          small = h.small;
        },
        λ h. record {
          own_application = h.own_application;
          own_retrieval = h.own_retrieval;
          own_suggestion = h.own_suggestion;
          evidence = h.evidence;
          cited =
              All-along (IsCited g s a) (IsCitedBy g s a) s.evidence (λ e. (IsCited-iff a e).1)
                h.cited;
          retrieved =
              All-along Q P (funder_ids r.matches) (λ f. (contains-IsEligible s.eligibility f).1)
                (funders.1 h.retrieved);
          suggested =
              All-along Q P (candidate_ids b.candidates)
                (λ f. (contains-IsEligible s.eligibility f).1) (candidates.1 h.suggested);
          resolved = λ some_id.
              let (find, (is, found)) = h.resolved (there.1 some_id) in
              (find, (is, rw ids ((execute-IsFound find (map id_of r.matches) k).1 found)));
          claims =
              All-along (IsClaimed g s r) (IsClaimedBy g s r) b.claims (λ c. (IsClaimed-iff r c).1)
                h.claims;
          ledger = h.ledger;
          small = h.small;
        },
      )

module _ {B : Type 0} where
  -- The guardrails let exactly the states through that are released: whatever the workspace holds and
  -- whatever calls the worker has made, the run returns its result if and only if, under a policy, each
  -- receipt is signed, verified and within the budget of its worker; the three artifacts are there and
  -- the state's own; there is evidence, all of it cited on a page and in a box of one of its documents,
  -- with the application's values; every funder retrieved or suggested has an eligible result; the
  -- look-up of the precedents, if there are any, is permitted, within the budget, and finds them; every
  -- claim is the state's own and under the policy, one on evidence cites a place of the evidence, and one
  -- on a precedent names a retrieved one; there is a claim under a policy; and the JSON is within the
  -- size policy. Then each guardrail is reported as passed.
  pub run-IsReleased_iff :
      (g : Guard B) (w : Workspace B) (s : ApplicationMemoryState) (k : WorkerContext)
      → ((run g w s k).0 ≡ ok (result_of g s)) ↔ IsReleased g w s k (result_of g s)
  unfolding run
  run-IsReleased_iff g w s k =
      let iff = verdict-IsPassed_iff g w s k in
      (
        λ h.
            let p = iff.0 h in
            record {
              application = p.application;
              retrieval = p.retrieval;
              suggestion = p.suggestion;
              analysed = p.analysed;
              matched = p.matched;
              suggested = p.suggested;
              trusted = p.trusted;
              safe = (IsCleared-iff g s p.application p.retrieval p.suggestion k).0 p.safe;
              results = p.results;
              reported_all = p.reported_all;
              passed_all = p.passed_all;
            },
        λ h. iff.1 (record {
          application = h.application;
          retrieval = h.retrieval;
          suggestion = h.suggestion;
          analysed = h.analysed;
          matched = h.matched;
          suggested = h.suggested;
          trusted = h.trusted;
          safe = (IsCleared-iff g s h.application h.retrieval h.suggestion k).1 h.safe;
          results = h.results;
          reported_all = h.reported_all;
          passed_all = h.passed_all;
        }),
      )
