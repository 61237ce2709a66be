-- ===== src/Guardrails/Run.antt =====
-- `GuardrailWorker.run`, src/fundermatch/orchestration/guardrails.py: the checks in their order, on the
-- artifacts of the workspace.
use funder_match.Base.{
  Bool, Dict, Exec, List, Option, Result, String, [], all, any, check_if, contains, err, false, get,
  ltb, nat_eq, none, not, ok, some, string_eq, true, ◌&&◌, ◌*◌, ◌++◌, ◌==◌, ◌||◌, ◌∷◌,
}
use funder_match.Orchestration.Schema.{
  WorkerName, value, GuardrailResult, WorkerReceipt, WorkerResult, ApplicationMemoryState,
}
use funder_match.Orchestration.Context.{WorkerContext}
use funder_match.Rules.Schema.{BorrowerApplication}
use funder_match.Suggest.Schema.{
  PrecedentMatch, RuleGatedRetrievalResult, SuggestionBundle, funder_of, candidate_ids,
}
use funder_match.Workspace.Files.{Workspace, WorkspaceError}
use funder_match.Workspace.Operations.{load}
use funder_match.Guardrails.Worker.{
  Refusal, attention, terminal, unreadable, Guard, is_text, is_signed, and_then, each,
  checked_receipts, document_ids, is_degenerate, eligible_ids, case_ids, checked_precedents,
  after_lookup, checked_claim, is_none, is_on,
}

abbrev pub funder_ids : List PrecedentMatch → List String
funder_ids [] = []
funder_ids (m ∷ ms) = funder_of m ∷ funder_ids ms

abbrev pub is_subset : List String → List String → Bool
is_subset xs ys = all (λ x. contains x ys) xs

-- the texts of the guardrails that are reported
abbrev pub reported : List String
reported =
    "citation_presence" ∷ "evidence_ownership" ∷ "numeric_grounding" ∷ "eligible_only"
    ∷ "human_authority" ∷ "claim_grounding" ∷ "checkpoint_schema" ∷ []

abbrev pub passes : List String → List GuardrailResult
passes [] = []
passes (s ∷ ss) = record { guardrail = s; passed = true; code = none } ∷ passes ss

abbrev pub keeps_policy : Option String → List WorkerReceipt → Bool
keeps_policy none rs = true
keeps_policy (some hash) rs = all (λ r. is_text r.policy_hash hash && is_signed r.signature) rs

abbrev pub differs : String → Option String → Bool
differs text none = false
differs text (some wanted) = not (text == wanted)

abbrev pub checked_owners :
    ApplicationMemoryState
    → BorrowerApplication
    → RuleGatedRetrievalResult
    → SuggestionBundle
    → Result Refusal (Unit {0})
checked_owners s a r b =
    check_if (not (a.application_id == s.application_id)) (terminal "cross_application_artifact") (
      check_if (not (r.application_id == s.application_id)) (terminal "cross_application_retrieval")
        (check_if (not (b.application.application_id == s.application_id))
          (terminal "cross_application_suggestion") (ok tt)))

abbrev pub checked_funders :
    ApplicationMemoryState → RuleGatedRetrievalResult → SuggestionBundle → Result Refusal (Unit {0})
checked_funders s r b =
    check_if
      (not (is_subset (funder_ids r.matches) (eligible_ids s.eligibility))
        || not (is_subset (candidate_ids b.candidates) (eligible_ids s.eligibility)))
      (terminal "ineligible_funder_leakage") (ok tt)

abbrev pub read_as {ℓ} : {A : Type ℓ} → Result WorkspaceError A → Result Refusal A
read_as (err x) = err (unreadable x)
read_as (ok a) = ok a

abbrev pub finished : WorkerResult → Result Refusal (Unit {0}) → Result Refusal WorkerResult
finished result (err x) = err x
finished result (ok _) = ok result

module _ {B : Type 0} where
  -- `expected_values`
  unfoldable pub expected_values : Guard B → BorrowerApplication → Dict String String
  expected_values g a =
      ("annual_revenue_crore", g.text_of a.profile.annual_revenue_crore)
      ∷ ("ebitda_margin_pct", g.text_of a.profile.ebitda_margin_pct)
      ∷ ("dscr", g.text_of a.profile.dscr)
      ∷ ("pat_crore", g.text_of a.profile.pat_crore)
      ∷ ("debt_to_equity", g.text_of a.profile.debt_to_equity)
      ∷ ("debt_to_ebitda", g.text_of a.profile.debt_to_ebitda)
      ∷ ("collateral_cover", g.text_of a.profile.collateral_cover)
      ∷ ("years_operating", g.count_text a.profile.years_operating)
      ∷ ("employee_count", g.count_text a.profile.employee_count)
      ∷ ("borrower_name", a.borrower_name)
      ∷ ("industry", a.industry)
      ∷ ("sub_industry", a.sub_industry)
      ∷ ("region", a.region)
      ∷ []

  abbrev pub checked_evidence :
      Guard B → ApplicationMemoryState → BorrowerApplication → Result Refusal (Unit {0})
  checked_evidence g s a = check_if (is_none s.evidence) (attention "missing_evidence") (
      check_if (any (λ e. not (contains e.document_id (document_ids s.documents))) s.evidence)
        (terminal "cross_application_evidence")
        (check_if (any is_degenerate s.evidence) (attention "invalid_citation_geometry") (
          check_if (any (λ e. differs e.value (get e.metric (expected_values g a))) s.evidence)
            (attention "unsupported_numeric_claim") (ok tt))))

  abbrev pub checked_claims :
      Guard B
      → ApplicationMemoryState
      → RuleGatedRetrievalResult
      → SuggestionBundle
      → Result Refusal (Unit {0})
  checked_claims g s r b =
      check_if (is_on g.policy_hash && is_none b.claims) (attention "missing_claim_ledger") (
        each (checked_claim g.policy_hash s.application_id s.evidence (case_ids r.matches))
          b.claims)

  abbrev pub checked_size : Guard B → ApplicationMemoryState → Result Refusal (Unit {0})
  checked_size g s =
      check_if (ltb (256 * 1024) (g.size s)) (terminal "checkpoint_size_violation") (ok tt)

  -- the checks that follow the three artifacts
  unfoldable pub checked :
      Guard B
      → ApplicationMemoryState
      → BorrowerApplication
      → RuleGatedRetrievalResult
      → SuggestionBundle
      → WorkerContext
      → Result Refusal (Unit {0})
  checked g s a r b c = and_then (checked_owners s a r b) (
      and_then (checked_evidence g s a) (
        and_then (checked_funders s r b) (
          and_then (checked_precedents g.resolve (case_ids r.matches) c)
            (and_then (checked_claims g s r b) (checked_size g s)))))

  unfoldable pub guardrails_of : Guard B → ApplicationMemoryState → List GuardrailResult
  guardrails_of g s =
      passes reported
      ++ record {
        guardrail = "tool_timeout_retry_loop_limits";
        passed = keeps_policy g.policy_hash s.worker_receipts;
        code = none;
      }
        ∷ []

  unfoldable pub result_of : Guard B → ApplicationMemoryState → WorkerResult
  result_of g s = record {
    worker = WorkerName.guardrails;
    output_sha256 =
        g.result_hash WorkerName.guardrails s.application_id
          (reported ++ "tool_timeout_retry_loop_limits" ∷ []);
    documents = none;
    evidence = none;
    eligibility = none;
    guardrails = some (guardrails_of g s);
    human_review = none;
    workflow_state = none;
    workflow_version = none;
    config_hash = none;
    model_revision = none;
    write_receipts = [];
  }

  abbrev pub judged :
      Guard B
      → ApplicationMemoryState
      → Result Refusal BorrowerApplication
      → Result Refusal RuleGatedRetrievalResult
      → Result Refusal SuggestionBundle
      → WorkerContext
      → Result Refusal (Unit {0})
  judged g s (err x) r b c = err x
  judged g s (ok a) (err x) b c = err x
  judged g s (ok a) (ok r) (err x) c = err x
  judged g s (ok a) (ok r) (ok b) c = checked g s a r b c

  -- the context after the checks: only the look-up, where it is reached, changes it
  abbrev pub left_by :
      Guard B
      → ApplicationMemoryState
      → Result Refusal BorrowerApplication
      → Result Refusal RuleGatedRetrievalResult
      → Result Refusal SuggestionBundle
      → WorkerContext
      → WorkerContext
  left_by g s (ok a) (ok r) (ok b) c =
      elim (and_then (checked_owners s a r b)
        (and_then (checked_evidence g s a) (checked_funders s r b))) [
          | err x ↦ c
          | ok _ ↦ after_lookup g.resolve (case_ids r.matches) c
        ]
  left_by g s _ _ _ c = c

  abbrev pub receipts_of : Guard B → ApplicationMemoryState → Result Refusal (Unit {0})
  receipts_of g s = checked_receipts g.execution_policies g.policy_hash g.verify s.worker_receipts

  -- the three artifacts
  abbrev pub application_in : Guard B → Workspace B → String → Result Refusal BorrowerApplication
  application_in g w id =
      read_as (load g.system g.codec g.parse_application id (value WorkerName.financial_analysis) w)

  abbrev pub retrieval_in : Guard B → Workspace B → String → Result Refusal RuleGatedRetrievalResult
  retrieval_in g w id =
      read_as (load g.system g.codec g.parse_retrieval id (value WorkerName.precedent_retrieval) w)

  abbrev pub suggestion_in : Guard B → Workspace B → String → Result Refusal SuggestionBundle
  suggestion_in g w id =
      read_as (load g.system g.codec g.parse_suggestion id (value WorkerName.suggestion) w)

  unfoldable pub verdict :
      Guard B → Workspace B → ApplicationMemoryState → WorkerContext → Result Refusal WorkerResult
  unfolding value
  verdict g w s c = finished (result_of g s) (
      and_then (receipts_of g s) (
        judged g s (application_in g w s.application_id) (retrieval_in g w s.application_id)
          (suggestion_in g w s.application_id) c))

  unfoldable pub run :
      Guard B → Workspace B → ApplicationMemoryState → Exec WorkerContext Refusal WorkerResult
  unfolding value
  run g w s c = (
    verdict g w s c,
    elim (receipts_of g s) [
      | err x ↦ c
      | ok _ ↦
          left_by g s (application_in g w s.application_id) (retrieval_in g w s.application_id)
            (suggestion_in g w s.application_id) c
    ],
  )
