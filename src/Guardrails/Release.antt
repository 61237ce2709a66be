-- ===== src/Guardrails/Release.antt =====
-- What a run of the guardrails that returns has checked.
use funder_match.Base.{
  All, Bool, Dict, List, Option, Result, String, [], ap, arith, err, nat_eq, none, ok, ok-injective,
  refl, some, string_eq, sym, true, ◌∷◌, ◌≡◌,
}
use funder_match.Orchestration.Schema.{
  value, GuardrailResult, WorkerReceipt, WorkerResult, ApplicationMemoryState,
}
use funder_match.Orchestration.Context.{WorkerExecutionPolicy, WorkerContext}
use funder_match.Rules.Schema.{BorrowerApplication}
use funder_match.Suggest.Schema.{RuleGatedRetrievalResult, SuggestionBundle}
use funder_match.Workspace.Files.{Workspace, WorkspaceError}
use funder_match.Workspace.Operations.{load}
use funder_match.Guardrails.Worker.{Refusal, Guard, checked_receipt, each, checked_receipts}
use funder_match.Guardrails.Run.{
  keeps_policy, read_as, finished, judged, guardrails_of, result_of, verdict,
}
use funder_match.Guardrails.Receipts.{AllTrusted, checked_receipts-AllTrusted}
use funder_match.Guardrails.Safety.{IsCleared, and_then-both, checked-IsCleared}

-- A state that the guardrails let through, with its artifacts as the workspace holds them.
pub record IsPassed {B : Type 0} (g : Guard B) (w : Workspace B) (s : ApplicationMemoryState)
    (k : WorkerContext) (x : WorkerResult) : Type 0 where
  pub application : BorrowerApplication
  pub retrieval : RuleGatedRetrievalResult
  pub suggestion : SuggestionBundle
  pub analysed :
      load g.system g.codec g.parse_application s.application_id "financial_analysis" w
      ≡ ok application
  pub matched :
      load g.system g.codec g.parse_retrieval s.application_id "precedent_retrieval" w
      ≡ ok retrieval
  pub suggested :
      load g.system g.codec g.parse_suggestion s.application_id "suggestion" w ≡ ok suggestion
  pub trusted : AllTrusted g.execution_policies g.policy_hash g.verify s.worker_receipts
  pub safe : IsCleared g s application retrieval suggestion k
  pub results : List GuardrailResult
  pub reported_all : x.guardrails ≡ some results
  pub passed_all : All (λ result. result.passed ≡ true) results

read_as-ok : {A : Type 0} (r : Result WorkspaceError A) (a : A) → read_as r ≡ ok a → r ≡ ok a
read_as-ok (err x) a h = cc
read_as-ok (ok c) a h = ap (λ z. ok z) (ok-injective h)

finished-both :
    (result x : WorkerResult) (r : Result Refusal (Unit {0}))
    → finished result r ≡ ok x
    → (r ≡ ok tt) × (result ≡ x)
finished-both result x (err e) h = cc
finished-both result x (ok t) h = (refl, ok-injective h)

trusted-keeps_policy :
    (policies : Dict String WorkerExecutionPolicy) (o : Option String)
    (v : Option (WorkerReceipt → String → Bool)) (rs : List WorkerReceipt)
    → checked_receipts policies o v rs ≡ ok tt
    → keeps_policy o rs ≡ true
unfolding each checked_receipt
trusted-keeps_policy policies none v rs h = refl
trusted-keeps_policy policies (some hash) none rs h = cc
trusted-keeps_policy policies (some hash) (some verify) [] h = refl
trusted-keeps_policy policies (some hash) (some verify) (r ∷ rs) h =
    let (first, rest) =
      and_then-both (checked_receipt policies hash verify r)
        (each (checked_receipt policies hash verify) rs) h in
    ground (arith, trusted-keeps_policy policies (some hash) (some verify) rs rest)

module _ {B : Type 0} where
  judged-all :
      (g : Guard B) (s : ApplicationMemoryState) (a : Result Refusal BorrowerApplication)
      (r : Result Refusal RuleGatedRetrievalResult) (b : Result Refusal SuggestionBundle)
      (k : WorkerContext)
      → judged g s a r b k ≡ ok tt
      → (v : BorrowerApplication) × ((u : RuleGatedRetrievalResult) × ((c : SuggestionBundle) × (((a
                  ≡ ok v)
                × ((r ≡ ok u) × (b ≡ ok c)))
              × IsCleared g s v u c k)))
  judged-all g s (err x) r b k h = cc
  judged-all g s (ok a) (err x) b k h = cc
  judged-all g s (ok a) (ok r) (err x) k h = cc
  judged-all g s (ok a) (ok r) (ok b) k h =
      (a, (r, (b, ((refl, (refl, refl)), checked-IsCleared g s a r b k h))))

  -- A run that returns has found everything in order.
  pub verdict-IsPassed :
      (g : Guard B) (w : Workspace B) (s : ApplicationMemoryState) (k : WorkerContext)
      (x : WorkerResult)
      → verdict g w s k ≡ ok x
      → IsPassed g w s k x
  unfolding verdict value result_of guardrails_of
  verdict-IsPassed g w s k x h =
      let (all_checks, same) = finished-both (result_of g s) x _ h in
      let (receipts, rest) =
        and_then-both
          (checked_receipts g.execution_policies g.policy_hash g.verify s.worker_receipts) _
          all_checks in
      let (a, (r, (b, ((la, (lr, lb)), safe)))) =
        judged-all g s
          (read_as
            (load g.system g.codec g.parse_application s.application_id "financial_analysis" w))
          (read_as
            (load g.system g.codec g.parse_retrieval s.application_id "precedent_retrieval" w))
          (read_as (load g.system g.codec g.parse_suggestion s.application_id "suggestion" w)) k
          rest in
      record {
        application = a;
        retrieval = r;
        suggestion = b;
        analysed = read_as-ok _ a la;
        matched = read_as-ok _ r lr;
        suggested = read_as-ok _ b lb;
        trusted =
            checked_receipts-AllTrusted g.execution_policies g.policy_hash g.verify
              s.worker_receipts receipts;
        safe = safe;
        results = guardrails_of g s;
        reported_all = ap (λ (z : WorkerResult). z.guardrails) (sym same);
        passed_all = (
          refl,
          (
            refl,
            (
              refl,
              (
                refl,
                (
                  refl,
                  (
                    refl,
                    (
                      refl,
                      (
                        trusted-keeps_policy g.execution_policies g.policy_hash g.verify
                            s.worker_receipts receipts,
                        tt,
                      ),
                    ),
                  ),
                ),
              ),
            ),
          ),
        );
      }
