-- ===== src/Guardrails/Acceptance.antt =====
-- The guardrails let through whatever meets their conditions.
use funder_match.Base.{
  All, Bool, Dict, List, Option, Result, String, [], all, any, arith, contains, false, get, nat_eq,
  none, not, ok, refl, some, string_eq, true, ◌&&◌, ◌==◌, ◌↔◌, ◌∷◌, ◌≡◌, ◌≢◌,
}
use funder_match.Number.{below}
use funder_match.Orchestration.Schema.{EvidenceReference, ApplicationMemoryState}
use funder_match.Orchestration.Context.{Raised, WorkerContext, execute}
use funder_match.Rules.Schema.{BorrowerApplication}
use funder_match.Suggest.Schema.{
  RuleGatedRetrievalResult, GroundedClaim, SuggestionBundle, candidate_ids,
}
use funder_match.Guardrails.Worker.{
  Refusal, Guard, each, document_ids, is_degenerate, case_ids, checked_precedents, other_policy,
  checked_claim, is_none, is_on,
}
use funder_match.Workspace.Files.{Workspace}
use funder_match.Guardrails.Run.{
  funder_ids, expected_values, differs, checked_owners, checked_evidence, checked_funders,
  checked_claims, checked, checked_size, result_of, verdict,
}
use funder_match.Guardrails.Receipts.{IsTrusted, AllTrusted}
use funder_match.Orchestration.Context.{WorkerExecutionPolicy}
use funder_match.Orchestration.Schema.{WorkerReceipt, value}
use funder_match.Guardrails.Worker.{checked_receipt, checked_receipts}
use funder_match.Guardrails.Safety.{IsCitedBy, IsClaimedBy, IsCleared}
use funder_match.Guardrails.Release.{IsPassed, verdict-IsPassed}

IsTrusted-receipt :
    (policies : Dict String WorkerExecutionPolicy) (hash : String)
    (verify : WorkerReceipt → String → Bool) (r : WorkerReceipt)
    → IsTrusted policies hash verify r
    → checked_receipt policies hash verify r ≡ ok tt
unfolding checked_receipt below
IsTrusted-receipt policies hash verify r h = ground (
  arith, h.same_policy, h.signed, h.filled, h.verified, h.known, h.attempts, h.calls, h.permitted,
  h.in_time,
)

each-every :
    {A : Type 0} (f : A → Result Refusal (Unit {0})) (P : A → Type 0) (xs : List A)
    → ((x : A) → P x → f x ≡ ok tt)
    → All P xs
    → each f xs ≡ ok tt
unfolding each
each-every f P [] p h = refl
each-every f P (x ∷ xs) p h = rw (p x h.0, each) (each-every f P xs p h.1)

AllTrusted-receipts :
    (policies : Dict String WorkerExecutionPolicy) (o : Option String)
    (v : Option (WorkerReceipt → String → Bool)) (rs : List WorkerReceipt)
    → AllTrusted policies o v rs
    → checked_receipts policies o v rs ≡ ok tt
AllTrusted-receipts policies none v rs h = refl
AllTrusted-receipts policies (some hash) none rs h = absurd h
AllTrusted-receipts policies (some hash) (some verify) rs h =
    each-every (checked_receipt policies hash verify) (IsTrusted policies hash verify) rs
      (IsTrusted-receipt policies hash verify) h

All-all : {A : Type 0} (p : A → Bool) (xs : List A) → All (λ x. p x ≡ true) xs → all p xs ≡ true
All-all p [] h = refl
All-all p (x ∷ xs) h = ground (arith, h.0, All-all p xs h.1)

module _ {B : Type 0} (g : Guard B) (s : ApplicationMemoryState) (a : BorrowerApplication) where
  agrees :
      (o : Option String) (text : String)
      → ((t : String) → o ≡ some t → text ≡ t)
      → differs text o ≡ false
  agrees none text h = refl
  agrees (some t) text h = ground (arith, h t refl)

  IsCitedBy-evidence :
      (e : EvidenceReference)
      → IsCitedBy g s a e
      → (contains e.document_id (document_ids s.documents) ≡ true)
        × ((is_degenerate e ≡ false)
            × (differs e.value (get e.metric (expected_values g a)) ≡ false))
  unfolding below
  IsCitedBy-evidence e h = (
    h.owned,
    (
      ground (arith, h.page, h.wide, h.high),
      agrees (get e.metric (expected_values g a)) e.value h.supported,
    ),
  )

  AllCitedBy-evidence :
      (es : List EvidenceReference)
      → All (IsCitedBy g s a) es
      → (any (λ e. not (contains e.document_id (document_ids s.documents))) es ≡ false)
        × ((any is_degenerate es ≡ false)
            × (any (λ e. differs e.value (get e.metric (expected_values g a))) es ≡ false))
  AllCitedBy-evidence [] h = (refl, (refl, refl))
  AllCitedBy-evidence (e ∷ es) h =
      let (owned, (placed, same)) = IsCitedBy-evidence e h.0 in
      let (owned', (placed', same')) = AllCitedBy-evidence es h.1 in
      (ground arith, (ground arith, ground arith))

  IsClaimedBy-claim :
      (r : RuleGatedRetrievalResult) (c : GroundedClaim)
      → IsClaimedBy g s r c
      → checked_claim g.policy_hash s.application_id s.evidence (case_ids r.matches) c ≡ ok tt
  unfolding checked_claim
  IsClaimedBy-claim r c h =
      let own : (c.application_id == s.application_id) ≡ true = ground (arith, h.own) in
      rw own (rw (kept g.policy_hash c.policy_hash h.policy, h.grounded) refl)
    where
      kept :
          (o q : Option String)
          → ((hash : String) → o ≡ some hash → q ≡ some hash)
          → other_policy o q ≡ false
      kept none q h = refl
      kept (some p) q h = rw (h p refl) (ground arith)

evidence_there : (es : List EvidenceReference) → es ≢ [] → is_none es ≡ false
evidence_there [] h = absurd (h refl)
evidence_there (e ∷ es) h = refl

ledger_there :
    (o : Option String) (cs : List GroundedClaim)
    → ((hash : String) → o ≡ some hash → cs ≢ [])
    → (is_on o && is_none cs) ≡ false
ledger_there none cs h = refl
ledger_there (some hash) [] h = absurd (h hash refl refl)
ledger_there (some hash) (c ∷ cs) h = refl

found-precedents :
    (o : Option (List String → Result Raised Bool)) (is : List String) (c : WorkerContext)
    → (is ≢ []
        → (find : List String → Result Raised Bool) × ((o ≡ some find)
            × ((execute "qdrant_verify" (find is) c).0 ≡ ok true)))
    → checked_precedents o is c ≡ ok tt
found-precedents o [] c h = refl
found-precedents o (i ∷ is) c h =
    let (find, (there, answer)) = h (λ (e : (i ∷ is) ≡ []). head_there i is e) in
    rw there (rw answer refl)
  where
    head_there : (i : String) (is : List String) → (i ∷ is) ≡ [] → ⊥
    head_there i is e = cc

module _ {B : Type 0} where
  IsCleared-checked :
      (g : Guard B) (s : ApplicationMemoryState) (a : BorrowerApplication)
      (r : RuleGatedRetrievalResult) (b : SuggestionBundle) (k : WorkerContext)
      → IsCleared g s a r b k
      → checked g s a r b k ≡ ok tt
  unfolding checked
  IsCleared-checked g s a r b k h =
      let (owned, (placed, same)) = AllCitedBy-evidence g s a s.evidence h.cited in
      let owners : checked_owners s a r b ≡ ok tt =
        ground (arith, h.own_application, h.own_retrieval, h.own_suggestion) in
      let evidence : checked_evidence g s a ≡ ok tt =
        rw (evidence_there s.evidence h.evidence, owned, placed, same) refl in
      let funders : checked_funders s r b ≡ ok tt =
        rw
          (
            All-all _ (funder_ids r.matches) h.retrieved,
            All-all _ (candidate_ids b.candidates) h.suggested,
          )
          refl in
      let claims : checked_claims g s r b ≡ ok tt =
        rw (ledger_there g.policy_hash b.claims h.ledger)
          (each-every _ (IsClaimedBy g s r) b.claims (IsClaimedBy-claim g s a r) h.claims) in
      let size : checked_size g s ≡ ok tt = ground (arith, h.small) in
      rw owners (
        rw evidence (
          rw funders
            (rw (found-precedents g.resolve (case_ids r.matches) k h.resolved) (rw claims size))))

  -- A verdict is the result exactly when every check passes.
  pub verdict-IsPassed_iff :
      (g : Guard B) (w : Workspace B) (s : ApplicationMemoryState) (k : WorkerContext)
      → (verdict g w s k ≡ ok (result_of g s)) ↔ IsPassed g w s k (result_of g s)
  unfolding verdict value
  verdict-IsPassed_iff g w s k = (
    λ h. verdict-IsPassed g w s k (result_of g s) h,
    λ h.
        let receipts =
          AllTrusted-receipts g.execution_policies g.policy_hash g.verify s.worker_receipts
            h.trusted in
        let safe = IsCleared-checked g s h.application h.retrieval h.suggestion k h.safe in
        rw receipts (rw (h.analysed, h.matched, h.suggested) (rw safe refl)),
  )
