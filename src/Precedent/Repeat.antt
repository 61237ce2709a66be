-- ===== src/Precedent/Repeat.antt =====
-- A write that went through, and its repetition.
use funder_match.Base.{
  ==-refl, Bool-cases, List, Option, Option-cases, String, ap, arith, contains, get, get-put, inl,
  inr, length, nat_eq, none, ok, refl, some, string_eq, subst, sym, true, ℕ, ◌+◌, ◌==◌, ◌∙◌, ◌≡◌,
  ◌≢◌,
}
use funder_match.Workflow.Schema.{
  precedent_written, state_eq, ActorRole, role_eq, ActorClaims, HumanDecisionRecord,
  PrecedentWriteCommand, PrecedentWriteReceipt, WorkflowRecord, TransitionResult, Stamp,
}
use funder_match.Workflow.Repository
use funder_match.Workflow.Repository.{Repository, Transition, CommandKey, key_eq, store, log, empty}
use funder_match.Workflow.Transitions.{written_transition}
use funder_match.Workflow.Service
use funder_match.Workflow.Service.{Call, written_call, perform, serve}
use funder_match.Workflow.Memory.{exactly_once}
use funder_match.Workflow.Finality.{written_final}
use funder_match.Suggest.Schema.{DecidedLoanCase, DecisionOutcome, SuggestionBundle}
use funder_match.Precedent.Case.{validate_case, validate_decision, validate_internal_consistency}
use funder_match.Precedent.Store.{Store, not_confirmed, point_id, read_one}
use funder_match.Precedent.Writeback.{
  Writer, Memory, WritebackResult, payload_hash, validated, case_of, build_from, build_case,
  outcome_of,
}
use funder_match.Precedent.Service.{receipt_for, read_confirmed, write}
use funder_match.Precedent.Justified.{IsDecided, prepare-IsDecided}
use funder_match.Precedent.Steps.{write_one-verified, write-role, write-IsWritten}

-- What has become of a workflow whose receipt is recorded.
pub record IsReceipted (id : String) (receipt : PrecedentWriteReceipt) (y : TransitionResult)
    (r : Repository) : Type 0 where
  pub there : get id r.workflows ≡ some y.workflow
  pub final : y.workflow.state ≡ precedent_written
  pub receipted : y.workflow.precedent_receipt ≡ some receipt

stored-IsReceipted :
    (t : Stamp) (id : String) (c : PrecedentWriteCommand) (receipt : PrecedentWriteReceipt)
    (a : ActorClaims) (r : Repository) (w : WorkflowRecord) (n : ℕ) (y : TransitionResult)
    → (store id c.command_id r (written_transition t c receipt a w n)).0 ≡ ok y
    → IsReceipted id receipt y (store id c.command_id r (written_transition t c receipt a w n)).1
unfolding written_transition
stored-IsReceipted t id c receipt a r w n y h = record {
  there = ground (arith, get-put id id y.workflow r.workflows);
  final = ground arith;
  receipted = ground arith;
}

pub mark-IsReceipted :
    (t : Stamp) (id : String) (c : PrecedentWriteCommand) (receipt : PrecedentWriteReceipt)
    (a : ActorClaims) (r : Repository) (y : TransitionResult)
    → get (record { application = id; command = c.command_id }) r.commands ≡ none
    → (Service.mark_precedent_written t id c receipt a r).0 ≡ ok y
    → IsReceipted id receipt y (Service.mark_precedent_written t id c receipt a r).1
unfolding Service.mark_precedent_written Repository.transition get
mark-IsReceipted t id c receipt a r y fresh h =
    elim (Bool-cases (contains ActorRole.pipeline a.roles)) [
      | inr refused ↦ ground arith
      | inl role ↦ elim (Option-cases (get id r.workflows)) [
        | inl absent ↦ ground arith
        | inr (w, found) ↦
            rw (role, fresh, found)
              (stored-IsReceipted t id c receipt a r w (length (log id r) + 1) y
                (rw (role, fresh, found) at h))
      ]
    ]

validated-same : (c d : DecidedLoanCase) → validated c ≡ ok d → c ≡ d
unfolding validate_case validate_decision validate_internal_consistency
validated-same c d h = ground arith

module _ {Q : Type 0} where
  build_from-case_id :
      (e : Writer Q) (b : SuggestionBundle) (d : HumanDecisionRecord) (o : Option DecisionOutcome)
      (funder : Option String) (c : DecidedLoanCase)
      → build_from e b.application d o funder ≡ ok c
      → c.case_id ≡ b.application.application_id
  unfolding case_of
  build_from-case_id e b d none funder c h = cc
  build_from-case_id e b d (some outcome) none c h = cc
  build_from-case_id e b d (some outcome) (some funder) c h = sym (
      ap (λ (k : DecidedLoanCase). k.case_id)
        (validated-same (case_of e b.application d outcome funder) c h))

  build_case-case_id :
      (e : Writer Q) (b : SuggestionBundle) (d : HumanDecisionRecord) (c : DecidedLoanCase)
      → build_case e b d ≡ ok c
      → c.case_id ≡ b.application.application_id
  unfolding build_case
  build_case-case_id e b d c h = build_from-case_id e b d (outcome_of d.action) d.funder_id c h

  -- A precedent that stands for a decided workflow: at its point, it is read back as the case that its
  -- decision and its bundle make.
  pub record IsJustified (e : Writer Q) (id : String) (command : PrecedentWriteCommand)
      (w : WorkflowRecord) (x : WritebackResult) (m' : Memory Q) : Type 0 where
    pub case_made : DecidedLoanCase
    pub justified : IsDecided e id w case_made
    pub current : w.version ≡ command.expected_version
    pub faithful : e.store.same x.precedent case_made ≡ true
    pub readable :
        read_one e.store not_confirmed e.store.collection (point_id e.store id) m'.points
        ≡ ok x.precedent

  -- Unless the workflow is written already, a write that returns a precedent was allowed to: the
  -- workflow holds, at the version of the command, a human decision other than a send-back on a bundle
  -- of its own application, whose funder is a candidate or was excluded with each failed check
  -- documented by an override; and the vector store gives the returned precedent back at the point of
  -- the application, equal to the case made of that bundle and decision.
  pub write-IsJustified :
      (e : Writer Q) (t : Stamp) (at : ℕ) (id : String) (command : PrecedentWriteCommand)
      (actor : ActorClaims) (m : Memory Q) (w : WorkflowRecord) (x : WritebackResult)
      → get id m.repository.workflows ≡ some w
      → w.state ≢ precedent_written
      → (write e t at id command actor m).0 ≡ ok x
      → IsJustified e id command w x (write e t at id command actor m).1
  write-IsJustified e t at id command actor m w x found new h =
      let (c, (ready, done)) = write-IsWritten e t at id command actor m w x found new h in
      let (good, version) = prepare-IsDecided e id command w c ready in
      let (back, same) = write_one-verified e.store c x.precedent m.points done.kept in
      let name : c.case_id ≡ id =
        build_case-case_id e good.bundle good.decision c good.built ∙ good.own in
      record {
        case_made = c;
        justified = good;
        current = version;
        faithful = same;
        readable =
            subst
              (λ k.
                read_one e.store not_confirmed e.store.collection (point_id e.store k)
                  (write e t at id command actor m).1.points
                ≡ ok x.precedent)
              name (rw done.points back);
      }

  -- What `==` on cases is relied on for.
  abbrev pub IsEquality : Store Q → Type 0
  IsEquality s = (a b : DecidedLoanCase) → s.same a b ≡ true → a.case_id ≡ b.case_id

  -- A repetition, once the receipt is on record.
  write-receipted :
      (e : Writer Q) (t : Stamp) (at : ℕ) (id : String) (command : PrecedentWriteCommand)
      (actor : ActorClaims) (m : Memory Q) (w : WorkflowRecord) (x : WritebackResult)
      (receipt : PrecedentWriteReceipt)
      → contains ActorRole.pipeline actor.roles ≡ true
      → get id m.repository.workflows ≡ some w
      → w.state ≡ precedent_written
      → w.precedent_receipt ≡ some receipt
      → Service.mark_precedent_written t id command receipt actor m.repository
        ≡ (ok x.transition, m.repository)
      → read_confirmed e receipt m.points ≡ ok x.precedent
      → write e t at id command actor m ≡ (ok x, m)
  unfolding write
  write-receipted e t at id command actor m w x receipt role found final receipted told back =
      let there : (w.state == precedent_written) ≡ true = ground arith in
      rw (role, write) (rw (found, there) (rw receipted (rw told (rw back refl))))

  read_confirmed-receipt :
      (e : Writer Q) (at : ℕ) (k : DecidedLoanCase) (q : Q)
      → read_one e.store not_confirmed e.store.collection (point_id e.store k.case_id) q ≡ ok k
      → read_confirmed e (receipt_for e at k) q ≡ ok k
  unfolding read_confirmed receipt_for
  read_confirmed-receipt e at k q h = ground (arith, ==-refl (payload_hash e k))

  -- Let equal cases have one id. A write that returned for a workflow not written before, under a command id that the
  -- application had not used, may be repeated after any further calls of the workflow service: while
  -- the points are as it left them, it returns the same transition and precedent and changes nothing,
  -- the outbox included.
  pub write_repeat :
      (e : Writer Q) (earlier later : List (Stamp × Call)) (t t' : Stamp) (at at' : ℕ) (id : String)
      (command : PrecedentWriteCommand) (actor : ActorClaims) (m : Memory Q) (w : WorkflowRecord)
      (x : WritebackResult)
      → IsEquality e.store
      → m.repository ≡ serve earlier empty
      → get id m.repository.workflows ≡ some w
      → w.state ≢ precedent_written
      → get (record { application = id; command = command.command_id }) m.repository.commands ≡ none
      → (write e t at id command actor m).0 ≡ ok x
      → let after = (write e t at id command actor m).1 in
        let afterwards = record after { repository = serve later after.repository } in
        write e t' at' id command actor afterwards ≡ (ok x, afterwards)
  unfolding perform
  write_repeat e earlier later t t' at at' id command actor m w x equal start found new fresh h =
      let (c, (ready, done)) = write-IsWritten e t at id command actor m w x found new h in
      let after = (write e t at id command actor m).1 in
      let afterwards : Memory Q = record after { repository = serve later after.repository } in
      let receipt = receipt_for e at x.precedent in
      let call = written_call id command receipt actor in
      let role = write-role e t at id command actor m x h in
      let (back, same) = write_one-verified e.store c x.precedent m.points done.kept in
      let first : perform t call (serve earlier empty) ≡ (ok x.transition, after.repository) =
        subst (λ r. perform t call r ≡ (ok x.transition, after.repository)) start done.told in
      let again = exactly_once earlier later t t' call _ x.transition refl (ap (λ p. p.0) first) in
      let left : (perform t call (serve earlier empty)).1 ≡ after.repository =
        ap (λ p. p.1) first in
      let told : Service.mark_precedent_written t' id command receipt actor afterwards.repository
          ≡ (ok x.transition, afterwards.repository) =
        subst (λ r. perform t' call (serve later r) ≡ (ok x.transition, serve later r)) left
          again in
      let marks =
        mark-IsReceipted t id command receipt actor m.repository x.transition fresh
          (ap (λ p. p.0) done.told) in
      let there : get id after.repository.workflows ≡ some x.transition.workflow =
        subst (λ r. get id r.workflows ≡ some x.transition.workflow) (ap (λ p. p.1) done.told)
          marks.there in
      let still = written_final later id after.repository x.transition.workflow marks.final there in
      let here : read_one e.store not_confirmed e.store.collection
            (point_id e.store x.precedent.case_id) after.points
          ≡ ok x.precedent =
        subst
          (λ k.
            read_one e.store not_confirmed e.store.collection (point_id e.store k) after.points
            ≡ ok x.precedent)
          (sym (equal x.precedent c same)) (rw done.points back) in
      write-receipted e t' at' id command actor afterwards x.transition.workflow x receipt role
        still marks.final marks.receipted told
        (read_confirmed-receipt e at x.precedent after.points here)
