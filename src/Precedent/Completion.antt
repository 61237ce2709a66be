-- ===== src/Precedent/Completion.antt =====
-- A write that is justified goes through.
use funder_match.Base.{
  Bool-cases, List, Result, String, [], ap, arith, contains, err, false, get, inl, inr, nat_eq,
  none, ok, ok-injective, refl, some, string_eq, subst, sym, true, ℕ, ◌==◌, ◌∙◌, ◌∷◌, ◌≡◌, ◌≢◌,
}
use funder_match.Workflow.Schema.{
  human_decided, precedent_written, state_eq, ActorRole, role_eq, send_back, action_eq, ActorClaims,
  DecisionOverride, HumanDecisionRecord, PrecedentWriteCommand, PrecedentWriteReceipt,
  WorkflowRecord, TransitionResult, WorkflowError, Stamp,
}
use funder_match.Workflow.Repository
use funder_match.Workflow.Repository.{Repository, CommandKey, key_eq, store, log}
use funder_match.Workflow.Transitions.{written_transition}
use funder_match.Workflow.Service
use funder_match.Rules.Schema.{RuleCheck}
use funder_match.Suggest.Schema.{DecidedLoanCase, SuggestionBundle, candidate_ids}
use funder_match.Precedent.Store.{StoreError, write_one}
use funder_match.Precedent.Writeback.{
  Writer, WriteError, Outbox, Memory, payload_hash, missing, validate_selected_funder,
}
use funder_match.Precedent.Service.{prepare, receipt_for, begun, commit, stored, marked, write}
use funder_match.Precedent.Outbox.{outbox_begin, outbox_complete}
use funder_match.Precedent.Justified.{AllDocumented, IsSelectable, IsDecided}
use funder_match.Precedent.Steps.{write-commit, write-IsWritten}
use funder_match.Precedent.Repeat.{IsReceipted, mark-IsReceipted}

AllDocumented-missing :
    (checks : List RuleCheck) (overrides : List DecisionOverride)
    → AllDocumented checks overrides
    → missing checks overrides ≡ false
AllDocumented-missing [] overrides h = refl
AllDocumented-missing (k ∷ ks) overrides h =
    ground (arith, h.0, AllDocumented-missing ks overrides h.1)

IsSelectable-select :
    (b : SuggestionBundle) (funder : String) (overrides : List DecisionOverride)
    → IsSelectable b funder overrides
    → validate_selected_funder b (some funder) overrides ≡ ok tt
unfolding validate_selected_funder
IsSelectable-select b funder overrides h = elim h.allowed [
  | inl there ↦ rw there refl
  | inr (f, (found, documented)) ↦
      elim (Bool-cases (contains funder (candidate_ids b.candidates))) [
        | inl there ↦ rw there refl
        | inr absent ↦
            rw absent
              (rw found (rw (AllDocumented-missing f.failed_checks overrides documented) refl))
      ]
]

-- A fresh command under the right version is told to a workflow that holds a lending decision.
mark-completes :
    (t : Stamp) (id : String) (c : PrecedentWriteCommand) (receipt : PrecedentWriteReceipt)
    (a : ActorClaims) (r : Repository) (w : WorkflowRecord) (d : HumanDecisionRecord)
    → contains ActorRole.pipeline a.roles ≡ true
    → get (record { application = id; command = c.command_id }) r.commands ≡ none
    → get id r.workflows ≡ some w
    → w.version ≡ c.expected_version
    → w.state ≡ human_decided
    → w.decision ≡ some d
    → d.action ≢ send_back
    → (y : TransitionResult) × ((Service.mark_precedent_written t id c receipt a r).0 ≡ ok y)
unfolding Service.mark_precedent_written Repository.transition written_transition get
mark-completes t id c receipt a r w d role fresh found version state made lending =
    let decided : (w.state == human_decided) ≡ true = ground arith in
    let same : (w.version == c.expected_version) ≡ true = ground arith in
    let kept : (d.action == send_back) ≡ false = ground arith in
    rw (role, fresh, found) (rw (same, decided) (rw made (rw kept (_, refl))))

-- The outbox, if there is one, has no row for the command.
abbrev pub IsUnused : String → Outbox → Type 0
IsUnused command none = Unit
IsUnused command (some rows) = get command rows ≡ none

state_clash : human_decided ≢ precedent_written
state_clash h = cc

begin_unused :
    (command id operation hash : String) (o : Outbox)
    → IsUnused command o
    → (outbox_begin command id operation hash o).0 ≡ ok tt
unfolding outbox_begin
begin_unused command id operation hash none h = refl
begin_unused command id operation hash (some rows) h = rw h refl

module _ {Q : Type 0} where
  IsDecided-prepare :
      (e : Writer Q) (id : String) (command : PrecedentWriteCommand) (w : WorkflowRecord)
      (c : DecidedLoanCase)
      → IsDecided e id w c
      → w.version ≡ command.expected_version
      → prepare e id command w ≡ ok c
  unfolding prepare
  IsDecided-prepare e id command w c h version =
      let selected : validate_selected_funder h.bundle h.decision.funder_id h.decision.overrides
          ≡ ok tt =
        rw h.chosen (IsSelectable-select h.bundle h.funder h.decision.overrides h.selectable) in
      let state : (w.state == human_decided) ≡ true = ground (arith, h.complete) in
      let same : (w.version == command.expected_version) ≡ true = ground arith in
      let lending : (h.decision.action == send_back) ≡ false = ground (arith, h.lending) in
      let own : (h.bundle.application.application_id == id) ≡ true = ground (arith, h.own) in
      rw state
        (rw h.made (rw (same, lending) (rw h.shown (rw h.read (rw own (rw selected h.built))))))

  marked_completes :
      (m : Memory Q) (c : DecidedLoanCase) (y : TransitionResult)
      (p : Result WorkflowError TransitionResult × Repository)
      → p.0 ≡ ok y
      → (marked m c p).0 ≡ ok (record { transition = y; precedent = c })
  marked_completes m c y (ok z, r) h = rw (ok-injective h) refl
  marked_completes m c y (err x, r) h = cc

  stored_completes :
      (e : Writer Q) (t : Stamp) (at : ℕ) (id : String) (command : PrecedentWriteCommand)
      (actor : ActorClaims) (m : Memory Q) (k : DecidedLoanCase) (y : TransitionResult)
      (p : Result StoreError DecidedLoanCase × Q)
      → p.0 ≡ ok k
      → (Service.mark_precedent_written t id command (receipt_for e at k) actor m.repository).0
        ≡ ok y
      → (stored e t at id command actor m p).0 ≡ ok (record { transition = y; precedent = k })
  stored_completes e t at id command actor m k y (err x, q) h told = cc
  stored_completes e t at id command actor m k y (ok z, q) h told =
      let same : k ≡ z = sym (ok-injective h) in
      let after : Memory Q = record m {
        points = q;
        outbox = outbox_complete command.command_id (receipt_for e at z) m.outbox;
      } in
      subst
        (λ v.
          (stored e t at id command actor m (ok z, q)).0
          ≡ ok (record { transition = y; precedent = v }))
        (sym same)
        (marked_completes after z y
          (Service.mark_precedent_written t id command (receipt_for e at z) actor m.repository)
          (subst
            (λ v.
              (Service.mark_precedent_written t id command (receipt_for e at v) actor
                m.repository).0
              ≡ ok y)
            same told))

  begun_completes :
      (e : Writer Q) (t : Stamp) (at : ℕ) (id : String) (command : PrecedentWriteCommand)
      (actor : ActorClaims) (c k : DecidedLoanCase) (m : Memory Q) (y : TransitionResult)
      (p : Result WriteError (Unit {0}) × Outbox)
      → p.0 ≡ ok tt
      → (write_one e.store c m.points).0 ≡ ok k
      → (Service.mark_precedent_written t id command (receipt_for e at k) actor m.repository).0
        ≡ ok y
      → (begun e t at id command actor c m p).0 ≡ ok (record { transition = y; precedent = k })
  begun_completes e t at id command actor c k m y (err x, o) h kept told = cc
  begun_completes e t at id command actor c k m y (ok _, o) h kept told =
      stored_completes e t at id command actor (record m { outbox = o }) k y
        (write_one e.store c m.points) kept told

  -- A write goes through whenever its workflow holds a lending decision whose case may be kept, the
  -- actor has the pipeline role, the version is the command's, the command is fresh to the repository
  -- and to the outbox, and the vector store confirms the case: it returns the confirmed case, and the
  -- workflow ends in PRECEDENT_WRITTEN with the receipt of that case.
  pub write_completes :
      (e : Writer Q) (t : Stamp) (at : ℕ) (id : String) (command : PrecedentWriteCommand)
      (actor : ActorClaims) (m : Memory Q) (w : WorkflowRecord) (c k : DecidedLoanCase)
      → contains ActorRole.pipeline actor.roles ≡ true
      → get id m.repository.workflows ≡ some w
      → IsDecided e id w c
      → w.version ≡ command.expected_version
      → get (record { application = id; command = command.command_id }) m.repository.commands ≡ none
      → IsUnused command.command_id m.outbox
      → (write_one e.store c m.points).0 ≡ ok k
      → (y : TransitionResult) × (((write e t at id command actor m).0
            ≡ ok (record { transition = y; precedent = k }))
          × IsReceipted id (receipt_for e at k) y (write e t at id command actor m).1.repository)
  write_completes e t at id command actor m w c k role found h version fresh unused kept =
      let receipt = receipt_for e at k in
      let new : w.state ≢ precedent_written =
        λ (final : w.state ≡ precedent_written). state_clash (sym h.complete ∙ final) in
      let same = write-commit e t at id command actor m w found new role in
      let (y, told) =
        mark-completes t id command receipt actor m.repository w h.decision role fresh found version
          h.complete h.made h.lending in
      let ready : write e t at id command actor m ≡ commit e t at id command actor (ok c) m =
        subst (λ r. write e t at id command actor m ≡ commit e t at id command actor r m)
          (IsDecided-prepare e id command w c h version) same in
      let o =
        outbox_begin command.command_id id "precedent_writeback" (payload_hash e c) m.outbox in
      let done =
        begun_completes e t at id command actor c k m y o
          (begin_unused command.command_id id "precedent_writeback" (payload_hash e c) m.outbox
            unused)
          kept told in
      let went : (write e t at id command actor m).0
          ≡ ok (record { transition = y; precedent = k }) =
        rw ready done in
      let (z, (_, steps)) =
        write-IsWritten e t at id command actor m w (record { transition = y; precedent = k }) found
          new went in
      (
        y,
        (
          went,
          subst (IsReceipted id receipt y) (ap (λ p. p.1) steps.told) (
              mark-IsReceipted t id command receipt actor m.repository y fresh
                (ap (λ p. p.0) steps.told)),
        ),
      )
