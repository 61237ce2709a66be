-- ===== src/Workflow/Transitions.antt =====
-- The transitions of `WorkflowService`, src/fundermatch/workflow/service.py: what each command makes
-- of the current record, and the event that it writes.
use funder_match.Base.{
  Bool, List, Option, String, [], check_if, contains, err, false, nat_eq, none, not, ok, some,
  string_eq, true, ℕ, ◌&&◌, ◌+◌, ◌==◌, ◌||◌, ◌∷◌,
}
use funder_match.Json.{or_else}
use funder_match.Workflow.Schema.{
  WorkflowState, intake, extracted, rule_gated, ai_suggested, awaiting_human, human_decided,
  precedent_written, state_eq, ActorRole, human_reviewer, role_eq, send_back, action_eq,
  RestartStage, ActorClaims, PipelineAdvanceCommand, HumanDecisionCommand, PipelineReopenCommand,
  PrecedentWriteCommand, HumanDecisionRecord, PrecedentWriteReceipt, WorkflowRecord, AuditEvent,
  AuditAction, Changes, invalid_transition, conflict, key_error, Stamp,
}
use funder_match.Workflow.Repository.{Transition}

-- `PIPELINE_TRANSITIONS.get`
unfoldable pub pipeline_transitions : WorkflowState → Option WorkflowState
pipeline_transitions intake = some extracted
pipeline_transitions extracted = some rule_gated
pipeline_transitions rule_gated = some ai_suggested
pipeline_transitions ai_suggested = some awaiting_human
pipeline_transitions _ = none

-- `RESTART_STATES`; the supervisor has no entry
unfoldable pub restart_states : RestartStage → Option WorkflowState
restart_states RestartStage.supervisor = none
restart_states RestartStage.document_processing = some intake
restart_states RestartStage.financial_analysis = some intake
restart_states RestartStage.eligibility = some extracted
restart_states RestartStage.precedent_retrieval = some rule_gated
restart_states RestartStage.suggestion = some rule_gated
restart_states RestartStage.guardrails = some ai_suggested

abbrev insert_if : Bool → ActorRole → List ActorRole → List ActorRole
insert_if true x xs = x ∷ xs
insert_if false x xs = xs

-- `tuple(sorted(actor.roles, key=str))`: "human_reviewer" comes before "pipeline"
unfoldable pub sorted_roles : List ActorRole → List ActorRole
sorted_roles roles =
    insert_if (contains human_reviewer roles) human_reviewer
      (insert_if (contains ActorRole.pipeline roles) ActorRole.pipeline [])

-- `_event`
unfoldable pub make_event :
    Stamp
    → String
    → WorkflowRecord
    → ℕ
    → ActorClaims
    → Option WorkflowState
    → WorkflowState
    → AuditAction
    → String
    → Changes
    → AuditEvent
make_event stamp command workflow sequence actor from_state to_state action reason changes =
    record {
      audit_id = stamp.audit_id;
      command_id = command;
      application_id = workflow.application_id;
      sequence = sequence;
      actor_id = actor.actor_id;
      actor_display_name = actor.display_name;
      actor_roles = sorted_roles actor.roles;
      from_state = from_state;
      to_state = to_state;
      action = action;
      reason = reason;
      changes = changes;
      occurred_at = stamp.occurred_at;
    }

abbrev is_some {ℓ} : {A : Type ℓ} → Option A → Bool
is_some none = false
is_some (some _) = true

abbrev pub targets : Option WorkflowState → WorkflowState → Bool
targets none s = false
targets (some t) s = t == s

-- the `transition` that `advance_pipeline` hands over
unfoldable pub advance_transition : Stamp → PipelineAdvanceCommand → ActorClaims → Transition
unfolding make_event sorted_roles pipeline_transitions or_else
advance_transition stamp command actor current sequence =
    check_if (not (current.version == command.expected_version)) conflict (
      check_if (not (targets (pipeline_transitions current.state) command.target_state))
        invalid_transition
        (check_if (command.target_state == ai_suggested && not (is_some command.suggestion))
          invalid_transition
          (check_if (is_some command.suggestion && not (command.target_state == ai_suggested))
            invalid_transition
            (let updated = record current {
              state = command.target_state;
              version = current.version + 1;
              suggestion = or_else command.suggestion current.suggestion;
              updated_at = stamp.now;
            } in
              ok (
                updated,
                make_event stamp command.command_id updated sequence actor (some current.state)
                    updated.state AuditAction.pipeline_advance command.reason
                    (Changes.advanced updated.state updated.version),
              )))))

unfoldable pub decide_transition : Stamp → HumanDecisionCommand → ActorClaims → Transition
unfolding make_event sorted_roles
decide_transition stamp command actor current sequence =
    check_if (not (current.version == command.expected_version)) conflict (
      check_if (not (current.state == awaiting_human)) invalid_transition (
        let decision : HumanDecisionRecord = record {
          action = command.action;
          funder_id = command.funder_id;
          reason = command.reason;
          conditions = command.conditions;
          overrides = command.overrides;
          actor_id = actor.actor_id;
          actor_display_name = actor.display_name;
          decided_at = stamp.now;
        } in
        let updated = record current {
          state = human_decided;
          version = current.version + 1;
          decision = some decision;
          updated_at = stamp.now;
        } in
        ok (
          updated,
          make_event stamp command.command_id updated sequence actor (some current.state)
              updated.state (AuditAction.human command.action) command.reason
              (Changes.decided updated.state updated.version decision),
        )))

-- `current.decision is None or current.decision.action == SEND_BACK`
abbrev pub is_precedent : Option HumanDecisionRecord → Bool
is_precedent none = false
is_precedent (some d) = not (d.action == send_back)

-- `current.decision is not None and current.decision.action == SEND_BACK`
abbrev pub is_sent_back : Option HumanDecisionRecord → Bool
is_sent_back none = false
is_sent_back (some d) = d.action == send_back

unfoldable pub written_transition :
    Stamp → PrecedentWriteCommand → PrecedentWriteReceipt → ActorClaims → Transition
unfolding make_event sorted_roles
written_transition stamp command receipt actor current sequence =
    check_if (not (current.version == command.expected_version)) conflict (
      check_if (not (current.state == human_decided)) invalid_transition (
        check_if (not (is_precedent current.decision)) invalid_transition (
          let updated = record current {
            state = precedent_written;
            version = current.version + 1;
            precedent_receipt = some receipt;
            updated_at = stamp.now;
          } in
          ok (
            updated,
            make_event stamp command.command_id updated sequence actor (some current.state)
                updated.state AuditAction.precedent_written command.reason
                (Changes.written updated.state updated.version receipt),
          ))))

abbrev pub is_supervisor : RestartStage → Bool
is_supervisor RestartStage.supervisor = true
is_supervisor _ = false

unfoldable pub reopen_transition : Stamp → PipelineReopenCommand → ActorClaims → Transition
unfolding make_event sorted_roles restart_states
reopen_transition stamp command actor current sequence =
    check_if (not (current.version == command.expected_version)) conflict (
      check_if (not (current.state == human_decided) || not (is_sent_back current.decision))
        invalid_transition
        (elim (restart_states command.restart_stage) [
          | none ↦ err key_error
          | some target ↦
              let updated = record current {
                state = target;
                version = current.version + 1;
                decision = none;
                updated_at = stamp.now;
              } in
              ok (
                updated,
                make_event stamp command.command_id updated sequence actor (some current.state)
                    target AuditAction.send_back_reopen command.reason
                    (Changes.reopened target updated.version command.restart_stage),
              )
        ]))
