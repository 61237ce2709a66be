-- ===== src/Agents/Advance.antt =====
-- `_ensure_workflow` and `_advance`, src/fundermatch/orchestration/workers.py: how a worker moves the
-- workflow of its application. `ids` is the `uuid5` of the application and the target.
use funder_match.Base.{
  Exec, Option, Result, String, err, get, if◌then◌else◌, leb, nat_eq, none, ok, some, string_eq, ℕ,
}
use funder_match.Json.{Payload}
use funder_match.Workflow.Schema.{
  WorkflowState, intake, extracted, rule_gated, ai_suggested, awaiting_human, human_decided,
  precedent_written, ActorClaims, PipelineAdvanceCommand, WorkflowRecord, TransitionResult,
  WorkflowError, Stamp,
}
use funder_match.Workflow.Repository.{Repository}
use funder_match.Workflow.Service

-- `tuple(WorkflowState).index`
unfoldable pub index : WorkflowState → ℕ
index intake = 0
index extracted = 1
index rule_gated = 2
index ai_suggested = 3
index awaiting_human = 4
index human_decided = 5
index precedent_written = 6

-- `f"Agent worker completed {target.value.lower()}"`
abbrev completed_reason : WorkflowState → String
completed_reason intake = "Agent worker completed intake"
completed_reason extracted = "Agent worker completed extracted"
completed_reason rule_gated = "Agent worker completed rule_gated"
completed_reason ai_suggested = "Agent worker completed ai_suggested"
completed_reason awaiting_human = "Agent worker completed awaiting_human"
completed_reason human_decided = "Agent worker completed human_decided"
completed_reason precedent_written = "Agent worker completed precedent_written"

abbrev pub only_workflow :
    Result WorkflowError TransitionResult × Repository
    → Result WorkflowError WorkflowRecord × Repository
only_workflow (err e, r) = (err e, r)
only_workflow (ok result, r) = (ok result.workflow, r)

-- `_ensure_workflow`; `command` is the worker's own command id
unfoldable pub ensure_workflow :
    Stamp → ActorClaims → String → String → Exec Repository WorkflowError WorkflowRecord
ensure_workflow stamp actor id command r = elim (get id r.workflows) [
  | some w ↦ (ok w, r)
  | none ↦ only_workflow (
      Service.create stamp id actor (some command)
        "Agent-supervised borrower PDFs accepted into intake" r)
]

abbrev pub advance_command :
    (String → WorkflowState → String)
    → String
    → WorkflowState
    → Option Payload
    → WorkflowRecord
    → PipelineAdvanceCommand
advance_command ids id target suggestion current = record {
  command_id = ids id target;
  expected_version = current.version;
  target_state = target;
  reason = completed_reason target;
  suggestion = suggestion;
}

abbrev pub advance_from :
    Stamp
    → (String → WorkflowState → String)
    → ActorClaims
    → String
    → WorkflowState
    → Option Payload
    → WorkflowRecord
    → Exec Repository WorkflowError WorkflowRecord
advance_from stamp ids actor id target suggestion current r =
    if leb (index target) (index current.state)
    then (ok current, r)
    else only_workflow (
        Service.advance_pipeline stamp id (advance_command ids id target suggestion current) actor
          r)

abbrev pub advance_found :
    Stamp
    → (String → WorkflowState → String)
    → ActorClaims
    → String
    → WorkflowState
    → Option Payload
    → Result WorkflowError WorkflowRecord × Repository
    → Result WorkflowError WorkflowRecord × Repository
advance_found stamp ids actor id target suggestion (err e, r) = (err e, r)
advance_found stamp ids actor id target suggestion (ok current, r) =
    advance_from stamp ids actor id target suggestion current r

-- `_advance`
unfoldable pub advance :
    Stamp
    → (String → WorkflowState → String)
    → ActorClaims
    → String
    → WorkflowState
    → String
    → Option Payload
    → Exec Repository WorkflowError WorkflowRecord
advance stamp ids actor id target command suggestion r =
    advance_found stamp ids actor id target suggestion (ensure_workflow stamp actor id command r)
