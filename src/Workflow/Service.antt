-- ===== src/Workflow/Service.antt =====
-- `WorkflowService`, src/fundermatch/workflow/service.py: its commands, with their role checks.
use funder_match.Base.{
  Exec, List, Option, String, [], contains, nat_eq, none, not, raise_if, some, string_eq, ◌>>◌, ◌∷◌,
}
use funder_match.Workflow.Schema.{
  intake, state_eq, ActorRole, human_reviewer, role_eq, action_eq, ActorClaims,
  PipelineAdvanceCommand, HumanDecisionCommand, PipelineReopenCommand, PrecedentWriteCommand,
  PrecedentWriteReceipt, WorkflowRecord, AuditAction, Changes, TransitionResult, WorkflowError,
  invalid_transition, authorization, Stamp,
}
use funder_match.Workflow.Repository
use funder_match.Workflow.Repository.{Repository, Transition}
use funder_match.Workflow.Transitions.{
  sorted_roles, make_event, advance_transition, decide_transition, written_transition,
  is_supervisor, reopen_transition,
}

abbrev pub require_role : ActorClaims → ActorRole → Exec Repository WorkflowError (Unit {0})
require_role actor role = raise_if (not (contains role actor.roles)) authorization

abbrev or_fresh : Option String → String → String
or_fresh (some c) fresh = c
or_fresh none fresh = fresh

abbrev pub new_record : Stamp → String → WorkflowRecord
new_record stamp application_id = record {
  application_id = application_id;
  state = intake;
  version = 0;
  suggestion = none;
  decision = none;
  precedent_receipt = none;
  created_at = stamp.created_at;
  updated_at = stamp.now;
}

unfoldable pub create :
    Stamp
    → String
    → ActorClaims
    → Option String
    → String
    → Exec Repository WorkflowError TransitionResult
unfolding make_event sorted_roles
create stamp application_id actor command reason = do
  require_role actor ActorRole.pipeline
  let workflow = new_record stamp application_id
  Repository.create workflow (
      make_event stamp (or_fresh command stamp.fresh_command_id) workflow 1 actor none intake
        AuditAction.create reason (Changes.created intake))

unfoldable pub advance_pipeline :
    Stamp
    → String
    → PipelineAdvanceCommand
    → ActorClaims
    → Exec Repository WorkflowError TransitionResult
advance_pipeline stamp application_id command actor = do
  require_role actor ActorRole.pipeline
  Repository.transition application_id command.command_id (advance_transition stamp command actor)

unfoldable pub decide :
    Stamp
    → String
    → HumanDecisionCommand
    → ActorClaims
    → Exec Repository WorkflowError TransitionResult
decide stamp application_id command actor = do
  require_role actor human_reviewer
  Repository.transition application_id command.command_id (decide_transition stamp command actor)

unfoldable pub mark_precedent_written :
    Stamp
    → String
    → PrecedentWriteCommand
    → PrecedentWriteReceipt
    → ActorClaims
    → Exec Repository WorkflowError TransitionResult
mark_precedent_written stamp application_id command receipt actor = do
  require_role actor ActorRole.pipeline
  Repository.transition application_id command.command_id
      (written_transition stamp command receipt actor)

unfoldable pub reopen_after_send_back :
    Stamp
    → String
    → PipelineReopenCommand
    → ActorClaims
    → Exec Repository WorkflowError TransitionResult
reopen_after_send_back stamp application_id command actor = do
  require_role actor human_reviewer
  raise_if (is_supervisor command.restart_stage) invalid_transition
  Repository.transition application_id command.command_id (reopen_transition stamp command actor)

-- One call of the service.
pub data Call : Type 0 where
  create_call : String → ActorClaims → Option String → String → Call
  advance_call : String → PipelineAdvanceCommand → ActorClaims → Call
  decide_call : String → HumanDecisionCommand → ActorClaims → Call
  written_call : String → PrecedentWriteCommand → PrecedentWriteReceipt → ActorClaims → Call
  reopen_call : String → PipelineReopenCommand → ActorClaims → Call

unfoldable pub perform : Stamp → Call → Exec Repository WorkflowError TransitionResult
perform t (create_call id actor command reason) = create t id actor command reason
perform t (advance_call id command actor) = advance_pipeline t id command actor
perform t (decide_call id command actor) = decide t id command actor
perform t (written_call id command receipt actor) =
    mark_precedent_written t id command receipt actor
perform t (reopen_call id command actor) = reopen_after_send_back t id command actor

-- The service under any sequence of calls; a call that raises ends only itself.
unfoldable pub serve : List (Stamp × Call) → Repository → Repository
serve [] r = r
serve ((t, c) ∷ rest) r = serve rest (perform t c r).1
