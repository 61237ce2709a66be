-- ===== src/Agents/Tests.antt =====
-- A worker's advance after a send-back.
use funder_match.Base.{
  List, Option, String, String-discrete, [], ap, arith, get, nat_eq, none, put, refl, some,
  string_eq, ℕ, ◌<◌, ◌∷◌, ◌≡◌,
}
use funder_match.Json.{Json, Payload}
use native.Mathlib.Decide.{ℕ_discrete}
use funder_match.Workflow.Schema.{
  WorkflowState, WorkflowState-discrete, ActorRole-discrete, HumanAction-discrete, intake,
  extracted, rule_gated, ai_suggested, awaiting_human, human_decided, precedent_written, ActorRole,
  human_reviewer, ActorClaims, HumanAction, PipelineAdvanceCommand, RestartStage, Stamp,
}
use funder_match.Workflow.Repository
use funder_match.Workflow.Repository.{Repository, CommandKey-discrete, empty}
use funder_match.Workflow.Transitions.{advance_transition, decide_transition, reopen_transition}
use funder_match.Workflow.Service
use funder_match.Workflow.Service.{
  Call, create_call, advance_call, decide_call, reopen_call, serve, perform,
}
use funder_match.Agents.Advance.{advance, index}
use funder_match.Agents.Replay.{advance_stuck}

abbrev stamp : Stamp
stamp = record {
  fresh_command_id = "fresh";
  audit_id = "audit";
  created_at = 100;
  now = 101;
  occurred_at = 102;
}

abbrev robot : ActorClaims
robot = record { actor_id = "svc"; display_name = "Pipeline"; roles = ActorRole.pipeline ∷ [] }

abbrev reviewer : ActorClaims
reviewer = record { actor_id = "r1"; display_name = "Reviewer"; roles = human_reviewer ∷ [] }

-- One id for each target, as `uuid5` gives.
abbrev sample_ids : String → WorkflowState → String
sample_ids id intake = "w0"
sample_ids id extracted = "w1"
sample_ids id rule_gated = "w2"
sample_ids id ai_suggested = "w3"
sample_ids id awaiting_human = "w4"
sample_ids id human_decided = "w5"
sample_ids id precedent_written = "w6"

abbrev step_command : ℕ → WorkflowState → Option Payload → PipelineAdvanceCommand
step_command version target payload = record {
  command_id = sample_ids "app" target;
  expected_version = version;
  target_state = target;
  reason = "done";
  suggestion = payload;
}

abbrev first_step : PipelineAdvanceCommand
first_step = step_command 0 extracted none

abbrev step : ℕ → WorkflowState → Option Payload → Call
step version target payload = advance_call "app" (step_command version target payload) robot

abbrev sent_back : Call
sent_back =
    decide_call "app"
      (record {
        command_id = "d";
        expected_version = 4;
        action = HumanAction.send_back;
        funder_id = none;
        reason = "again";
        conditions = [];
        overrides = [];
        restart_stage = some RestartStage.document_processing;
      })
      reviewer

abbrev reopened : Call
reopened =
    reopen_call "app"
      (record {
        command_id = "o";
        expected_version = 5;
        restart_stage = RestartStage.document_processing;
        reason = "again";
      })
      reviewer

abbrev earlier_calls : List (Stamp × Call)
earlier_calls = (stamp, create_call "app" robot (some "c0") "entered") ∷ []

abbrev later_calls : List (Stamp × Call)
later_calls =
    (stamp, step 1 rule_gated none)
    ∷ (stamp, step 2 ai_suggested (some (("k", Json.text "v") ∷ [])))
    ∷ (stamp, step 3 awaiting_human none)
    ∷ (stamp, sent_back)
    ∷ (stamp, reopened)
    ∷ []

-- What the calls compute to, with the definitions that they run.
abbrev first_run : Repository
unfolding serve perform Service.create Service.advance_pipeline Service.decide
    Service.reopen_after_send_back advance_transition decide_transition reopen_transition
    Repository.create Repository.transition get put String-discrete WorkflowState-discrete
    ActorRole-discrete HumanAction-discrete CommandKey-discrete ℕ_discrete
first_run = serve later_calls (perform stamp (step 0 extracted none) (serve earlier_calls empty)).1

-- The reopened workflow stands at intake, and the worker's advance to extracted leaves it there.
advance_stuck_example :
    (advance stamp sample_ids robot "app" extracted "x" none first_run).1 ≡ first_run
unfolding first_run index
advance_stuck_example =
    let behind : index intake < index extracted = omega arith in
    ap (λ z. z.1)
      (advance_stuck earlier_calls later_calls stamp stamp sample_ids robot robot "app" "x"
        extracted first_step none _ _ refl refl refl refl behind)
