-- ===== src/Workflow/Tests.antt =====
-- One application taken through the workflow, and the theorems at concrete inputs.
use funder_match.Base.{
  List, Option, String, String-discrete, [], ap, err, get, nat_eq, none, ok, put, refl, some,
  string_eq, ℕ, ◌++◌, ◌↔◌, ◌∷◌, ◌≡◌, ◌≢◌, ◌⊎◌,
}
use funder_match.Json.{Json, text}
use funder_match.Workflow.Schema.{
  WorkflowState, extracted, rule_gated, ai_suggested, awaiting_human, precedent_written,
  WorkflowState-discrete, ActorRole-discrete, HumanAction-discrete, ActorRole, human_reviewer,
  ActorClaims, HumanAction, PipelineAdvanceCommand, HumanDecisionCommand, PrecedentWriteReceipt,
  AuditEvent, WorkflowRecord, RestartStage, Stamp, WorkflowError, authorization,
  validate_conditions, funder_required,
}
use funder_match.Workflow.Repository
use funder_match.Workflow.Repository.{Repository, empty, CommandKey-discrete, log, find, audit}
use funder_match.Workflow.Service
use funder_match.Workflow.Transitions.{
  advance_transition, decide_transition, reopen_transition, written_transition,
}
use funder_match.Workflow.Service.{
  Call, create_call, advance_call, decide_call, written_call, reopen_call, serve, perform,
}
use native.Mathlib.Decide.{ℕ_discrete}
use funder_match.Workflow.Trail.{Entry}
use funder_match.Workflow.Soundness.{serve-Entry}
use funder_match.Workflow.Commands.{error_unchanged, one_winner}
use funder_match.Workflow.Memory.{exactly_once}
use funder_match.Workflow.Finality.{written_final}
use funder_match.Workflow.Decisions.{
  IsPermitted, validate_conditions-IsPermitted, advance-suggestion, empty_suggestion_lost,
}

abbrev stamp : Stamp
stamp = record {
  fresh_command_id = "fresh";
  audit_id = "audit";
  created_at = 100;
  now = 101;
  occurred_at = 102;
}

abbrev robot : ActorClaims
robot = record { actor_id = "svc"; display_name = "Pipeline"; roles = ActorRole.pipeline ∷ [] }

abbrev reviewer : ActorClaims
reviewer = record { actor_id = "r1"; display_name = "Reviewer"; roles = human_reviewer ∷ [] }

abbrev advance_to :
    String → ℕ → WorkflowState → Option (List (String × Json)) → PipelineAdvanceCommand
advance_to id v target payload = record {
  command_id = id;
  expected_version = v;
  target_state = target;
  reason = "next";
  suggestion = payload;
}

abbrev decision : HumanAction → Option String → HumanDecisionCommand
decision action funder = record {
  command_id = "c5";
  expected_version = 4;
  action = action;
  funder_id = funder;
  reason = "reviewed";
  conditions = [];
  overrides = [];
  restart_stage = none;
}

abbrev receipt : PrecedentWriteReceipt
receipt = record {
  case_id = "app";
  point_id = "p";
  collection = "precedents";
  payload_sha256 = "hash";
  written_at = 7;
}

abbrev prepared : List (Stamp × Call)
prepared =
    (stamp, create_call "app" robot (some "c0") "entered")
    ∷ (stamp, advance_call "app" (advance_to "c1" 0 extracted none) robot)
    ∷ (stamp, advance_call "app" (advance_to "c2" 1 rule_gated none) robot)
    ∷ (
      stamp,
      advance_call "app" (advance_to "c3" 2 ai_suggested (some (("k", text "v") ∷ []))) robot,
    )
    ∷ (stamp, advance_call "app" (advance_to "c4" 3 awaiting_human none) robot)
    ∷ []

abbrev approved : List (Stamp × Call)
approved =
    prepared
    ++ (stamp, decide_call "app" (decision HumanAction.approve (some "f1")) reviewer)
      ∷ (
        stamp,
        written_call "app" (record { command_id = "c6"; expected_version = 5; reason = "write" })
            receipt robot,
      )
      ∷ []

abbrev returned : List (Stamp × Call)
returned =
    prepared
    ++ (stamp, decide_call "app" (decision HumanAction.send_back none) reviewer)
      ∷ (
        stamp,
        reopen_call "app"
            (record {
              command_id = "c6";
              expected_version = 5;
              restart_stage = RestartStage.suggestion;
              reason = "again";
            })
            reviewer,
      )
      ∷ []

abbrev state_of : String → Repository → Option (WorkflowState × ℕ)
state_of id r = elim (get id r.workflows) [ none ↦ none | some w ↦ some (w.state, w.version) ]

-- The definitions that a run of the service computes with.
abbrev final : List (Stamp × Call) → Repository
unfolding serve perform Service.create Service.advance_pipeline Service.decide
    Service.mark_precedent_written Service.reopen_after_send_back advance_transition
    decide_transition written_transition reopen_transition Repository.create Repository.transition
    get put String-discrete WorkflowState-discrete ActorRole-discrete HumanAction-discrete
    CommandKey-discrete ℕ_discrete
final calls = serve calls empty

approved_ends : state_of "app" (final approved) ≡ some (precedent_written, 6)
unfolding final
approved_ends = refl

returned_ends : state_of "app" (final returned) ≡ some (rule_gated, 6)
unfolding final
returned_ends = refl

abbrev written_app : WorkflowRecord
written_app = record {
  application_id = "app";
  state = precedent_written;
  version = 6;
  suggestion = some (("k", text "v") ∷ []);
  decision = some (record {
    action = HumanAction.approve;
    funder_id = some "f1";
    reason = "reviewed";
    conditions = [];
    overrides = [];
    actor_id = "r1";
    actor_display_name = "Reviewer";
    decided_at = 101;
  });
  precedent_receipt = some receipt;
  created_at = 100;
  updated_at = 101;
}

serve-Entry_example : Entry "app" written_app (log "app" (serve approved empty))
unfolding final
serve-Entry_example = serve-Entry approved "app" written_app refl

-- A reviewer may not advance the pipeline.
abbrev forbidden : Call
forbidden = advance_call "app" (advance_to "c1" 0 extracted none) reviewer

error_unchanged_example : (perform stamp forbidden (serve prepared empty)).1 ≡ serve prepared empty
unfolding final
error_unchanged_example = error_unchanged stamp forbidden (serve prepared empty) authorization refl

abbrev first_decision : Call
first_decision = decide_call "app" (decision HumanAction.approve (some "f1")) reviewer

abbrev second_decision : Call
second_decision =
    decide_call "app" (record (decision HumanAction.reject (some "f1")) { command_id = "c9" })
      reviewer

one_winner_example :
    let s = (perform stamp first_decision (serve prepared empty)).1 in
    (e : WorkflowError) × (perform stamp second_decision s ≡ (err e, s))
unfolding final
one_winner_example =
    one_winner stamp stamp first_decision second_decision _ _ (serve prepared empty) _ refl refl
      refl refl refl refl refl

exactly_once_example :
    let s = serve approved (perform stamp first_decision (serve prepared empty)).1 in
    (perform stamp first_decision s).1 ≡ s
unfolding final
exactly_once_example =
    ap (λ p. p.1) (exactly_once prepared approved stamp stamp first_decision _ _ refl refl)

written_final_example :
    get "app" (serve returned (serve approved empty)).workflows ≡ some written_app
unfolding final
written_final_example = written_final returned "app" (serve approved empty) written_app refl refl

validate_conditions-IsPermitted_example :
    (validate_conditions (decision HumanAction.approve none)
      ≡ ok (decision HumanAction.approve none))
    ↔ IsPermitted (decision HumanAction.approve none)
validate_conditions-IsPermitted_example =
    validate_conditions-IsPermitted (decision HumanAction.approve none)

missing_funder : validate_conditions (decision HumanAction.approve none) ≡ err funder_required
unfolding validate_conditions HumanAction-discrete
missing_funder = refl

abbrev gated_app : WorkflowRecord
gated_app = record written_app {
  state = rule_gated;
  version = 2;
  suggestion = none;
  decision = none;
  precedent_receipt = none;
}

abbrev ai_suggested_app : WorkflowRecord
ai_suggested_app = record gated_app {
  state = ai_suggested;
  version = 3;
  suggestion = some (("k", text "v") ∷ []);
}

abbrev suggested : PipelineAdvanceCommand
suggested = advance_to "c3" 2 ai_suggested (some (("k", text "v") ∷ []))

advance-suggestion_example :
    ((ai_suggested_app.suggestion ≡ gated_app.suggestion)
      × (ai_suggested_app.state ≡ ai_suggested → suggested.suggestion ≡ some []))
    ⊎ ((ai_suggested_app.state ≡ ai_suggested)
        × (suggested.suggestion ≢ none)
        × (suggested.suggestion ≢ some [])
        × (ai_suggested_app.suggestion ≡ suggested.suggestion))
unfolding final
advance-suggestion_example =
    advance-suggestion stamp suggested robot gated_app ai_suggested_app 3 _ refl

empty_suggestion_lost_example :
    (w' : WorkflowRecord) × (e : AuditEvent) × (advance_transition stamp
        (advance_to "c3" 2 ai_suggested (some []))
        robot
        gated_app
        3
      ≡ ok (w', e))
    × (w'.state ≡ ai_suggested)
    × (w'.suggestion ≡ none)
empty_suggestion_lost_example =
    empty_suggestion_lost stamp (advance_to "c3" 2 ai_suggested (some [])) robot gated_app 3 refl
      refl refl refl refl
