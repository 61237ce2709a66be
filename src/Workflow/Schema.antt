-- ===== src/Workflow/Schema.antt =====
-- The typed boundaries of the workflow, src/fundermatch/workflow/schema.py and errors.py.
-- Times are numbers, UUIDs texts; the defaults that read the clock or draw a UUID are in `Stamp`.
use funder_match.Base.{
  ℕ, String, Bool, true, false, not, ◌&&◌, Option, none, some, List, [], ◌∷◌, ◌==◌, Eq, Result, ok,
  check_if,
}
use funder_match.Json.{Payload}

pub data WorkflowState : Type 0 where
  intake extracted rule_gated ai_suggested awaiting_human human_decided precedent_written :
      WorkflowState

unfoldable pub WorkflowState-discrete : Discrete WorkflowState
WorkflowState-discrete = hlevel

instance abbrev pub state_eq : Eq WorkflowState
state_eq = record { dec = WorkflowState-discrete }

pub data ActorRole : Type 0 where
  pipeline human_reviewer : ActorRole

unfoldable pub ActorRole-discrete : Discrete ActorRole
ActorRole-discrete = hlevel

instance abbrev pub role_eq : Eq ActorRole
role_eq = record { dec = ActorRole-discrete }

pub data HumanAction : Type 0 where
  approve reject approve_with_conditions send_back : HumanAction

unfoldable pub HumanAction-discrete : Discrete HumanAction
HumanAction-discrete = hlevel

instance abbrev pub action_eq : Eq HumanAction
action_eq = record { dec = HumanAction-discrete }

pub data RestartStage : Type 0 where
  supervisor document_processing financial_analysis eligibility precedent_retrieval suggestion
        guardrails :
      RestartStage

-- `roles` is a set: only membership and the sorted tuple are read.
pub record ActorClaims : Type 0 where
  pub actor_id : String
  pub display_name : String
  pub roles : List ActorRole

-- precedent/schema.py
pub record DecisionOverride : Type 0 where
  pub criterion : String
  pub original_result : String
  pub justification : String

pub record PipelineAdvanceCommand : Type 0 where
  pub command_id : String
  pub expected_version : ℕ
  pub target_state : WorkflowState
  pub reason : String
  pub suggestion : Option Payload

pub record HumanDecisionCommand : Type 0 where
  pub command_id : String
  pub expected_version : ℕ
  pub action : HumanAction
  pub funder_id : Option String
  pub reason : String
  pub conditions : List String
  pub overrides : List DecisionOverride
  pub restart_stage : Option RestartStage

pub record PipelineReopenCommand : Type 0 where
  pub command_id : String
  pub expected_version : ℕ
  pub restart_stage : RestartStage
  pub reason : String

pub record PrecedentWriteCommand : Type 0 where
  pub command_id : String
  pub expected_version : ℕ
  pub reason : String

pub record HumanDecisionRecord : Type 0 where
  pub action : HumanAction
  pub funder_id : Option String
  pub reason : String
  pub conditions : List String
  pub overrides : List DecisionOverride
  pub actor_id : String
  pub actor_display_name : String
  pub decided_at : ℕ

pub record PrecedentWriteReceipt : Type 0 where
  pub case_id : String
  pub point_id : String
  pub collection : String
  pub payload_sha256 : String
  pub written_at : ℕ

pub record WorkflowRecord : Type 0 where
  pub application_id : String
  pub state : WorkflowState
  pub version : ℕ
  pub suggestion : Option Payload
  pub decision : Option HumanDecisionRecord
  pub precedent_receipt : Option PrecedentWriteReceipt
  pub created_at : ℕ
  pub updated_at : ℕ

-- The `changes` dictionaries that the service writes, by the operation that writes them.
pub data Changes : Type 0 where
  created : WorkflowState → Changes
  advanced : WorkflowState → ℕ → Changes
  decided : WorkflowState → ℕ → HumanDecisionRecord → Changes
  written : WorkflowState → ℕ → PrecedentWriteReceipt → Changes
  reopened : WorkflowState → ℕ → RestartStage → Changes

-- The `action` of an event; a human decision's is its own action.
pub data AuditAction : Type 0 where
  create pipeline_advance precedent_written send_back_reopen : AuditAction
  human : HumanAction → AuditAction

pub record AuditEvent : Type 0 where
  pub audit_id : String
  pub command_id : String
  pub application_id : String
  pub sequence : ℕ
  pub actor_id : String
  pub actor_display_name : String
  pub actor_roles : List ActorRole
  pub from_state : Option WorkflowState
  pub to_state : WorkflowState
  pub action : AuditAction
  pub reason : String
  pub changes : Changes
  pub occurred_at : ℕ

pub record TransitionResult : Type 0 where
  pub workflow : WorkflowRecord
  pub audit_event : AuditEvent

pub data WorkflowError : Type 0 where
  not_found conflict invalid_transition authorization key_error : WorkflowError

-- What one call reads from the clock and the UUID generator.
pub record Stamp : Type 0 where
  pub fresh_command_id : String
  pub audit_id : String
  pub created_at : ℕ
  pub now : ℕ
  pub occurred_at : ℕ

pub data ValidationError : Type 0 where
  conditions_required conditions_forbidden funder_forbidden funder_required stage_forbidden
        field_bounds :
      ValidationError

abbrev is_some {ℓ} : {A : Type ℓ} → Option A → Bool
is_some none = false
is_some (some _) = true

abbrev is_empty {ℓ} : {A : Type ℓ} → List A → Bool
is_empty [] = true
is_empty (_ ∷ _) = false

-- `HumanDecisionCommand.validate_conditions`, in the order of its tests
unfoldable pub validate_conditions :
    HumanDecisionCommand → Result ValidationError HumanDecisionCommand
validate_conditions c =
    check_if (c.action == approve_with_conditions && is_empty c.conditions) conditions_required (
      check_if (not (c.action == approve_with_conditions) && not (is_empty c.conditions))
        conditions_forbidden
        (check_if (c.action == send_back && is_some c.funder_id) funder_forbidden (
          check_if (not (c.action == send_back) && not (is_some c.funder_id)) funder_required (
            check_if (not (c.action == send_back) && is_some c.restart_stage) stage_forbidden
              (ok c)))))
