-- ===== src/Orchestration/Schema.antt =====
-- The compact state of the application graph, src/fundermatch/orchestration/schema.py.
use funder_match.Base.{
  Bool, Dict, Eq, List, Option, Result, String, [], contains, err, false, if◌then◌else◌, nat_eq,
  none, not, ok, some, string_eq, true, ℕ, ◌&&◌, ◌==◌, ◌∷◌,
}
use funder_match.Number.{Decimal}

pub data GraphStatus : Type 0 where
  running failed_retryable needs_attention waiting_for_review completed cancelled failed_terminal :
      GraphStatus

unfoldable pub GraphStatus-discrete : Discrete GraphStatus
GraphStatus-discrete = hlevel

instance abbrev pub status_eq : Eq GraphStatus
status_eq = record { dec = GraphStatus-discrete }

-- `GraphStatus.terminal`
abbrev pub terminal : GraphStatus → Bool
terminal completed = true
terminal cancelled = true
terminal failed_terminal = true
terminal _ = false

pub data WorkerName : Type 0 where
  document_processing financial_analysis eligibility precedent_retrieval suggestion guardrails
        human_review :
      WorkerName

unfoldable pub WorkerName-discrete : Discrete WorkerName
WorkerName-discrete = hlevel

instance abbrev pub worker_eq : Eq WorkerName
worker_eq = record { dec = WorkerName-discrete }

-- `worker.value`
unfoldable pub value : WorkerName → String
value document_processing = "document_processing"
value financial_analysis = "financial_analysis"
value eligibility = "eligibility"
value precedent_retrieval = "precedent_retrieval"
value suggestion = "suggestion"
value guardrails = "guardrails"
value human_review = "human_review"

-- `DEFAULT_WORKER_ORDER`
abbrev pub default_worker_order : List WorkerName
default_worker_order =
    document_processing ∷ financial_analysis ∷ eligibility ∷ precedent_retrieval ∷ suggestion
    ∷ guardrails ∷ human_review ∷ []

pub record InputReference : Type 0 where
  pub reference_type : String
  pub reference_id : String
  pub sha256 : Option String

pub record DocumentReference : Type 0 where
  pub document_id : String
  pub sha256 : String
  pub page_count : ℕ
  pub chunk_count : ℕ
  pub config_hash : Option String

pub record BoundingBox : Type 0 where
  pub x0 : Decimal
  pub y0 : Decimal
  pub x1 : Decimal
  pub y1 : Decimal

pub record EvidenceReference : Type 0 where
  pub evidence_id : String
  pub metric : String
  pub value : String
  pub unit : Option String
  pub period : Option String
  pub document_id : String
  pub page_number : ℕ
  pub bbox : BoundingBox

pub record EligibilityReference : Type 0 where
  pub funder_id : String
  pub eligible : Bool
  pub failed_criteria : List String

pub record GuardrailResult : Type 0 where
  pub guardrail : String
  pub passed : Bool
  pub code : Option String

pub record HumanReviewCheckpoint : Type 0 where
  pub expected_workflow_version : ℕ
  pub allowed_actions : List String

pub record WorkerCommand : Type 0 where
  pub worker : WorkerName
  pub command_id : String

pub record WriteReceipt : Type 0 where
  pub store : String
  pub record_id : String
  pub payload_sha256 : String

pub record WorkerReceipt : Type 0 where
  pub worker : WorkerName
  pub command_id : String
  pub output_sha256 : String
  pub attempt : ℕ
  pub tool_calls : List String
  pub latency_ms : Decimal
  pub policy_hash : Option String
  pub signature : Option String
  pub completed_at : ℕ

pub record WorkerError : Type 0 where
  pub worker : WorkerName
  pub code : String
  pub message : String
  pub retryable : Bool
  pub occurred_at : ℕ

pub record WorkerResult : Type 0 where
  pub worker : WorkerName
  pub output_sha256 : String
  pub documents : Option (List DocumentReference)
  pub evidence : Option (List EvidenceReference)
  pub eligibility : Option (List EligibilityReference)
  pub guardrails : Option (List GuardrailResult)
  pub human_review : Option HumanReviewCheckpoint
  pub workflow_state : Option String
  pub workflow_version : Option ℕ
  pub config_hash : Option String
  pub model_revision : Option String
  pub write_receipts : List WriteReceipt

pub record ApplicationMemoryState : Type 0 where
  pub application_id : String
  pub job_id : Option String
  pub status : GraphStatus
  pub current_node : WorkerName
  pub completed_workers : List WorkerName
  pub pending_workers : List WorkerName
  pub attempts : Dict WorkerName ℕ
  pub input_references : List InputReference
  pub documents : List DocumentReference
  pub evidence : List EvidenceReference
  pub eligibility : List EligibilityReference
  pub guardrails : List GuardrailResult
  pub human_review : Option HumanReviewCheckpoint
  pub workflow_state : Option String
  pub workflow_version : Option ℕ
  pub config_hash : Option String
  pub model_revision : Option String
  pub commands : List WorkerCommand
  pub worker_receipts : List WorkerReceipt
  pub write_receipts : List WriteReceipt
  pub last_error : Option WorkerError

pub data GraphError : Type 0 where
  no_worker not_found cannot_resume not_terminal skips_guardrails unknown_worker cannot_send_back
        isolation boundary invalid_fields duplicate_completed duplicate_pending not_disjoint
        duplicate_commands no_command too_large recursion_limit lifecycle_missing :
      GraphError

unfoldable pub command_for : WorkerName → List WorkerCommand → Option String
command_for w [] = none
command_for w (c ∷ cs) =
    let rest = command_for w cs in if c.worker == w then some c.command_id else rest

abbrev pub command_workers : List WorkerCommand → List WorkerName
command_workers [] = []
command_workers (c ∷ cs) = c.worker ∷ command_workers cs

abbrev pub is_distinct : List WorkerName → Bool
is_distinct [] = true
is_distinct (w ∷ ws) = not (contains w ws) && is_distinct ws

abbrev pub make_commands : (WorkerName → String) → List WorkerName → List WorkerCommand
make_commands id [] = []
make_commands id (w ∷ ws) = record { worker = w; command_id = id w } ∷ make_commands id ws

-- `ApplicationMemoryState.initial`; `command_id` is the `uuid5` of the application and the worker.
-- The constructed state is validated by the caller.
unfoldable pub initial :
    (String → WorkerName → String)
    → String
    → List WorkerName
    → Option String
    → List InputReference
    → Result GraphError ApplicationMemoryState
initial command_id application_id [] job_id inputs = err no_worker
initial command_id application_id (w ∷ ws) job_id inputs = ok (record {
  application_id = application_id;
  job_id = job_id;
  status = running;
  current_node = w;
  completed_workers = [];
  pending_workers = w ∷ ws;
  attempts = [];
  input_references = inputs;
  documents = [];
  evidence = [];
  eligibility = [];
  guardrails = [];
  human_review = none;
  workflow_state = none;
  workflow_version = none;
  config_hash = none;
  model_revision = none;
  commands = make_commands (command_id application_id) (w ∷ ws);
  worker_receipts = [];
  write_receipts = [];
  last_error = none;
})
