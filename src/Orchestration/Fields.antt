-- ===== src/Orchestration/Fields.antt =====
-- The validator of a checkpoint state, src/fundermatch/orchestration/schema.py: the bounds of its fields
-- and of the references in it, and `validate_compact_state`. That a command id is a UUID is left out.
use funder_match.Base.{
  Bool, List, Option, Result, all, any, check_if, contains, leb, length, ltb, nat_eq, none, not, ok,
  some, string_eq, true, within, ℕ, ◌&&◌, ◌*◌,
}
use funder_match.Number.{whole, below}
use funder_match.Text.{
  is_alphanumeric, is_name_part, all_codes, starts, is_hash, is_digest, is_short,
}
use funder_match.Orchestration.Schema.{
  InputReference, DocumentReference, BoundingBox, EvidenceReference, EligibilityReference,
  GuardrailResult, HumanReviewCheckpoint, WriteReceipt, WorkerReceipt, WorkerError,
  ApplicationMemoryState, GraphError, invalid_fields, duplicate_completed, duplicate_pending,
  not_disjoint, duplicate_commands, no_command, too_large, is_distinct, command_workers, worker_eq,
}

abbrev at_most_long {ℓ} : {A : Type ℓ} → ℕ → List A → Bool
at_most_long n xs = leb (length xs) n

abbrev holds_of {ℓ} : {A : Type ℓ} → (A → Bool) → Option A → Bool
holds_of p none = true
holds_of p (some a) = p a

unfoldable pub valid_input : InputReference → Bool
valid_input r = within 1 80 r.reference_type && within 1 500 r.reference_id && is_digest r.sha256

unfoldable pub valid_document : DocumentReference → Bool
valid_document d =
    within 1 500 d.document_id && is_hash d.sha256 && leb 1 d.page_count && is_digest d.config_hash

-- `BoundingBox.ordered`
abbrev ordered : BoundingBox → Bool
ordered b = not (below b.x1 b.x0) && not (below b.y1 b.y0)

unfoldable pub valid_evidence : EvidenceReference → Bool
valid_evidence e =
    within 1 500 e.evidence_id
    && within 1 120 e.metric
    && within 1 500 e.value
    && is_short 80 e.unit
    && is_short 120 e.period
    && within 1 500 e.document_id
    && leb 1 e.page_number
    && ordered e.bbox

abbrev valid_eligibility : EligibilityReference → Bool
valid_eligibility e = within 1 200 e.funder_id && at_most_long 50 e.failed_criteria

abbrev valid_guardrail : GuardrailResult → Bool
valid_guardrail r = within 1 120 r.guardrail && is_short 120 r.code

abbrev valid_review : HumanReviewCheckpoint → Bool
valid_review h = at_most_long 10 h.allowed_actions

unfoldable pub valid_write : WriteReceipt → Bool
valid_write r = within 1 80 r.store && within 1 500 r.record_id && is_hash r.payload_sha256

unfoldable pub valid_receipt : WorkerReceipt → Bool
valid_receipt r =
    is_hash r.output_sha256
    && leb 1 r.attempt
    && at_most_long 20 r.tool_calls
    && not (below r.latency_ms (whole 0))
    && is_digest r.policy_hash
    && is_digest r.signature

unfoldable pub valid_error : WorkerError → Bool
valid_error e = within 1 120 e.code && within 1 500 e.message

-- the fields of `ApplicationMemoryState`
unfoldable pub valid_state : ApplicationMemoryState → Bool
unfolding valid_input valid_document valid_evidence valid_write valid_receipt valid_error
valid_state s =
    within 3 200 s.application_id
    && starts is_alphanumeric s.application_id
    && all_codes is_name_part s.application_id
    && is_short 200 s.job_id
    && at_most_long 20 s.completed_workers
    && at_most_long 20 s.pending_workers
    && at_most_long 100 s.input_references
    && all valid_input s.input_references
    && at_most_long 100 s.documents
    && all valid_document s.documents
    && at_most_long 200 s.evidence
    && all valid_evidence s.evidence
    && at_most_long 500 s.eligibility
    && all valid_eligibility s.eligibility
    && at_most_long 100 s.guardrails
    && all valid_guardrail s.guardrails
    && holds_of valid_review s.human_review
    && is_short 80 s.workflow_state
    && is_digest s.config_hash
    && is_short 200 s.model_revision
    && at_most_long 20 s.commands
    && at_most_long 20 s.worker_receipts
    && all valid_receipt s.worker_receipts
    && at_most_long 100 s.write_receipts
    && all valid_write s.write_receipts
    && holds_of valid_error s.last_error

-- `MAX_CHECKPOINT_BYTES`
abbrev max_checkpoint_bytes : ℕ
max_checkpoint_bytes = 256 * 1024

-- `validate_compact_state`; `size` is the length of the state's JSON in bytes. Attempts are
-- natural numbers, so the test for a negative one is left out.
unfoldable pub validate_compact_state :
    (ApplicationMemoryState → ℕ) → ApplicationMemoryState → Result GraphError ApplicationMemoryState
validate_compact_state size s = check_if (not (valid_state s)) invalid_fields (
    check_if (not (is_distinct s.completed_workers)) duplicate_completed (
      check_if (not (is_distinct s.pending_workers)) duplicate_pending (
        check_if (any (λ w. contains w s.pending_workers) s.completed_workers) not_disjoint (
          check_if (not (is_distinct (command_workers s.commands))) duplicate_commands (
            check_if (not (contains s.current_node (command_workers s.commands))) no_command
              (check_if (ltb max_checkpoint_bytes (size s)) too_large (ok s)))))))
