-- ===== src/Precedent/Tests.antt =====
-- A decision for an excluded funder, written as a precedent, and written again.
use funder_match.Base.{
  Result, String-discrete, [], arith, concat, get, inr, nat_eq, none, ok, put, refl, some,
  string_eq, ◌∷◌, ◌≡◌, ◌≢◌,
}
use native.Mathlib.Decide.{ℕ_discrete}
use funder_match.Number.{at_most}
use funder_match.Rules.Schema.{MetricName-discrete, same_value, metrics_into}
use funder_match.Suggest.Schema.{approved, DecidedLoanCase}
use funder_match.Workflow.Schema.{
  WorkflowState-discrete, ActorRole-discrete, HumanAction-discrete, human_decided,
  precedent_written, ActorRole, HumanAction, send_back, AuditAction, Changes, PrecedentWriteReceipt,
  PrecedentWriteCommand, WorkflowRecord, TransitionResult,
}
use funder_match.Workflow.Repository
use funder_match.Workflow.Repository.{Repository, CommandKey-discrete, key_eq, empty}
use funder_match.Workflow.Transitions.{advance_transition, decide_transition, written_transition}
use funder_match.Workflow.Service
use funder_match.Workflow.Service.{Call, create_call, advance_call, decide_call, serve, perform}
use funder_match.Precedent.Case.{
  validate_case, valid_fields, valid_decision, validate_decision, validate_internal_consistency,
  expected_fact,
}
use funder_match.Precedent.Store.{write_one, seed, ensure_collection, points_of, point_id, read_one}
use funder_match.Precedent.Writeback.{
  Writer, Memory, WriteError, WritebackResult, case_of, build_case, outcome_of,
  validate_selected_funder, excluded_into, criterion_value, payload_hash, text_take,
}
use funder_match.Suggest.Assembler.{loan_type_value}
use funder_match.Precedent.Service.{prepare, write, receipt_for}
use funder_match.Precedent.Outbox.{outbox_begin, outbox_complete}
use funder_match.Precedent.Justified.{IsSelectable, IsDecided}
use funder_match.Precedent.Repeat.{
  IsJustified, write-IsJustified, IsEquality, write_repeat, IsReceipted,
}
use funder_match.Precedent.Completion.{write_completes}
use funder_match.Precedent.Sample.{
  stamp, robot, shown_payload, calls, mill, failed_dscr, shown_bundle, Points, writer_for,
  made_decision,
}

-- the case of the decision above
abbrev made_case : DecidedLoanCase
unfolding case_of concat text_take loan_type_value MetricName-discrete
made_case = case_of (writer_for (λ p. none)) mill made_decision approved "f2"

abbrev sample_writer : Writer Points
unfolding made_case
sample_writer = writer_for (λ p. some made_case)

abbrev decided_repository : Repository
unfolding serve perform Service.create Service.advance_pipeline Service.decide advance_transition
    decide_transition Repository.create Repository.transition get put String-discrete
    WorkflowState-discrete ActorRole-discrete HumanAction-discrete CommandKey-discrete ℕ_discrete
decided_repository = serve calls empty

abbrev sample_memory : Memory Points
unfolding decided_repository
sample_memory = record { repository = decided_repository; points = []; outbox = some [] }

abbrev write_command : PrecedentWriteCommand
write_command = record { command_id = "c6"; expected_version = 5; reason = "keep" }

abbrev first_write : Result WriteError WritebackResult × Memory Points
unfolding sample_memory sample_writer write prepare validate_selected_funder excluded_into
    criterion_value build_case outcome_of validate_case valid_fields valid_decision
    validate_decision validate_internal_consistency expected_fact same_value metrics_into
    payload_hash outbox_begin outbox_complete write_one seed ensure_collection points_of point_id
    read_one concat receipt_for written_transition Service.mark_precedent_written
    Repository.transition get put at_most String-discrete MetricName-discrete WorkflowState-discrete
    ActorRole-discrete HumanAction-discrete CommandKey-discrete ℕ_discrete
first_write = write sample_writer stamp 7 "app-1" write_command robot sample_memory

abbrev decided_record : WorkflowRecord
decided_record = record {
  application_id = "app-1";
  state = human_decided;
  version = 5;
  suggestion = some shown_payload;
  decision = some made_decision;
  precedent_receipt = none;
  created_at = 100;
  updated_at = 101;
}

abbrev sample_receipt : PrecedentWriteReceipt
sample_receipt = record {
  case_id = "app-1";
  point_id = "fundermatch:app-1";
  collection = "precedents";
  payload_sha256 = "0123456789abcdef";
  written_at = 7;
}

abbrev sample_result : WritebackResult
unfolding made_case
sample_result = record {
  transition = record {
    workflow = record decided_record {
      state = precedent_written;
      version = 6;
      precedent_receipt = some sample_receipt;
    };
    audit_event = record {
      audit_id = "audit";
      command_id = "c6";
      application_id = "app-1";
      sequence = 7;
      actor_id = "svc";
      actor_display_name = "Pipeline";
      actor_roles = ActorRole.pipeline ∷ [];
      from_state = some human_decided;
      to_state = precedent_written;
      action = AuditAction.precedent_written;
      reason = "keep";
      changes = Changes.written precedent_written 6 sample_receipt;
      occurred_at = 102;
    };
  };
  precedent = made_case;
}

open_state : human_decided ≢ precedent_written
open_state h = cc

writes : first_write.0 ≡ ok sample_result
unfolding first_write sample_result made_case
writes = refl

finds : get "app-1" sample_memory.repository.workflows ≡ some decided_record
unfolding sample_memory decided_repository get String-discrete
finds = refl

write-IsJustified_example :
    IsJustified sample_writer "app-1" write_command decided_record sample_result first_write.1
unfolding first_write
write-IsJustified_example =
    write-IsJustified sample_writer stamp 7 "app-1" write_command robot sample_memory decided_record
      sample_result finds open_state writes

ids_agree : IsEquality sample_writer.store
unfolding sample_writer
ids_agree a b h = ground arith

fresh_command :
    get (record { application = "app-1"; command = "c6" }) sample_memory.repository.commands ≡ none
unfolding sample_memory decided_repository get CommandKey-discrete String-discrete
fresh_command = refl

write_repeat_example :
    write sample_writer stamp 8 "app-1" write_command robot first_write.1
    ≡ (ok sample_result, first_write.1)
unfolding first_write decided_repository serve
write_repeat_example =
    write_repeat sample_writer calls [] stamp stamp 7 8 "app-1" write_command robot sample_memory
      decided_record sample_result ids_agree refl finds open_state fresh_command writes

funder-IsSelectable : IsSelectable shown_bundle "f2" made_decision.overrides
unfolding excluded_into criterion_value get put String-discrete
funder-IsSelectable = record {
  allowed = inr (
    record { funder_id = "f2"; display_name = "Strict"; failed_checks = failed_dscr ∷ [] },
    (refl, (refl, tt)),
  );
}

lending : HumanAction.approve ≢ send_back
lending h = cc

sample-IsDecided : IsDecided sample_writer "app-1" decided_record made_case
unfolding decided_repository sample_memory made_case serve perform Service.create
    Service.advance_pipeline Service.decide advance_transition decide_transition Repository.create
    case_of text_take loan_type_value sample_writer prepare validate_selected_funder excluded_into
    criterion_value build_case outcome_of validate_case valid_fields valid_decision
    validate_decision validate_internal_consistency expected_fact same_value metrics_into
    payload_hash outbox_begin outbox_complete write_one seed ensure_collection points_of point_id
    read_one concat receipt_for written_transition Service.mark_precedent_written
    Repository.transition get put at_most String-discrete MetricName-discrete WorkflowState-discrete
    ActorRole-discrete HumanAction-discrete CommandKey-discrete ℕ_discrete
sample-IsDecided = record {
  complete = refl;
  decision = made_decision;
  made = refl;
  lending = lending;
  bundle = shown_bundle;
  payload = shown_payload;
  shown = refl;
  read = refl;
  own = refl;
  funder = "f2";
  chosen = refl;
  selectable = funder-IsSelectable;
  built = refl;
}

stores : (write_one sample_writer.store made_case sample_memory.points).0 ≡ ok made_case
unfolding decided_repository sample_memory made_case serve perform Service.create
    Service.advance_pipeline Service.decide advance_transition decide_transition Repository.create
    case_of text_take loan_type_value sample_writer prepare validate_selected_funder excluded_into
    criterion_value build_case outcome_of validate_case valid_fields valid_decision
    validate_decision validate_internal_consistency expected_fact same_value metrics_into
    payload_hash outbox_begin outbox_complete write_one seed ensure_collection points_of point_id
    read_one concat receipt_for written_transition Service.mark_precedent_written
    Repository.transition get put at_most String-discrete MetricName-discrete WorkflowState-discrete
    ActorRole-discrete HumanAction-discrete CommandKey-discrete ℕ_discrete
stores = refl

write_completes_example :
    (y : TransitionResult) × ((first_write.0
        ≡ ok (record { transition = y; precedent = made_case }))
      × IsReceipted "app-1" (receipt_for sample_writer 7 made_case) y first_write.1.repository)
unfolding first_write
write_completes_example =
    write_completes sample_writer stamp 7 "app-1" write_command robot sample_memory decided_record
      made_case made_case refl finds sample-IsDecided refl fresh_command refl stores
