-- ===== src/Precedent/Service.antt =====
-- `PrecedentWritebackService.write`, src/fundermatch/precedent/writeback.py.
use funder_match.Base.{
  Exec, Option, Result, String, check_if, contains, err, get, if◌then◌else◌, nat_eq, none, not, ok,
  some, string_eq, ℕ, ◌==◌,
}
use funder_match.Workflow.Schema.{
  human_decided, precedent_written, state_eq, ActorRole, role_eq, send_back, action_eq, ActorClaims,
  HumanDecisionRecord, PrecedentWriteCommand, PrecedentWriteReceipt, WorkflowRecord,
  TransitionResult, WorkflowError, not_found, conflict, invalid_transition, authorization, Stamp,
}
use funder_match.Json.{Payload}
use funder_match.Workflow.Repository.{Repository}
use funder_match.Workflow.Service
use funder_match.Suggest.Schema.{DecidedLoanCase, SuggestionBundle}
use funder_match.Precedent.Outbox.{outbox_begin, outbox_complete, outbox_fail}
use funder_match.Precedent.Store.{StoreError, not_confirmed, point_id, read_one, write_one}
use funder_match.Precedent.Writeback.{
  Writer, Outbox, Memory, WriteError, workflow_error, store_error, invalid_bundle, missing_receipt,
  no_longer_available, no_longer_matches, WritebackResult, validate_selected_funder, payload_hash,
  build_case,
}

abbrev pub parsed : Option SuggestionBundle → Result WriteError SuggestionBundle
parsed none = err invalid_bundle
parsed (some b) = ok b

abbrev pub with_precedent :
    TransitionResult → Result WriteError DecidedLoanCase → Result WriteError WritebackResult
with_precedent y (err x) = err x
with_precedent y (ok c) = ok (record { transition = y; precedent = c })

module _ {Q : Type 0} where
  abbrev pub preserve :
      Writer Q → String → HumanDecisionRecord → SuggestionBundle → Result WriteError DecidedLoanCase
  preserve e id d b =
      check_if (not (b.application.application_id == id)) (workflow_error invalid_transition)
        (elim (validate_selected_funder b d.funder_id d.overrides) [
          | err x ↦ err x
          | ok _ ↦ build_case e b d
        ])

  abbrev pub preserve_parsed :
      Writer Q
      → String
      → HumanDecisionRecord
      → Result WriteError SuggestionBundle
      → Result WriteError DecidedLoanCase
  preserve_parsed e id d (err x) = err x
  preserve_parsed e id d (ok b) = preserve e id d b

  abbrev pub preserve_payload :
      Writer Q → String → HumanDecisionRecord → Option Payload → Result WriteError DecidedLoanCase
  preserve_payload e id d none = err (workflow_error invalid_transition)
  preserve_payload e id d (some p) = preserve_parsed e id d (parsed (e.parse_bundle p))

  abbrev pub prepare_decided :
      Writer Q
      → String
      → PrecedentWriteCommand
      → WorkflowRecord
      → Option HumanDecisionRecord
      → Result WriteError DecidedLoanCase
  prepare_decided e id command w none = err (workflow_error invalid_transition)
  prepare_decided e id command w (some d) =
      check_if (not (w.version == command.expected_version)) (workflow_error conflict) (
        check_if (d.action == send_back) (workflow_error invalid_transition)
          (preserve_payload e id d w.suggestion))

  -- what `write` checks before its first effect, and the case that it builds
  unfoldable pub prepare :
      Writer Q → String → PrecedentWriteCommand → WorkflowRecord → Result WriteError DecidedLoanCase
  prepare e id command w =
      check_if (not (w.state == human_decided)) (workflow_error invalid_transition)
        (prepare_decided e id command w w.decision)

  abbrev pub matching :
      Writer Q
      → PrecedentWriteReceipt
      → Result StoreError DecidedLoanCase
      → Result WriteError DecidedLoanCase
  matching e receipt (err StoreError.not_confirmed) = err no_longer_available
  matching e receipt (err x) = err (store_error x)
  matching e receipt (ok c) =
      if payload_hash e c == receipt.payload_sha256 then ok c else err no_longer_matches

  -- `_read_confirmed`
  unfoldable pub read_confirmed :
      Writer Q → PrecedentWriteReceipt → Q → Result WriteError DecidedLoanCase
  read_confirmed e receipt q =
      matching e receipt (read_one e.store not_confirmed receipt.collection receipt.point_id q)

  abbrev pub reread :
      Writer Q
      → PrecedentWriteReceipt
      → Memory Q
      → Result WorkflowError TransitionResult × Repository
      → Result WriteError WritebackResult × Memory Q
  reread e receipt m (err x, r) = (err (workflow_error x), record m { repository = r })
  reread e receipt m (ok y, r) =
      (with_precedent y (read_confirmed e receipt m.points), record m { repository = r })

  -- the branch for a precedent that is written
  abbrev pub rewrite :
      Writer Q
      → Stamp
      → String
      → PrecedentWriteCommand
      → ActorClaims
      → Option PrecedentWriteReceipt
      → Exec (Memory Q) WriteError WritebackResult
  rewrite e t id command actor none m = (err missing_receipt, m)
  rewrite e t id command actor (some receipt) m =
      reread e receipt m (Service.mark_precedent_written t id command receipt actor m.repository)

  unfoldable pub receipt_for : Writer Q → ℕ → DecidedLoanCase → PrecedentWriteReceipt
  receipt_for e at c = record {
    case_id = c.case_id;
    point_id = point_id e.store c.case_id;
    collection = e.store.collection;
    payload_sha256 = payload_hash e c;
    written_at = at;
  }

  abbrev pub marked :
      Memory Q
      → DecidedLoanCase
      → Result WorkflowError TransitionResult × Repository
      → Result WriteError WritebackResult × Memory Q
  marked m c (err x, r) = (err (workflow_error x), record m { repository = r })
  marked m c (ok y, r) =
      (ok (record { transition = y; precedent = c }), record m { repository = r })

  abbrev pub stored :
      Writer Q
      → Stamp
      → ℕ
      → String
      → PrecedentWriteCommand
      → ActorClaims
      → Memory Q
      → Result StoreError DecidedLoanCase × Q
      → Result WriteError WritebackResult × Memory Q
  stored e t at id command actor m (err x, q) = (
    err (store_error x),
    record m {
      points = q;
      outbox = outbox_fail command.command_id "precedent_writeback_failed" m.outbox;
    },
  )
  stored e t at id command actor m (ok c, q) =
      let receipt = receipt_for e at c in
      let after : Memory Q = record m {
        points = q;
        outbox = outbox_complete command.command_id receipt m.outbox;
      } in
      marked after c (Service.mark_precedent_written t id command receipt actor m.repository)

  abbrev pub begun :
      Writer Q
      → Stamp
      → ℕ
      → String
      → PrecedentWriteCommand
      → ActorClaims
      → DecidedLoanCase
      → Memory Q
      → Result WriteError (Unit {0}) × Outbox
      → Result WriteError WritebackResult × Memory Q
  begun e t at id command actor c m (err x, o) = (err x, record m { outbox = o })
  begun e t at id command actor c m (ok _, o) =
      stored e t at id command actor (record m { outbox = o }) (write_one e.store c m.points)

  abbrev pub commit :
      Writer Q
      → Stamp
      → ℕ
      → String
      → PrecedentWriteCommand
      → ActorClaims
      → Result WriteError DecidedLoanCase
      → Exec (Memory Q) WriteError WritebackResult
  commit e t at id command actor (err x) m = (err x, m)
  commit e t at id command actor (ok c) m =
      begun e t at id command actor c m
        (outbox_begin command.command_id id "precedent_writeback" (payload_hash e c) m.outbox)

  abbrev pub write_found :
      Writer Q
      → Stamp
      → ℕ
      → String
      → PrecedentWriteCommand
      → ActorClaims
      → Option WorkflowRecord
      → Exec (Memory Q) WriteError WritebackResult
  write_found e t at id command actor none m = (err (workflow_error not_found), m)
  write_found e t at id command actor (some w) m =
      if w.state == precedent_written
      then rewrite e t id command actor w.precedent_receipt m
      else commit e t at id command actor (prepare e id command w) m

  -- `write`, which makes the receipt at the time `at`
  unfoldable pub write :
      Writer Q
      → Stamp
      → ℕ
      → String
      → PrecedentWriteCommand
      → ActorClaims
      → Exec (Memory Q) WriteError WritebackResult
  write e t at id command actor m =
      if contains ActorRole.pipeline actor.roles
      then write_found e t at id command actor (get id m.repository.workflows) m
      else (err (workflow_error authorization), m)
