-- ===== src/Precedent/Outbox.antt =====
-- The outbox of `PrecedentWritebackService`, src/fundermatch/precedent/writeback.py.
use funder_match.Base.{
  Bool, Dict, Exec, Option, Result, String, err, get, if◌then◌else◌, nat_eq, none, ok, put, some,
  string_eq, ◌&&◌, ◌+◌, ◌==◌,
}
use funder_match.Workflow.Schema.{state_eq, role_eq, action_eq, PrecedentWriteReceipt, conflict}
use funder_match.Precedent.Writeback.{
  pending, completed, failed, OutboxRow, Outbox, WriteError, workflow_error,
}

abbrev pub fresh_row : String → String → String → OutboxRow
fresh_row id operation hash = record {
  application_id = id;
  operation = operation;
  payload_hash = hash;
  status = pending;
  attempts = 0;
  receipt = none;
  last_error_code = none;
}

abbrev pub is_same : String → String → String → OutboxRow → Bool
is_same id operation hash row =
    row.application_id == id && row.operation == operation && row.payload_hash == hash

abbrev begin_row :
    String
    → String
    → String
    → String
    → Dict String OutboxRow
    → Option OutboxRow
    → Result WriteError (Unit {0}) × Outbox
begin_row command id operation hash rows none =
    (ok tt, some (put command (fresh_row id operation hash) rows))
begin_row command id operation hash rows (some row) =
    (if is_same id operation hash row then ok tt else err (workflow_error conflict), some rows)

-- `_outbox_begin`
unfoldable pub outbox_begin : String → String → String → String → Exec Outbox WriteError (Unit {0})
outbox_begin command id operation hash none = (ok tt, none)
outbox_begin command id operation hash (some rows) =
    begin_row command id operation hash rows (get command rows)

-- `UPDATE guardrail_outbox SET … WHERE command_id = $1`
abbrev pub update_row :
    String
    → (OutboxRow → OutboxRow)
    → Dict String OutboxRow
    → Option OutboxRow
    → Dict String OutboxRow
update_row command f rows none = rows
update_row command f rows (some row) = put command (f row) rows

-- `_outbox_complete`
unfoldable pub outbox_complete : String → PrecedentWriteReceipt → Outbox → Outbox
outbox_complete command receipt none = none
outbox_complete command receipt (some rows) = some (
    update_row command
      (λ row. record row {
        status = completed;
        attempts = row.attempts + 1;
        receipt = some receipt;
        last_error_code = none;
      })
      rows (get command rows))

-- `_outbox_fail`
unfoldable pub outbox_fail : String → String → Outbox → Outbox
outbox_fail command code none = none
outbox_fail command code (some rows) = some (
    update_row command
      (λ row. record row {
        status = failed;
        attempts = row.attempts + 1;
        last_error_code = some code;
      })
      rows (get command rows))
