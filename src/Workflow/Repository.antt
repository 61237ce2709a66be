-- ===== src/Workflow/Repository.antt =====
-- `InMemoryWorkflowRepository`, src/fundermatch/workflow/repository.py. Each method runs under the
-- lock, so it is one step on the three dictionaries.
use funder_match.Base.{
  ℕ, ◌+◌, String, Option, none, some, List, [], ◌∷◌, ◌++◌, Eq, string_eq, String-discrete, Result,
  ok, err, Exec, Dict, get, put, length,
}
use funder_match.Workflow.Schema.{
  WorkflowRecord, AuditEvent, TransitionResult, WorkflowError, not_found, conflict,
}

-- (application_id, command_id)
pub record CommandKey : Type 0 where
  pub application : String
  pub command : String

unfoldable pub CommandKey-discrete : Discrete CommandKey
CommandKey-discrete = hlevel String-discrete

instance abbrev pub key_eq : Eq CommandKey
key_eq = record { dec = CommandKey-discrete }

pub record Repository : Type 0 where
  pub workflows : Dict String WorkflowRecord
  pub events : Dict String (List AuditEvent)
  pub commands : Dict CommandKey TransitionResult

abbrev pub empty : Repository
empty = record { workflows = []; events = []; commands = [] }

-- `Transition`: what a command does to the current record, given the next sequence number
abbrev pub Transition : Type 0
Transition = WorkflowRecord → ℕ → Result WorkflowError (WorkflowRecord × AuditEvent)

unfoldable pub create : WorkflowRecord → AuditEvent → Exec Repository WorkflowError TransitionResult
create w e r = elim (get w.application_id r.workflows) [
  | some _ ↦ (err conflict, r)
  | none ↦
      let result : TransitionResult = record { workflow = w; audit_event = e } in
      (
        ok result,
        record {
          workflows = put w.application_id w r.workflows;
          events = put w.application_id (e ∷ []) r.events;
          commands =
              put (record { application = w.application_id; command = e.command_id }) result
                r.commands;
        },
      )
]

unfoldable pub find : String → Exec Repository WorkflowError WorkflowRecord
find id r = elim (get id r.workflows) [ some w ↦ (ok w, r) | none ↦ (err not_found, r) ]

unfoldable pub audit : String → Exec Repository WorkflowError (List AuditEvent)
audit id r = elim (get id r.events) [ some es ↦ (ok es, r) | none ↦ (err not_found, r) ]

abbrev pub or_empty : Option (List AuditEvent) → List AuditEvent
or_empty none = []
or_empty (some es) = es

-- `self._events[application_id]`, which is there whenever the workflow is
abbrev pub log : String → Repository → List AuditEvent
log id r = or_empty (get id r.events)

abbrev pub store :
    String
    → String
    → Repository
    → Result WorkflowError (WorkflowRecord × AuditEvent)
    → Result WorkflowError TransitionResult × Repository
store id command r (err x) = (err x, r)
store id command r (ok (w, e)) =
    let result : TransitionResult = record { workflow = w; audit_event = e } in
    (
      ok result,
      record {
        workflows = put id w r.workflows;
        events = put id (log id r ++ e ∷ []) r.events;
        commands = put (record { application = id; command = command }) result r.commands;
      },
    )

unfoldable pub transition :
    String → String → Transition → Exec Repository WorkflowError TransitionResult
transition id command f r = elim (get (record { application = id; command = command }) r.commands) [
  | some prior ↦ (ok prior, r)
  | none ↦ elim (get id r.workflows) [
    | none ↦ (err not_found, r)
    | some current ↦ store id command r (f current (length (log id r) + 1))
  ]
]
