-- ===== src/Intake/Jobs.antt =====
-- `InMemoryIntakeJobStore`, src/fundermatch/intake_jobs.py. Each method runs under the lock; times
-- are the clock's readings.
use funder_match.Base.{
  Bool, Dict, Exec, List, Option, Result, String, [], err, false, get, if◌then◌else◌, keep, leb,
  ltb, map_values, nat_eq, none, not, ok, put, some, string_eq, suc, true, ℕ, ◌&&◌, ◌++◌, ◌+◌, ◌∷◌,
}
use funder_match.Number.{Decimal, whole, at_most}

pub data IntakeJobStatus : Type 0 where
  queued running completed failed cancelled : IntakeJobStatus

-- The keyword arguments of `append`; the type makes a negative count impossible.
pub record Details : Type 0 where
  pub document_name : Option String
  pub document_index : Option ℕ
  pub document_count : Option ℕ
  pub completed : Option ℕ
  pub total : Option ℕ
  pub metric : Option String
  pub worker : Option String
  pub attempt : Option ℕ
  pub checkpoint_id : Option String
  pub guardrail_code : Option String
  pub resume_duration_ms : Option Decimal
  pub error_code : Option String
  pub retryable : Option Bool

pub record IntakeActivityEvent : Type 0 where
  pub job_id : String
  pub application_id : String
  pub sequence : ℕ
  pub stage : String
  pub message : String
  pub occurred_at : ℕ
  pub details : Details

pub record IntakeJob : Type 0 where
  pub job_id : String
  pub application_id : String
  pub status : IntakeJobStatus
  pub created_at : ℕ
  pub updated_at : ℕ
  pub completed_at : Option ℕ
  pub last_sequence : ℕ
  pub error_code : Option String
  pub retryable : Option Bool

pub record IntakeJobStore : Type 0 where
  pub jobs : Dict String IntakeJob
  pub events : Dict String (List IntakeActivityEvent)

pub data IntakeError : Type 0 where
  already_exists job_missing invalid_event : IntakeError

abbrev pub no_jobs : IntakeJobStore
no_jobs = record { jobs = []; events = [] }

abbrev pub new_job : String → String → ℕ → IntakeJob
new_job job_id application_id now = record {
  job_id = job_id;
  application_id = application_id;
  status = queued;
  created_at = now;
  updated_at = now;
  completed_at = none;
  last_sequence = 0;
  error_code = none;
  retryable = none;
}

unfoldable pub create : String → String → ℕ → Exec IntakeJobStore IntakeError IntakeJob
create id application_id now s = elim (get id s.jobs) [
  | some _ ↦ (err already_exists, s)
  | none ↦ (
    ok (new_job id application_id now),
    record { jobs = put id (new_job id application_id now) s.jobs; events = put id [] s.events },
  )
]

-- `_require`, and `get` under the lock
unfoldable pub require : String → IntakeJobStore → Result IntakeError IntakeJob
require id s = elim (get id s.jobs) [ some job ↦ ok job | none ↦ err job_missing ]

abbrev is_positive : Option ℕ → Bool
is_positive none = true
is_positive (some n) = leb 1 n

abbrev is_duration : Option Decimal → Bool
is_duration none = true
is_duration (some d) = at_most (whole 0) d

-- the ranges that the event's fields declare
abbrev pub is_valid : Details → Bool
is_valid d =
    is_positive d.document_index
    && is_positive d.document_count
    && is_positive d.total
    && is_positive d.attempt
    && is_duration d.resume_duration_ms

abbrev pub after_event : IntakeJobStatus → IntakeJobStatus
after_event queued = running
after_event status = status

abbrev pub next_event : String → IntakeJob → String → String → Details → ℕ → IntakeActivityEvent
next_event id job stage message details now = record {
  job_id = id;
  application_id = job.application_id;
  sequence = job.last_sequence + 1;
  stage = stage;
  message = message;
  occurred_at = now;
  details = details;
}

abbrev pub counted : IntakeJob → ℕ → IntakeJob
counted job now = record job {
  status = after_event job.status;
  updated_at = now;
  last_sequence = job.last_sequence + 1;
}

unfoldable pub append :
    String → String → String → Details → ℕ → Exec IntakeJobStore IntakeError IntakeActivityEvent
append id stage message details now s = elim (get id s.jobs) [
  | none ↦ (err job_missing, s)
  | some job ↦ if not (is_valid details) then (err invalid_event, s) else elim (get id s.events) [
    | none ↦ (err job_missing, s)
    | some events ↦ (
      ok (next_event id job stage message details now),
      record {
        jobs = put id (counted job now) s.jobs;
        events = put id (events ++ next_event id job stage message details now ∷ []) s.events;
      },
    )
  ]
]

unfoldable pub events_after :
    String → ℕ → IntakeJobStore → Result IntakeError (List IntakeActivityEvent)
events_after id after s = elim (get id s.jobs) [
  | none ↦ err job_missing
  | some job ↦ elim (get id s.events) [
    | none ↦ err job_missing
    | some events ↦ ok (keep (λ e. ltb after e.sequence) events)
  ]
]

pub data Ending : Type 0 where
  completes fails cancels : Ending

abbrev pub ended_status : Ending → IntakeJobStatus
ended_status completes = IntakeJobStatus.completed
ended_status fails = failed
ended_status cancels = cancelled

abbrev pub ended : Ending → Option String → Option Bool → ℕ → IntakeJob → IntakeJob
ended ending code retryable now job = record job {
  status = ended_status ending;
  updated_at = now;
  completed_at = some now;
  error_code = code;
  retryable = retryable;
}

unfoldable pub finish :
    String → Ending → Option String → Option Bool → ℕ → Exec IntakeJobStore IntakeError IntakeJob
finish id ending code retryable now s = elim (get id s.jobs) [
  | none ↦ (err job_missing, s)
  | some job ↦ (
    ok (ended ending code retryable now job),
    record s { jobs = put id (ended ending code retryable now job) s.jobs },
  )
]

abbrev pub is_interrupted : IntakeJobStatus → Bool
is_interrupted queued = true
is_interrupted running = true
is_interrupted _ = false

-- one turn of the loop of `fail_interrupted`
abbrev pub restarted : (IntakeJob → ℕ) → IntakeJob → IntakeJob
restarted clock job =
    if is_interrupted job.status
    then ended fails (some "service_restarted") (some true) (clock job) job
    else job

abbrev pub count_jobs : (IntakeJob → Bool) → Dict String IntakeJob → ℕ
count_jobs p [] = 0
count_jobs p ((k, job) ∷ d) = let rest = count_jobs p d in if p job then suc rest else rest

-- `clock` is the reading when the loop reaches a job.
unfoldable pub fail_interrupted : (IntakeJob → ℕ) → IntakeJobStore → ℕ × IntakeJobStore
fail_interrupted clock s = (
  count_jobs (λ job. is_interrupted job.status) s.jobs,
  record s { jobs = map_values (restarted clock) s.jobs },
)

-- One call of the store.
pub data Call : Type 0 where
  create_call : String → String → ℕ → Call
  append_call : String → String → String → Details → ℕ → Call
  finish_call : String → Ending → Option String → Option Bool → ℕ → Call
  restart_call : (IntakeJob → ℕ) → Call

unfoldable pub perform : Call → IntakeJobStore → IntakeJobStore
unfolding create append finish fail_interrupted
perform (create_call id application_id now) s = (create id application_id now s).1
perform (append_call id stage message details now) s = (append id stage message details now s).1
perform (finish_call id ending code retryable now) s = (finish id ending code retryable now s).1
perform (restart_call clock) s = (fail_interrupted clock s).1

unfoldable pub serve : List Call → IntakeJobStore → IntakeJobStore
serve [] s = s
serve (c ∷ cs) s = serve cs (perform c s)
