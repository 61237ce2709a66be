-- ===== src/Orchestration/Graph.antt =====
-- `ApplicationMemoryGraph`, src/fundermatch/orchestration/graph.py: one attempt of a worker, and
-- the loop that the graph's node and edges make. What a worker does is a parameter.
use funder_match.Base.{
  Bool, Dict, Exec, List, Option, Result, String, [], contains, err, false, get, if◌then◌else◌,
  keep, ltb, nat_eq, none, not, ok, put, some, string_eq, suc, true, zero, ℕ, ◌++◌, ◌+◌, ◌==◌, ◌∷◌,
}
use funder_match.Number.{Decimal}
use funder_match.Orchestration.Context.{
  WorkerExecutionPolicy, WorkerFailure, Raised, failure, timeout_error, other_error, WorkerContext,
}
use funder_match.Orchestration.Fields.{validate_compact_state}
use funder_match.Orchestration.Schema.{
  GraphStatus, failed_retryable, waiting_for_review, failed_terminal, status_eq, WorkerName,
  GraphError, value, worker_eq, ApplicationMemoryState, WorkerResult, WorkerReceipt, command_for,
  no_command, recursion_limit,
}

-- One run of a worker, with the readings of the clock around it.
pub record Attempt : Type 0 where
  pub outcome : Result Raised WorkerResult
  pub tools : List String
  pub latency_ms : Decimal
  pub completed_at : ℕ
  pub failed_at : ℕ

-- `run` stands for the workers' code, `sign` for the receipt signer, `size` for the length of a
-- state's JSON.
pub record Graph : Type 0 where
  pub worker_order : List WorkerName
  pub run : WorkerName → ApplicationMemoryState → WorkerContext → Attempt
  pub max_tool_calls : ℕ
  pub execution_policies : Dict String WorkerExecutionPolicy
  pub policy_hash : Option String
  pub sign : Option (WorkerReceipt → String)
  pub size : ApplicationMemoryState → ℕ

abbrev pub policy_for : Graph → WorkerName → Option WorkerExecutionPolicy
policy_for g w = get (value w) g.execution_policies

abbrev attempts_so_far : Option ℕ → ℕ
attempts_so_far none = 0
attempts_so_far (some n) = n

-- `state.attempts.get(worker, 0)`
abbrev pub attempts_of : WorkerName → ApplicationMemoryState → ℕ
attempts_of w s = attempts_so_far (get w s.attempts)

unfoldable pub make_context :
    Graph → ApplicationMemoryState → String → Option WorkerExecutionPolicy → WorkerContext
make_context g s command (some p) = record {
  application_id = s.application_id;
  command_id = command;
  max_tool_calls = p.max_calls;
  permitted_tools = some p.permitted_tools;
  call_timeout_seconds = some p.call_timeout_seconds;
  tool_calls = 0;
  tools = [];
}
make_context g s command none = record {
  application_id = s.application_id;
  command_id = command;
  max_tool_calls = g.max_tool_calls;
  permitted_tools = none;
  call_timeout_seconds = none;
  tool_calls = 0;
  tools = [];
}

abbrev pub attempt_limit : WorkerFailure
attempt_limit = record {
  code = "worker_attempt_limit_exceeded";
  message = "worker exceeded its production attempt limit";
  retryable = false;
  needs_attention = false;
}

abbrev pub identity_mismatch : WorkerFailure
identity_mismatch = record {
  code = "worker_identity_mismatch";
  message = "worker returned a result for a different stage";
  retryable = false;
  needs_attention = false;
}

abbrev pub exceeds : Option WorkerExecutionPolicy → ℕ → Bool
exceeds none n = false
exceeds (some p) n = ltb p.max_attempts n

abbrev check_identity : WorkerName → Result Raised WorkerResult → Result Raised WorkerResult
check_identity w (err e) = err e
check_identity w (ok r) = if not (r.worker == w) then err (failure identity_mismatch) else ok r

-- The `try` block of `_run_worker`: the attempt limit, the worker, which must be one of the graph's,
-- and its identity.
unfoldable pub attempt_outcome :
    Graph → WorkerName → Option WorkerExecutionPolicy → ℕ → Attempt → Result Raised WorkerResult
attempt_outcome g w policy attempt a =
    if exceeds policy attempt
    then err (failure attempt_limit)
    else if not (contains w g.worker_order)
    then err other_error
    else check_identity w a.outcome

abbrev pub failure_status : WorkerFailure → GraphStatus
failure_status f =
    if f.needs_attention
    then GraphStatus.needs_attention
    else if f.retryable
    then failed_retryable
    else failed_terminal

abbrev pub failed_update :
    ApplicationMemoryState
    → Dict WorkerName ℕ
    → ℕ
    → GraphStatus
    → String
    → String
    → Bool
    → ApplicationMemoryState
failed_update s attempts failed_at status code message retryable = record s {
  attempts = attempts;
  status = status;
  last_error = some (record {
    worker = s.current_node;
    code = code;
    message = message;
    retryable = retryable;
    occurred_at = failed_at;
  });
}

-- the three `except` clauses
unfoldable pub failure_update :
    ApplicationMemoryState → Dict WorkerName ℕ → ℕ → Raised → ApplicationMemoryState
failure_update s attempts failed_at (failure f) =
    failed_update s attempts failed_at (failure_status f) f.code f.message f.retryable
failure_update s attempts failed_at timeout_error =
    failed_update s attempts failed_at failed_retryable "worker_deadline_exceeded"
      "worker exceeded its production deadline" true
failure_update s attempts failed_at other_error =
    failed_update s attempts failed_at failed_retryable "worker_failed"
      "worker failed without exposing private error details" true

abbrev or_old {ℓ} : {A : Type ℓ} → Option A → A → A
or_old none old = old
or_old (some new) old = new

abbrev or_else {ℓ} : {A : Type ℓ} → Option A → Option A → Option A
or_else none old = old
or_else (some new) old = some new

-- `tuple(worker for worker in self.worker_order if worker not in completed)`
abbrev pub remaining : List WorkerName → List WorkerName → List WorkerName
remaining order done = keep (λ w. not (contains w done)) order

abbrev pub first_or : WorkerName → List WorkerName → WorkerName
first_or w [] = w
first_or w (x ∷ xs) = x

abbrev pub next_status : List WorkerName → GraphStatus
next_status [] = waiting_for_review
next_status (_ ∷ _) = GraphStatus.running

abbrev pub signed : Option (WorkerReceipt → String) → WorkerReceipt → WorkerReceipt
signed none r = r
signed (some sign) r = record r { signature = some (sign r) }

-- `_success_update`
unfoldable pub success_update :
    Graph
    → ApplicationMemoryState
    → WorkerResult
    → Dict WorkerName ℕ
    → ℕ
    → String
    → Attempt
    → ApplicationMemoryState
success_update g s r attempts attempt command a =
    let done = s.completed_workers ++ r.worker ∷ [] in
    let pending = remaining g.worker_order done in
    let receipt : WorkerReceipt = record {
      worker = r.worker;
      command_id = command;
      output_sha256 = r.output_sha256;
      attempt = attempt;
      tool_calls = a.tools;
      latency_ms = a.latency_ms;
      policy_hash = g.policy_hash;
      signature = none;
      completed_at = a.completed_at;
    } in
    record s {
      status = next_status pending;
      current_node = first_or r.worker pending;
      completed_workers = done;
      pending_workers = pending;
      attempts = attempts;
      documents = or_old r.documents s.documents;
      evidence = or_old r.evidence s.evidence;
      eligibility = or_old r.eligibility s.eligibility;
      guardrails = or_old r.guardrails s.guardrails;
      human_review = or_else r.human_review s.human_review;
      workflow_state = or_else r.workflow_state s.workflow_state;
      workflow_version = or_else r.workflow_version s.workflow_version;
      config_hash = or_else r.config_hash s.config_hash;
      model_revision = or_else r.model_revision s.model_revision;
      worker_receipts = s.worker_receipts ++ signed g.sign receipt ∷ [];
      write_receipts = s.write_receipts ++ r.write_receipts;
      last_error = none;
    }

abbrev pub settle :
    Graph
    → ApplicationMemoryState
    → Dict WorkerName ℕ
    → ℕ
    → String
    → Attempt
    → Result Raised WorkerResult
    → Result GraphError ApplicationMemoryState
settle g s attempts attempt command a (ok r) =
    validate_compact_state g.size (success_update g s r attempts attempt command a)
settle g s attempts attempt command a (err e) = ok (failure_update s attempts a.failed_at e)

-- one attempt of the current worker, on a state that has passed the validator
unfoldable pub attempt_worker :
    Graph → ApplicationMemoryState → Result GraphError ApplicationMemoryState
attempt_worker g s = elim (command_for s.current_node s.commands) [
  | none ↦ err no_command
  | some command ↦
      let w = s.current_node in
      let attempt = attempts_of w s + 1 in
      let policy = policy_for g w in
      let a = g.run w s (make_context g s command policy) in
      settle g s (put w attempt s.attempts) attempt command a (attempt_outcome g w policy attempt a)
]

-- `_run_worker`, less its spans and activity messages
unfoldable pub run_worker :
    Graph → ApplicationMemoryState → Result GraphError ApplicationMemoryState
run_worker g raw = elim (validate_compact_state g.size raw) [
  | err e ↦ err e
  | ok s ↦ attempt_worker g s
]

-- `_route`
abbrev pub continues : ApplicationMemoryState → Bool
continues s = s.status == GraphStatus.running

-- The compiled graph: the node `run_worker`, entered at the start and left when `_route` stops. The
-- state is the checkpoint, which keeps the last update that was made; `limit` is the number of steps
-- that one invocation may take.
unfoldable pub drive : Graph → ℕ → Exec ApplicationMemoryState GraphError (Unit {0})
drive g zero s = (err recursion_limit, s)
drive g (suc limit) s = elim (run_worker g s) [
  | err e ↦ (err e, s)
  | ok s' ↦ let rest = drive g limit s' in if continues s' then rest else (ok tt, s')
]
