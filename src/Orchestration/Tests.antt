-- ===== src/Orchestration/Tests.antt =====
-- A run of the supervisor and of its lifecycle store, and its properties applied to it.
use funder_match.Base.{
  Dict, List, Option, Result, String, String-discrete, [], all, arith, contains, err, false, get,
  length, nat_eq, none, ok, put, refl, some, string_eq, true, ◌+◌, ◌↔◌, ◌∷◌, ◌≡◌, ◌≢◌, ◌≤◌, ◌⊎◌,
}
use native.Mathlib.Decide.{ℕ_discrete}
use funder_match.Number.{below, whole}
use funder_match.Orchestration.Fields.{
  validate_compact_state, valid_state, valid_input, valid_document, valid_evidence, valid_write,
  valid_receipt, valid_error,
}
use funder_match.Orchestration.Schema.{
  GraphStatus, GraphStatus-discrete, WorkerName-discrete, failed_terminal, completed,
  waiting_for_review, WorkerName, document_processing, eligibility, worker_eq, value,
  default_worker_order, WorkerResult, ApplicationMemoryState, initial, command_for, is_distinct,
  make_commands, recursion_limit,
}
use funder_match.Orchestration.Lifecycle.{
  MemoryThreadRecord, Call, create_call, status_call, stale_call, serve, perform, create,
  set_status, flag_stale, delete, expired, status_counts,
}
use funder_match.Orchestration.Retention.{
  empty, IsKept, serve-IsKept, expired_iff, flag_stale_exact, status_counts-partition,
}
use funder_match.Orchestration.Context.{WorkerExecutionPolicy, WorkerContext}
use funder_match.Orchestration.Graph.{
  Attempt, Graph, policy_for, make_context, attempt_outcome, success_update, attempt_worker,
  run_worker, drive, attempts_of,
}
use funder_match.Orchestration.Progress.{IsOrdered, initial-IsOrdered, receipt_workers}
use funder_match.Orchestration.Loop.{drive-IsOrdered, drive_ends, drive_review}
use funder_match.Orchestration.Supervisor.{
  Memory, cleanup_expired, hooked, rewind_state, rewound, at_or_before, before, from_on,
}
use funder_match.Orchestration.Expiry.{cleanup_expired_exact}
use funder_match.Orchestration.Budget.{granted, granted_bounded}
use funder_match.Orchestration.SendBack.{IsRewound, rewind_state-IsOrdered, rewind_state-exhausted}

abbrev sample_calls : List Call
sample_calls =
    create_call "a" document_processing 1
    ∷ create_call "b" document_processing 2
    ∷ status_call "a" completed none none none 5
    ∷ stale_call 3
    ∷ []

abbrev sample_thread : MemoryThreadRecord
sample_thread = record {
  thread_id = "a";
  application_id = "a";
  status = completed;
  current_node = none;
  last_error = none;
  is_stale = false;
  created_at = 1;
  updated_at = 5;
  terminal_at = some 5;
  delete_after = some 15;
}

found_thread : get "a" (serve sample_calls (empty 10)).records ≡ some sample_thread
unfolding serve perform create set_status flag_stale delete get put GraphStatus-discrete
    String-discrete
found_thread = refl

serve-IsKept_example : IsKept 10 "a" sample_thread
serve-IsKept_example = serve-IsKept 10 sample_calls "a" sample_thread found_thread

expired_iff_example :
    (contains "a" (expired 20 (serve sample_calls (empty 10))) ≡ true)
    ↔ ((true ≡ true) × (5 + 10 ≤ 20))
expired_iff_example = expired_iff 10 20 sample_calls "a" sample_thread found_thread

flag_stale_exact_example :
    (contains "a" (flag_stale 9 (serve sample_calls (empty 10))).0 ≡ false)
    × (get "a" (flag_stale 9 (serve sample_calls (empty 10))).1.records ≡ some sample_thread)
flag_stale_exact_example = flag_stale_exact 10 9 sample_calls "a" sample_thread found_thread

abbrev both : Dict String MemoryThreadRecord
both = ("a", sample_thread) ∷ ("b", record sample_thread { status = GraphStatus.running }) ∷ []

status_counts-partition_example :
    let c = status_counts both in
    (c.running + c.waiting + c.retryable + c.needs_attention + c.terminal ≡ 2)
    × (c.cancelled ≤ c.terminal)
status_counts-partition_example = status_counts-partition both

abbrev answer : WorkerName → WorkerResult
answer w = record {
  worker = w;
  output_sha256 = "0123456789abcdef0123456789abcdef0123456789abcdef0123456789abcdef";
  documents = none;
  evidence = none;
  eligibility = none;
  guardrails = none;
  human_review = none;
  workflow_state = none;
  workflow_version = none;
  config_hash = none;
  model_revision = none;
  write_receipts = [];
}

abbrev sample_attempt : WorkerName → ApplicationMemoryState → WorkerContext → Attempt
sample_attempt w s c = record {
  outcome = ok (answer w);
  tools = [];
  latency_ms = whole 1;
  completed_at = 1;
  failed_at = 1;
}

abbrev once : WorkerExecutionPolicy
once = record {
  permitted_tools = "qdrant_search" ∷ [];
  max_calls = 1;
  call_timeout_seconds = 30;
  worker_deadline_seconds = 60;
  max_attempts = 1;
  backoff_seconds = whole 0;
  side_effects = [];
}

abbrev sample_graph : Graph
sample_graph = record {
  worker_order = default_worker_order;
  run = sample_attempt;
  max_tool_calls = 13;
  execution_policies = ("eligibility", once) ∷ [];
  policy_hash = none;
  sign = none;
  size = λ s. 100;
}

abbrev first_state : ApplicationMemoryState
first_state = record {
  application_id = "app-1";
  job_id = none;
  status = GraphStatus.running;
  current_node = document_processing;
  completed_workers = [];
  pending_workers = default_worker_order;
  attempts = [];
  input_references = [];
  documents = [];
  evidence = [];
  eligibility = [];
  guardrails = [];
  human_review = none;
  workflow_state = none;
  workflow_version = none;
  config_hash = none;
  model_revision = none;
  commands = make_commands value default_worker_order;
  worker_receipts = [];
  write_receipts = [];
  last_error = none;
}

first_state-IsOrdered : IsOrdered default_worker_order first_state
unfolding initial
first_state-IsOrdered =
    initial-IsOrdered (λ id w. value w) "app-1" default_worker_order none [] first_state refl

distinct_order : is_distinct default_worker_order ≡ true
unfolding WorkerName-discrete
distinct_order = refl

abbrev reviewed_state : ApplicationMemoryState
unfolding drive run_worker attempt_worker attempt_outcome success_update make_context command_for
    validate_compact_state valid_state valid_input valid_document valid_evidence valid_write
    valid_receipt valid_error ℕ_discrete below get put GraphStatus-discrete WorkerName-discrete
    value String-discrete
reviewed_state = (drive sample_graph 8 first_state).1

waits : reviewed_state.status ≡ waiting_for_review
unfolding reviewed_state
waits = refl

drive_ends_example :
    ((drive sample_graph 8 first_state).0 ≢ err recursion_limit)
    × ((drive sample_graph 8 first_state).0 ≡ ok tt
        → (drive sample_graph 8 first_state).1.status ≢ GraphStatus.running)
drive_ends_example =
    drive_ends sample_graph 8 first_state distinct_order first_state-IsOrdered (omega arith)

drive_review_example :
    ((drive sample_graph 8 first_state).1.completed_workers ≡ default_worker_order)
    × (receipt_workers (drive sample_graph 8 first_state).1.worker_receipts ≡ default_worker_order)
unfolding reviewed_state
drive_review_example =
    drive_review sample_graph 8 first_state distinct_order first_state-IsOrdered waits

abbrev sent_back : ApplicationMemoryState
sent_back = rewound default_worker_order eligibility reviewed_state false false true true

rewinds : rewind_state default_worker_order eligibility reviewed_state ≡ ok sent_back
unfolding rewind_state at_or_before before WorkerName-discrete
rewinds = refl

reviewed_state-IsOrdered : IsOrdered default_worker_order reviewed_state
unfolding reviewed_state
reviewed_state-IsOrdered =
    drive-IsOrdered sample_graph distinct_order 8 first_state first_state-IsOrdered

present : contains eligibility default_worker_order ≡ true
unfolding WorkerName-discrete
present = refl

rewind_state-IsOrdered_example :
    IsOrdered default_worker_order sent_back
    × IsRewound default_worker_order eligibility reviewed_state sent_back
rewind_state-IsOrdered_example =
    rewind_state-IsOrdered default_worker_order eligibility reviewed_state sent_back distinct_order
      reviewed_state-IsOrdered waits present rewinds

known_policy : policy_for sample_graph eligibility ≡ some once
unfolding get value String-discrete
known_policy = refl

spent : 1 ≤ attempts_of eligibility reviewed_state
unfolding reviewed_state
spent = omega arith

still_valid : validate_compact_state sample_graph.size sent_back ≡ ok sent_back
unfolding reviewed_state before from_on
still_valid = refl

rewind_state-exhausted_example :
    ((drive sample_graph 8 sent_back).0 ≡ ok tt)
    × (((drive sample_graph 8 sent_back).1.status ≡ failed_terminal)
        × ((drive sample_graph 8 sent_back).1.completed_workers
            ≡ before eligibility default_worker_order))
rewind_state-exhausted_example =
    rewind_state-exhausted sample_graph 7 eligibility reviewed_state sent_back once known_policy
      spent rewinds still_valid

granted_bounded_example :
    let through =
      granted
        ("qdrant_search" ∷ "shell" ∷ "qdrant_search" ∷ [])
        (make_context sample_graph first_state "c" (some once)) in
    (length through ≤ 1) × (all (λ t. contains t ("qdrant_search" ∷ [])) through ≡ true)
granted_bounded_example =
    granted_bounded sample_graph first_state "c" once
      ("qdrant_search" ∷ "shell" ∷ "qdrant_search" ∷ [])

abbrev artifacts_removed : Option (String → Result String (Unit {0}))
artifacts_removed = some (λ id. ok tt)

cleanup_expired_exact_example :
    let m : Memory = record {
      checkpoints = ("a", first_state) ∷ [];
      lifecycle = serve sample_calls (empty 10);
    } in
    let ids = expired 20 m.lifecycle in
    let (out, t) = cleanup_expired artifacts_removed 20 m in
    ((out ≡ ok ids) × ((get "a" t.checkpoints ≡ none) × (get "a" t.lifecycle.records ≡ none)))
    ⊎ ((e : String) × ((i : String) × ((out ≡ err e)
            × ((contains i ids ≡ true)
                × ((hooked artifacts_removed i ≡ err e)
                    × (((true ≡ true)
                          × ((get "a" t.checkpoints ≡ none) × (get "a" t.lifecycle.records ≡ none)))
                        ⊎ ((get "a" t.checkpoints ≡ some first_state)
                            × (get "a" t.lifecycle.records ≡ some sample_thread))))))))
unfolding get String-discrete
cleanup_expired_exact_example =
    cleanup_expired_exact artifacts_removed 10 20 sample_calls (("a", first_state) ∷ []) "a"
      sample_thread found_thread
