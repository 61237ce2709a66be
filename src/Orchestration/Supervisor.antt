-- ===== src/Orchestration/Supervisor.antt =====
-- The operations of `ApplicationMemoryGraph`, src/fundermatch/orchestration/graph.py, on the latest
-- checkpoint of each thread and the lifecycle store. `aupdate_state` overwrites the given fields of
-- the checkpoint; `ainvoke` does so and then runs the loop, whose every step is checkpointed.
use funder_match.Base.{
  Bool, Dict, Exec, List, Option, Result, String, [], contains, err, false, get, if◌then◌else◌,
  keep, leb, length, nat_eq, none, not, ok, pure, put, raise_if, remove, some, string_eq, true, ℕ,
  ◌&&◌, ◌++◌, ◌+◌, ◌==◌, ◌>>=◌, ◌>>◌, ◌||◌, ◌∷◌,
}
use funder_match.Orchestration.Context.{WorkerExecutionPolicy}
use funder_match.Orchestration.Fields.{validate_compact_state}
use funder_match.Orchestration.Schema.{
  GraphStatus, failed_retryable, needs_attention, waiting_for_review, completed, failed_terminal,
  status_eq, terminal, WorkerName, document_processing, financial_analysis, eligibility, guardrails,
  human_review, worker_eq, WriteReceipt, InputReference, GraphError, not_found, cannot_resume,
  not_terminal, skips_guardrails, unknown_worker, cannot_send_back, isolation, boundary,
  ApplicationMemoryState, initial,
}
use funder_match.Orchestration.Lifecycle
use funder_match.Orchestration.Lifecycle.{LifecycleStore}
use funder_match.Orchestration.Graph.{Graph, drive, policy_for, attempts_of}

pub record Memory : Type 0 where
  pub checkpoints : Dict String ApplicationMemoryState
  pub lifecycle : LifecycleStore

-- What the operations are given: the graph, the number of steps of one invocation, and the stable
-- identifiers of the workers' commands (`uuid5`).
pub record Setup : Type 0 where
  pub graph : Graph
  pub limit : ℕ
  pub command_id : String → WorkerName → String

abbrev pub checkpoint : String → ApplicationMemoryState → Memory → Memory
checkpoint id s m = record m { checkpoints = put id s m.checkpoints }

-- `lifecycle.set_status`, with the store's own clock
unfoldable pub report :
    String → ApplicationMemoryState → ℕ → Exec Memory GraphError ApplicationMemoryState
report id s clock m =
    let (r, store) =
      Lifecycle.set_status id s.status (some s.current_node) s.last_error none clock m.lifecycle in
    elim r [
      | ok _ ↦ (ok s, record m { lifecycle = store })
      | err e ↦ (err e, record m { lifecycle = store })
    ]

-- `_state_or_none`
unfoldable pub state_or_none :
    Graph → String → Exec Memory GraphError (Option ApplicationMemoryState)
state_or_none g id m = elim (get id m.checkpoints) [
  | none ↦ (ok none, m)
  | some s ↦ elim (validate_compact_state g.size s) [ ok t ↦ (ok (some t), m) | err e ↦ (err e, m) ]
]

abbrev check_owner :
    String → Option ApplicationMemoryState → Exec Memory GraphError ApplicationMemoryState
check_owner id none m = (err not_found, m)
check_owner id (some s) m = if not (s.application_id == id) then (err isolation, m) else (ok s, m)

-- `state`
unfoldable pub state : Graph → String → Exec Memory GraphError ApplicationMemoryState
unfolding state_or_none
state g id = do found ← state_or_none g id; check_owner id found

abbrev after_drive :
    Setup
    → String
    → ℕ
    → Result GraphError (Unit {0}) × ApplicationMemoryState
    → Exec Memory GraphError ApplicationMemoryState
after_drive u id clock (err e, s) m = (err e, checkpoint id s m)
after_drive u id clock (ok _, s) m = elim (validate_compact_state u.graph.size s) [
  | err e ↦ (err e, checkpoint id s m)
  | ok t ↦
      if not (t.application_id == id)
      then (err boundary, checkpoint id s m)
      else report id t clock (checkpoint id s m)
]

-- `_invoke` on the checkpoint with the given values put in, less its span
unfoldable pub invoke :
    Setup → String → ApplicationMemoryState → ℕ → Exec Memory GraphError ApplicationMemoryState
invoke u id s clock m = after_drive u id clock (drive u.graph u.limit s) m

unfoldable pub start :
    Setup
    → String
    → Option String
    → List InputReference
    → ℕ
    → Exec Memory GraphError ApplicationMemoryState
unfolding state_or_none initial
start u id job inputs clock m = elim (state_or_none u.graph id m).0 [
  | err e ↦ (err e, m)
  | ok (some existing) ↦ (ok existing, m)
  | ok none ↦ elim (initial u.command_id id u.graph.worker_order job inputs) [
    | err e ↦ (err e, m)
    | ok s ↦ elim (validate_compact_state u.graph.size s) [
      | err e ↦ (err e, m)
      | ok t ↦
          let (thread, store) = Lifecycle.create id t.current_node clock m.lifecycle in
          invoke u id t clock (record m { lifecycle = store })
    ]
  ]
]

-- The state's values for `aupdate_state`, then `set_status`.
abbrev pub settle_at :
    String → ApplicationMemoryState → ℕ → Exec Memory GraphError ApplicationMemoryState
settle_at id s clock m = report id s clock (checkpoint id s m)

unfoldable pub mark_terminal :
    Setup → String → GraphStatus → ℕ → Exec Memory GraphError ApplicationMemoryState
mark_terminal u id status clock = do
  raise_if (not (terminal status)) not_terminal
  current ← state u.graph id
  settle_at id (record current { status = status; last_error = none }) clock

unfoldable pub complete_after_writeback :
    Setup → String → WriteReceipt → ℕ → Exec Memory GraphError ApplicationMemoryState
complete_after_writeback u id receipt clock = do
  current ← state u.graph id
  if current.status == completed
      then pure current
      else settle_at id
          (record current {
            status = completed;
            write_receipts = current.write_receipts ++ receipt ∷ [];
            last_error = none;
          })
          clock

abbrev raised :
    ApplicationMemoryState → GraphStatus → String → String → Bool → ℕ → ApplicationMemoryState
raised s status code message retryable clock = record s {
  status = status;
  last_error = some (record {
    worker = s.current_node;
    code = code;
    message = message;
    retryable = retryable;
    occurred_at = clock;
  });
}

unfoldable pub mark_needs_attention :
    Setup → String → String → ℕ → Exec Memory GraphError ApplicationMemoryState
mark_needs_attention u id code clock = do
  current ← state u.graph id
  settle_at id
      (raised current needs_attention code
        "Supervisor routing requires an explicit reviewer-selected stage" false clock)
      clock

unfoldable pub mark_retryable :
    Setup → String → String → String → ℕ → Exec Memory GraphError ApplicationMemoryState
mark_retryable u id code message clock = do
  current ← state u.graph id
  settle_at id (raised current failed_retryable code message true clock) clock

abbrev pub is_exhausted : Option WorkerExecutionPolicy → ApplicationMemoryState → Bool
is_exhausted none s = false
is_exhausted (some p) s =
    s.status == failed_retryable && leb p.max_attempts (attempts_of s.current_node s)

-- the backoff between two attempts is a pause, which changes no state
unfoldable pub resume : Setup → String → ℕ → Exec Memory GraphError ApplicationMemoryState
resume u id clock = do
  current ← state u.graph id
  raise_if (not (current.status == failed_retryable || current.status == needs_attention))
      cannot_resume
  if is_exhausted (policy_for u.graph current.current_node) current
      then mark_terminal u id failed_terminal clock
      else invoke u id (record current { status = GraphStatus.running; last_error = none }) clock

abbrev position_from : ℕ → WorkerName → List WorkerName → Option ℕ
position_from n w [] = none
position_from n w (x ∷ xs) =
    let rest = position_from (n + 1) w xs in if x == w then some n else rest

abbrev reaches : ℕ → Option ℕ → Result GraphError Bool
reaches i none = err unknown_worker
reaches i (some j) = ok (leb i j)

-- `index <= self.worker_order.index(worker)`, which raises if the graph lacks that worker
unfoldable pub at_or_before : ℕ → WorkerName → List WorkerName → Result GraphError Bool
at_or_before i w order = reaches i (position_from 0 w order)

-- `self.worker_order[:index]` and `self.worker_order[index:]`, for the index of `w`
unfoldable pub before : WorkerName → List WorkerName → List WorkerName
before w [] = []
before w (x ∷ xs) = let rest = before w xs in if x == w then [] else x ∷ rest

unfoldable pub from_on : WorkerName → List WorkerName → List WorkerName
from_on w [] = []
from_on w (x ∷ xs) = let rest = from_on w xs in if x == w then x ∷ xs else rest

abbrev cleared {ℓ} : {A : Type ℓ} → Bool → List A → List A
cleared true xs = []
cleared false xs = xs

abbrev pub rewound :
    List WorkerName
    → WorkerName
    → ApplicationMemoryState
    → Bool
    → Bool
    → Bool
    → Bool
    → ApplicationMemoryState
rewound order w s d f e gr =
    let done = before w order in
    record s {
      status = GraphStatus.running;
      current_node = w;
      completed_workers = done;
      pending_workers = from_on w order;
      worker_receipts = keep (λ r. contains r.worker done) s.worker_receipts;
      human_review = none;
      last_error = none;
      documents = cleared d s.documents;
      evidence = cleared f s.evidence;
      eligibility = cleared e s.eligibility;
      guardrails = cleared gr s.guardrails;
    }

infixl 5 ◌>>?◌
abbrev ◌>>?◌ {ℓ κ} :
    {A : Type ℓ} {B : Type κ}
    → Result GraphError A
    → (A → Result GraphError B)
    → Result GraphError B
ok a >>? f = f a
err e >>? f = err e

-- the changes that `rewind` writes
unfoldable pub rewind_state :
    List WorkerName → WorkerName → ApplicationMemoryState → Result GraphError ApplicationMemoryState
unfolding at_or_before before from_on
rewind_state order w s =
    let i = length (before w order) in
    at_or_before i document_processing order >>? λ d.
    at_or_before i financial_analysis order >>? λ f. at_or_before i eligibility order >>? λ e.
    at_or_before i guardrails order >>? λ gr. ok (rewound order w s d f e gr)

abbrev lift {ℓ} : {A : Type ℓ} → Result GraphError A → Exec Memory GraphError A
lift r m = (r, m)

unfoldable pub rewind :
    Setup → String → WorkerName → ℕ → Exec Memory GraphError ApplicationMemoryState
unfolding rewind_state
rewind u id w clock = do
  raise_if (w == human_review) skips_guardrails
  raise_if (not (contains w u.graph.worker_order)) unknown_worker
  current ← state u.graph id
  raise_if (not (current.status == waiting_for_review || current.status == needs_attention))
      cannot_send_back
  s ← lift (rewind_state u.graph.worker_order w current)
  settle_at id s clock
  invoke u id s clock

-- what `retention_cleanup` does, where there is one
abbrev pub hooked {κ} :
    {E : Type κ} → Option (String → Result E (Unit {0})) → String → Result E (Unit {0})
hooked none id = ok tt
hooked (some hook) id = hook id

-- the turn of the loop for one thread
abbrev pub forgotten : String → Memory → Memory
forgotten id m = record {
  checkpoints = remove id m.checkpoints;
  lifecycle = Lifecycle.delete id m.lifecycle;
}

-- the loop of `cleanup_expired`; an exception of the hook ends it
unfoldable pub clean_each {κ} :
    {E : Type κ}
    → Option (String → Result E (Unit {0}))
    → List String
    → Memory
    → Result E (Unit {0}) × Memory
clean_each hook [] m = (ok tt, m)
clean_each hook (id ∷ ids) m = elim (hooked hook id) [
  | err e ↦ (err e, m)
  | ok _ ↦ clean_each hook ids (forgotten id m)
]

abbrev pub listed {κ} :
    {E : Type κ} → List String → Result E (Unit {0}) × Memory → Result E (List String) × Memory
listed ids (err e, m) = (err e, m)
listed ids (ok _, m) = (ok ids, m)

-- `cleanup_expired`, with the hook `retention_cleanup`
unfoldable pub cleanup_expired {κ} :
    {E : Type κ}
    → Option (String → Result E (Unit {0}))
    → ℕ
    → Memory
    → Result E (List String) × Memory
cleanup_expired hook now m =
    let ids = Lifecycle.expired now m.lifecycle in listed ids (clean_each hook ids m)
