-- ===== src/Orchestration/Lifecycle.antt =====
-- `InMemoryLifecycleStore`, src/fundermatch/orchestration/lifecycle.py. Each method runs under the
-- lock. Times and the retention period are numbers; `now` is the clock's answer.
use funder_match.Base.{
  Bool, Dict, Exec, List, Option, Result, String, [], err, false, get, if◌then◌else◌, keys_where,
  leb, ltb, map_values, nat_eq, none, not, ok, put, remove, some, string_eq, suc, true, ℕ, ◌&&◌,
  ◌+◌, ◌==◌, ◌∷◌,
}
use funder_match.Orchestration.Schema.{
  GraphStatus, failed_retryable, waiting_for_review, status_eq, terminal, WorkerName, WorkerError,
  GraphError, lifecycle_missing,
}

pub record MemoryThreadRecord : Type 0 where
  pub thread_id : String
  pub application_id : String
  pub status : GraphStatus
  pub current_node : Option WorkerName
  pub last_error : Option WorkerError
  pub is_stale : Bool
  pub created_at : ℕ
  pub updated_at : ℕ
  pub terminal_at : Option ℕ
  pub delete_after : Option ℕ

pub record MemoryStatusCounts : Type 0 where
  pub running : ℕ
  pub waiting : ℕ
  pub retryable : ℕ
  pub needs_attention : ℕ
  pub terminal : ℕ
  pub cancelled : ℕ
  pub stale : ℕ

pub record LifecycleStore : Type 0 where
  pub retention : ℕ
  pub records : Dict String MemoryThreadRecord

abbrev pub new_thread : String → WorkerName → ℕ → MemoryThreadRecord
new_thread id node now = record {
  thread_id = id;
  application_id = id;
  status = GraphStatus.running;
  current_node = some node;
  last_error = none;
  is_stale = false;
  created_at = now;
  updated_at = now;
  terminal_at = none;
  delete_after = none;
}

unfoldable pub create :
    String → WorkerName → ℕ → LifecycleStore → MemoryThreadRecord × LifecycleStore
create id node now s = elim (get id s.records) [
  | some existing ↦ (existing, s)
  | none ↦
      (new_thread id node now, record s { records = put id (new_thread id node now) s.records })
]

unfoldable pub find : String → LifecycleStore → Result GraphError MemoryThreadRecord
find id s = elim (get id s.records) [ some r ↦ ok r | none ↦ err lifecycle_missing ]

abbrev pub add_to : Option ℕ → ℕ → Option ℕ
add_to none r = none
add_to (some t) r = some (t + r)

abbrev pub or_now : Option ℕ → ℕ → ℕ
or_now (some t) now = t
or_now none now = now

abbrev pub with_status :
    ℕ
    → GraphStatus
    → Option WorkerName
    → Option WorkerError
    → ℕ
    → MemoryThreadRecord
    → MemoryThreadRecord
with_status retention status node error changed_at current =
    let terminal_at = if terminal status then some changed_at else none in
    record current {
      status = status;
      current_node = node;
      last_error = error;
      is_stale = false;
      updated_at = changed_at;
      terminal_at = terminal_at;
      delete_after = add_to terminal_at retention;
    }

-- `now` is the caller's time, if it gives one; `clock` is read otherwise.
unfoldable pub set_status :
    String
    → GraphStatus
    → Option WorkerName
    → Option WorkerError
    → Option ℕ
    → ℕ
    → Exec LifecycleStore GraphError MemoryThreadRecord
set_status id status node error now clock s = elim (get id s.records) [
  | none ↦ (err lifecycle_missing, s)
  | some current ↦
      let updated = with_status s.retention status node error (or_now now clock) current in
      (ok updated, record s { records = put id updated s.records })
]

abbrev pub is_outdated : ℕ → MemoryThreadRecord → Bool
is_outdated before r = not (terminal r.status) && ltb r.updated_at before

abbrev pub mark_stale : ℕ → MemoryThreadRecord → MemoryThreadRecord
mark_stale before r = if is_outdated before r then record r { is_stale = true } else r

unfoldable pub flag_stale : ℕ → LifecycleStore → List String × LifecycleStore
flag_stale before s = (
  keys_where (is_outdated before) s.records,
  record s { records = map_values (mark_stale before) s.records },
)

abbrev is_due : Option ℕ → ℕ → Bool
is_due none now = false
is_due (some t) now = leb t now

abbrev pub is_expired : ℕ → MemoryThreadRecord → Bool
is_expired now r = terminal r.status && is_due r.delete_after now

unfoldable pub expired : ℕ → LifecycleStore → List String
expired now s = keys_where (is_expired now) s.records

unfoldable pub delete : String → LifecycleStore → LifecycleStore
delete id s = record s { records = remove id s.records }

abbrev pub count_where : (MemoryThreadRecord → Bool) → Dict String MemoryThreadRecord → ℕ
count_where p [] = 0
count_where p ((k, r) ∷ d) = let rest = count_where p d in if p r then suc rest else rest

-- `_counts` and `_status_counts`
unfoldable pub status_counts : Dict String MemoryThreadRecord → MemoryStatusCounts
status_counts d = record {
  running = count_where (λ r. r.status == GraphStatus.running) d;
  waiting = count_where (λ r. r.status == waiting_for_review) d;
  retryable = count_where (λ r. r.status == failed_retryable) d;
  needs_attention = count_where (λ r. r.status == GraphStatus.needs_attention) d;
  terminal = count_where (λ r. terminal r.status) d;
  cancelled = count_where (λ r. r.status == GraphStatus.cancelled) d;
  stale = count_where (λ r. r.is_stale) d;
}

-- One call of the store.
pub data Call : Type 0 where
  create_call : String → WorkerName → ℕ → Call
  status_call : String → GraphStatus → Option WorkerName → Option WorkerError → Option ℕ → ℕ → Call
  stale_call : ℕ → Call
  delete_call : String → Call

unfoldable pub perform : Call → LifecycleStore → LifecycleStore
unfolding create set_status flag_stale delete
perform (create_call id node now) s = (create id node now s).1
perform (status_call id status node error now clock) s =
    (set_status id status node error now clock s).1
perform (stale_call before) s = (flag_stale before s).1
perform (delete_call id) s = delete id s

unfoldable pub serve : List Call → LifecycleStore → LifecycleStore
serve [] s = s
serve (c ∷ cs) s = serve cs (perform c s)
