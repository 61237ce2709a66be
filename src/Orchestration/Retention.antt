-- ===== src/Orchestration/Retention.antt =====
-- How long the lifecycle store keeps a thread, and which threads it flags and counts.
use funder_match.Base.{
  ==_iff, Bool, Bool-cases, Dict, IsDict, List, Option, Option-cases, String, [], arith, contains,
  contains-keys_where, false, get, get-map_values, get-put, get-remove, if◌then◌else◌, inl, inr,
  length, ltb, map_values-IsDict, nat_eq, none, not, put, put-IsDict, refl, remove-IsDict, some,
  string_eq, true, ℕ, ◌&&◌, ◌+◌, ◌==◌, ◌||◌, ◌↔◌, ◌∷◌, ◌≡◌, ◌≤◌,
}
use funder_match.Orchestration.Schema.{GraphStatus, status_eq, terminal, WorkerName, WorkerError}
use funder_match.Orchestration.Lifecycle.{
  MemoryThreadRecord, LifecycleStore, Call, create_call, status_call, stale_call, delete_call,
  perform, serve, expired, flag_stale, is_expired, is_outdated, mark_stale, status_counts,
  with_status, new_thread, or_now,
}

abbrev pub empty : ℕ → LifecycleStore
empty retention = record { retention = retention; records = [] }

abbrev pub is_some {ℓ} : {A : Type ℓ} → Option A → Bool
is_some none = false
is_some (some _) = true

-- A thread under its own key: it has an end time exactly when its status is terminal, that time is
-- its last change, its deadline lies the retention period later, and a finished thread is not stale.
pub record IsKept (retention : ℕ) (id : String) (r : MemoryThreadRecord) : Type 0 where
  pub own_thread : r.thread_id ≡ id
  pub own_application : r.application_id ≡ id
  pub ended : r.terminal_at ≡ (if terminal r.status then some r.updated_at else none)
  pub deadline :
      r.delete_after ≡ (if terminal r.status then some (r.updated_at + retention) else none)
  pub fresh : terminal r.status ≡ true → r.is_stale ≡ false

pub record IsTidy (retention : ℕ) (s : LifecycleStore) : Type 0 where
  pub same_retention : s.retention ≡ retention
  pub distinct : IsDict s.records
  pub kept :
      (id : String) (r : MemoryThreadRecord) → get id s.records ≡ some r → IsKept retention id r

put-IsTidy :
    (retention : ℕ) (id : String) (r : MemoryThreadRecord) (s : LifecycleStore)
    → IsTidy retention s
    → IsKept retention id r
    → IsTidy retention (record s { records = put id r s.records })
put-IsTidy retention id r s h new = record {
  same_retention = h.same_retention;
  distinct = put-IsDict id r s.records h.distinct;
  kept = λ j v found. elim (Bool-cases (id == j)) [
    | inl same ↦
        let key : id ≡ j = (==_iff id j).0 same in
        let value : r ≡ v = ground (arith, get-put j id r s.records) in rw (← key, ← value) new
    | inr other ↦ h.kept j v (ground (arith, get-put j id r s.records))
  ];
}

with_status-IsKept :
    (retention : ℕ) (id : String) (status : GraphStatus) (worker : Option WorkerName)
    (error : Option WorkerError) (t : ℕ) (r : MemoryThreadRecord)
    → IsKept retention id r
    → IsKept retention id (with_status retention status worker error t r)
with_status-IsKept retention id status worker error t r h = ground arith

mark_stale-IsKept :
    (retention : ℕ) (id : String) (before : ℕ) (r : MemoryThreadRecord)
    → IsKept retention id r
    → IsKept retention id (mark_stale before r)
mark_stale-IsKept retention id before r h = ground arith

-- Every call keeps the store tidy.
perform-IsTidy :
    (retention : ℕ) (c : Call) (s : LifecycleStore)
    → IsTidy retention s
    → IsTidy retention (perform c s)
unfolding perform
perform-IsTidy retention (create_call id worker now) s h = elim (Option-cases (get id s.records)) [
  | inr (old, found) ↦ rw (found, perform) h
  | inl new ↦
      rw (new, perform) (put-IsTidy retention id (new_thread id worker now) s h (ground arith))
]
perform-IsTidy retention (status_call id status worker error now clock) s h =
    elim (Option-cases (get id s.records)) [
      | inl missing ↦ rw (missing, perform) h
      | inr (current, found) ↦
          rw (found, perform)
            (put-IsTidy retention id
              (with_status s.retention status worker error (or_now now clock) current) s h
              (rw h.same_retention (
                with_status-IsKept retention id status worker error (or_now now clock) current
                  (h.kept id current found))))
    ]
perform-IsTidy retention (stale_call before) s h = record {
  same_retention = h.same_retention;
  distinct = map_values-IsDict (mark_stale before) s.records h.distinct;
  kept = λ id v found. elim (Option-cases (get id s.records)) [
    | inl missing ↦ ground (arith, get-map_values id (mark_stale before) s.records)
    | inr (old, e) ↦
        let value : mark_stale before old ≡ v =
          ground (arith, get-map_values id (mark_stale before) s.records) in
        rw (← value) (mark_stale-IsKept retention id before old (h.kept id old e))
  ];
}
perform-IsTidy retention (delete_call id) s h = record {
  same_retention = h.same_retention;
  distinct = remove-IsDict id s.records h.distinct;
  kept = λ j v found. h.kept j v (ground (arith, get-remove j id s.records));
}

serve_from-IsTidy :
    (retention : ℕ) (calls : List Call) (s : LifecycleStore)
    → IsTidy retention s
    → IsTidy retention (serve calls s)
unfolding serve
serve_from-IsTidy retention [] s h = h
serve_from-IsTidy retention (c ∷ calls) s h =
    serve_from-IsTidy retention calls (perform c s) (perform-IsTidy retention c s h)

pub serve-IsTidy :
    (retention : ℕ) (calls : List Call) → IsTidy retention (serve calls (empty retention))
unfolding get
serve-IsTidy retention calls =
    serve_from-IsTidy retention calls (empty retention)
      (record { same_retention = refl; distinct = tt; kept = λ id r e. cc })

-- After any calls on an empty store, each thread that is found stands under its own key, has an end
-- time exactly when its status is terminal, namely the time of its last change, has its deadline the
-- retention period after that, and is not stale once it has ended.
pub serve-IsKept :
    (retention : ℕ) (calls : List Call) (id : String) (r : MemoryThreadRecord)
    → get id (serve calls (empty retention)).records ≡ some r
    → IsKept retention id r
serve-IsKept retention calls id r found = (serve-IsTidy retention calls).kept id r found

-- After any calls, a thread is listed as expired exactly when it has ended and at least the
-- retention period has passed since.
pub expired_iff :
    (retention now : ℕ) (calls : List Call) (id : String) (r : MemoryThreadRecord)
    → get id (serve calls (empty retention)).records ≡ some r
    → (contains id (expired now (serve calls (empty retention))) ≡ true)
      ↔ ((terminal r.status ≡ true) × (r.updated_at + retention ≤ now))
unfolding expired
expired_iff retention now calls id r found =
    let tidy = serve-IsTidy retention calls in
    let kept = tidy.kept id r found in
    let listed = contains-keys_where id (is_expired now) _ tidy.distinct in
    rw (listed, found) (λ h. ground arith, λ h. ground arith)

-- Flagging stale threads marks and lists those that have not ended and have not changed since the
-- given time, lists no other one, and changes nothing else.
pub flag_stale_exact :
    (retention before : ℕ) (calls : List Call) (id : String) (r : MemoryThreadRecord)
    → get id (serve calls (empty retention)).records ≡ some r
    → let (ids, s) = flag_stale before (serve calls (empty retention)) in
      let old = not (terminal r.status) && ltb r.updated_at before in
      (contains id ids ≡ old)
      × (get id s.records ≡ some (record r { is_stale = old || r.is_stale }))
unfolding flag_stale
flag_stale_exact retention before calls id r found =
    let tidy = serve-IsTidy retention calls in
    (
      rw (contains-keys_where id (is_outdated before) _ tidy.distinct, found) refl,
      rw (get-map_values, found) (ground arith),
    )

-- The statuses running, waiting, retryable, needs-attention and terminal count every thread once,
-- and cancelled threads are among the terminal ones.
pub status_counts-partition :
    (d : Dict String MemoryThreadRecord)
    → let c = status_counts d in
      (c.running + c.waiting + c.retryable + c.needs_attention + c.terminal ≡ length d)
      × (c.cancelled ≤ c.terminal)
unfolding status_counts
status_counts-partition [] = omega arith
status_counts-partition ((k, r) ∷ d) = ground (arith, status_counts-partition d)
