-- ===== src/Intake/Sequence.antt =====
-- The numbers of a job's events: they leave no gap, and a reader can go on from any of them.
use funder_match.Base.{
  ==_iff, Bool, Bool-cases, List, Option, Option-cases, String, [], ap, arith, drop, false, get,
  get-map_values, get-put, inl, inr, keep, length, length-append, ltb, nat_eq, none, ok, put, refl,
  some, some-injective, string_eq, subst, suc, sym, true, zero, ℕ, ◌++◌, ◌+◌, ◌==◌, ◌∙◌, ◌∷◌, ◌≡◌,
  ◌≤◌,
}
use funder_match.Intake.Jobs.{
  queued, IntakeJob, IntakeActivityEvent, IntakeJobStore, Details, is_valid, no_jobs, new_job,
  next_event, counted, ended, restarted, is_interrupted, Ending, events_after, Call, create_call,
  append_call, finish_call, restart_call, perform, serve,
}

-- Each event is the job's own, and the numbers go up by one from `n + 1`.
abbrev pub IsNumbered : String → String → ℕ → List IntakeActivityEvent → Type 0
IsNumbered id application n [] = Unit
IsNumbered id application n (e ∷ es) =
    ((e.job_id ≡ id) × ((e.application_id ≡ application) × (e.sequence ≡ suc n)))
    × IsNumbered id application (suc n) es

abbrev pub is_none {ℓ} : {A : Type ℓ} → Option A → Bool
is_none none = true
is_none (some _) = false

-- A job and its events: the events are numbered from 1 to the job's last number, a queued job has
-- none, and a job has an end time exactly when it has ended.
pub record IsSound (id : String) (job : IntakeJob) (events : List IntakeActivityEvent)
    : Type 0 where
  pub own : job.job_id ≡ id
  pub numbered : IsNumbered id job.application_id 0 events
  pub count : length events ≡ job.last_sequence
  pub waiting : job.status ≡ queued → job.last_sequence ≡ 0
  pub active : is_none job.completed_at ≡ is_interrupted job.status

-- Every job has its list of events, and they are sound.
abbrev pub AllSound : IntakeJobStore → Type 0
AllSound s =
    (id : String) (job : IntakeJob)
    → get id s.jobs ≡ some job
    → (events : List IntakeActivityEvent) × ((get id s.events ≡ some events)
        × IsSound id job events)

IsNumbered-append :
    (id application : String) (n : ℕ) (es : List IntakeActivityEvent) (e : IntakeActivityEvent)
    → IsNumbered id application n es
    → e.job_id ≡ id
    → e.application_id ≡ application
    → e.sequence ≡ suc (n + length es)
    → IsNumbered id application n (es ++ e ∷ [])
IsNumbered-append id application n [] e h own app next = ((own, (app, omega (arith, next))), tt)
IsNumbered-append id application n (x ∷ es) e h own app next =
    (h.0, IsNumbered-append id application (suc n) es e h.1 own app (omega (arith, next)))

counted-IsSound :
    (id stage message : String) (job : IntakeJob) (events : List IntakeActivityEvent)
    (details : Details) (now : ℕ)
    → IsSound id job events
    → IsSound id (counted job now) (events ++ next_event id job stage message details now ∷ [])
counted-IsSound id stage message job events details now h = record {
  own = h.own;
  numbered =
      IsNumbered-append id job.application_id 0 events (next_event id job stage message details now)
        h.numbered refl refl (omega (arith, h.count));
  count =
      omega
        (arith, length-append events (next_event id job stage message details now ∷ []), h.count);
  waiting = λ e. ground arith;
  active = ground arith;
}

ended-IsSound :
    (id : String) (job : IntakeJob) (events : List IntakeActivityEvent) (ending : Ending)
    (code : Option String) (retryable : Option Bool) (now : ℕ)
    → IsSound id job events
    → IsSound id (ended ending code retryable now job) events
ended-IsSound id job events ending code retryable now h = record {
  own = h.own;
  numbered = h.numbered;
  count = h.count;
  waiting = ground arith;
  active = ground arith;
}

restarted-IsSound :
    (id : String) (clock : IntakeJob → ℕ) (job : IntakeJob) (events : List IntakeActivityEvent)
    → IsSound id job events
    → IsSound id (restarted clock job) events
restarted-IsSound id clock job events h = elim (Bool-cases (is_interrupted job.status)) [
  | inl stopped ↦ rw stopped (
      ended-IsSound id job events Ending.fails (some "service_restarted") (some true) (clock job) h)
  | inr done ↦ rw done h
]

put-AllSound :
    (id : String) (job : IntakeJob) (events : List IntakeActivityEvent) (s : IntakeJobStore)
    → AllSound s
    → IsSound id job events
    → AllSound (record { jobs = put id job s.jobs; events = put id events s.events })
put-AllSound id job events s h new j v found = elim (Bool-cases (id == j)) [
  | inl same ↦
      let key : id ≡ j = (==_iff id j).0 same in
      let value : job ≡ v = ground (arith, get-put j id job s.jobs) in
      (events, (ground (arith, get-put j id events s.events), rw (← key, ← value) new))
  | inr other ↦
      let (old, (e, sound)) = h j v (ground (arith, get-put j id job s.jobs)) in
      (old, (ground (arith, get-put j id events s.events), sound))
]

-- A job whose events stay as they are.
put_job-AllSound :
    (id : String) (job : IntakeJob) (events : List IntakeActivityEvent) (s : IntakeJobStore)
    → AllSound s
    → get id s.events ≡ some events
    → IsSound id job events
    → AllSound (record s { jobs = put id job s.jobs })
put_job-AllSound id job events s h same_events new j v found = elim (Bool-cases (id == j)) [
  | inl same ↦
      let key : id ≡ j = (==_iff id j).0 same in
      let value : job ≡ v = ground (arith, get-put j id job s.jobs) in
      (events, (rw (← key) same_events, rw (← key, ← value) new))
  | inr other ↦ h j v (ground (arith, get-put j id job s.jobs))
]

perform-AllSound : (c : Call) (s : IntakeJobStore) → AllSound s → AllSound (perform c s)
unfolding perform
perform-AllSound (create_call id application now) s h = elim (Option-cases (get id s.jobs)) [
  | inr (old, found) ↦ rw (found, perform) h
  | inl new ↦
      rw (new, perform)
        (put-AllSound id (new_job id application now) [] s h
          (record { own = refl; numbered = tt; count = refl; waiting = λ e. refl; active = refl }))
]
perform-AllSound (append_call id stage message details now) s h =
    elim (Option-cases (get id s.jobs)) [
      | inl missing ↦ rw (missing, perform) h
      | inr (job, found) ↦
          let (events, (e, sound)) = h id job found in
          elim (Bool-cases (is_valid details)) [
            | inr invalid ↦ rw (found, perform) (rw invalid h)
            | inl valid ↦
                rw (found, perform)
                  (rw (valid, e)
                    (put-AllSound id (counted job now) _ s h
                      (counted-IsSound id stage message job events details now sound)))
          ]
    ]
perform-AllSound (finish_call id ending code retryable now) s h =
    elim (Option-cases (get id s.jobs)) [
      | inl missing ↦ rw (missing, perform) h
      | inr (job, found) ↦
          let (events, (e, sound)) = h id job found in
          rw (found, perform)
            (put_job-AllSound id (ended ending code retryable now job) events s h e
              (ended-IsSound id job events ending code retryable now sound))
    ]
perform-AllSound (restart_call clock) s h = λ id v found. elim (Option-cases (get id s.jobs)) [
  | inl missing ↦ ground (arith, get-map_values id (restarted clock) s.jobs)
  | inr (job, there) ↦
      let value : restarted clock job ≡ v =
        ground (arith, get-map_values id (restarted clock) s.jobs) in
      let (events, (e, sound)) = h id job there in
      (events, (e, rw (← value) (restarted-IsSound id clock job events sound)))
]

serve-AllSound : (calls : List Call) (s : IntakeJobStore) → AllSound s → AllSound (serve calls s)
unfolding serve
serve-AllSound [] s h = h
serve-AllSound (c ∷ calls) s h = serve-AllSound calls (perform c s) (perform-AllSound c s h)

-- After any calls on an empty store, a job that is found has its list of events, which are its own
-- and numbered from 1 to its last number without a gap; a queued job has none; and it has an end
-- time exactly when it is neither queued nor running.
pub serve-IsSound :
    (calls : List Call) (id : String) (job : IntakeJob)
    → get id (serve calls no_jobs).jobs ≡ some job
    → (events : List IntakeActivityEvent) × ((get id (serve calls no_jobs).events ≡ some events)
        × IsSound id job events)
unfolding get
serve-IsSound calls id job found = serve-AllSound calls no_jobs (λ i j e. cc) id job found

keep_later :
    (id application : String) (n k : ℕ) (es : List IntakeActivityEvent)
    → IsNumbered id application n es
    → k ≤ n
    → keep (λ e. ltb k e.sequence) es ≡ es
keep_later id application n k [] h le = refl
keep_later id application n k (e ∷ es) h le = ground (arith, keep_later id application (suc n) k es)

pub keep-drop :
    (id application : String) (n k : ℕ) (es : List IntakeActivityEvent)
    → IsNumbered id application n es
    → keep (λ e. ltb (n + k) e.sequence) es ≡ drop k es
keep-drop id application n zero es h = keep_later id application n (n + 0) es h (omega arith)
keep-drop id application n (suc k) [] h = refl
keep-drop id application n (suc k) (e ∷ es) h =
    let shift : suc n + k ≡ n + suc k = omega arith in
    let later : keep (λ x. ltb (n + suc k) x.sequence) es ≡ drop k es =
      subst (λ m. keep (λ x. ltb m x.sequence) es ≡ drop k es) shift
        (keep-drop id application (suc n) k es h.1) in
    ground arith

-- After any calls, a reader that has seen the first `after` events of a job gets exactly the rest of
-- them, in order.
pub events_after-drop :
    (calls : List Call) (id : String) (job : IntakeJob) (events : List IntakeActivityEvent)
    (after : ℕ)
    → get id (serve calls no_jobs).jobs ≡ some job
    → get id (serve calls no_jobs).events ≡ some events
    → events_after id after (serve calls no_jobs) ≡ ok (drop after events)
unfolding events_after
events_after-drop calls id job events after found listed =
    let (others, (e, sound)) = serve-IsSound calls id job found in
    let same : others ≡ events = some-injective others events (sym e ∙ listed) in
    let rest = keep-drop id job.application_id 0 after events (rw same at sound.numbered) in
    rw (found, listed, events_after)
      (ap (λ t. ok t)
        (subst (λ m. keep (λ x. ltb m x.sequence) events ≡ drop after events) (omega arith) rest))
