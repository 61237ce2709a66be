-- ===== src/Intake/Restart.antt =====
-- `fail_interrupted` and `finish`, src/fundermatch/intake_jobs.py: how jobs end.
use funder_match.Base.{
  Dict, List, String, [], ap, arith, drop-length, get, get-map_values, get-put, keep, keep-append,
  length, ltb, map_values, nat_eq, ok, put, refl, some, string_eq, subst, true, ℕ, ◌++◌, ◌+◌, ◌∙◌,
  ◌∷◌, ◌≡◌, ◌≢◌, ◌⊎◌,
}
use funder_match.Intake.Jobs.{
  IntakeJobStatus, IntakeJob, IntakeActivityEvent, IntakeJobStore, Details, is_valid, next_event,
  counted, restarted, is_interrupted, count_jobs, append, fail_interrupted, events_after, Call,
  serve, no_jobs,
}
use funder_match.Intake.Sequence.{IsSound, serve-IsSound, keep-drop}

abbrev interrupted : Dict String IntakeJob → ℕ
interrupted d = count_jobs (λ job. is_interrupted job.status) d

none_left :
    (clock : IntakeJob → ℕ) (d : Dict String IntakeJob)
    → interrupted (map_values (restarted clock) d) ≡ 0
none_left clock [] = refl
none_left clock ((k, job) ∷ d) = ground (arith, none_left clock d)

-- After a restart no job is queued or running any more; a job that was is failed, to be retried, at
-- the time of the restart, and otherwise as before; every other job, and all events, are as before.
pub fail_interrupted_exact :
    (clock : IntakeJob → ℕ) (s : IntakeJobStore) (id : String) (job : IntakeJob)
    → get id s.jobs ≡ some job
    → let t = (fail_interrupted clock s).1 in
      (new : IntakeJob) × ((get id t.jobs ≡ some new)
        × ((new.status ≢ IntakeJobStatus.queued)
            × ((new.status ≢ IntakeJobStatus.running)
                × (((job.status ≡ IntakeJobStatus.queued) ⊎ (job.status ≡ IntakeJobStatus.running)
                      → new ≡ record job {
                        status = IntakeJobStatus.failed;
                        updated_at = clock job;
                        completed_at = some (clock job);
                        error_code = some "service_restarted";
                        retryable = some true;
                      })
                    × ((job.status ≢ IntakeJobStatus.queued
                          → job.status ≢ IntakeJobStatus.running
                          → new ≡ job)
                        × (t.events ≡ s.events))))))
unfolding fail_interrupted
fail_interrupted_exact clock s id job found = (
  restarted clock job,
  (
    rw (get-map_values, found) refl,
    (λ h. ground arith, (λ h. ground arith, (λ h. ground arith, ((λ h i. ground arith), refl)))),
  ),
)

-- A job that has ended stays as it is when the service restarts, and a second restart changes
-- nothing at all.
pub fail_interrupted-twice :
    (clock later : IntakeJob → ℕ) (s : IntakeJobStore)
    → fail_interrupted later (fail_interrupted clock s).1 ≡ (0, (fail_interrupted clock s).1)
unfolding fail_interrupted
fail_interrupted-twice clock later s = rw (none_left clock s.jobs, again s.jobs) refl
  where
    again :
        (d : Dict String IntakeJob)
        → map_values (restarted later) (map_values (restarted clock) d)
          ≡ map_values (restarted clock) d
    again [] = refl
    again ((k, job) ∷ d) = ground (arith, again d)

append-stored :
    (id stage message : String) (details : Details) (now : ℕ) (s : IntakeJobStore) (job : IntakeJob)
    (events : List IntakeActivityEvent)
    → get id s.jobs ≡ some job
    → get id s.events ≡ some events
    → is_valid details ≡ true
    → append id stage message details now s ≡ (
      ok (next_event id job stage message details now),
      record {
        jobs = put id (counted job now) s.jobs;
        events = put id (events ++ next_event id job stage message details now ∷ []) s.events;
      },
    )
unfolding append
append-stored id stage message details now s job events found listed valid =
    rw (found, append) (rw (valid, listed) refl)

events_after-put :
    (id : String) (after : ℕ) (job : IntakeJob) (events : List IntakeActivityEvent)
    (s : IntakeJobStore)
    → events_after id after (record { jobs = put id job s.jobs; events = put id events s.events })
      ≡ ok (keep (λ e. ltb after e.sequence) events)
unfolding events_after
events_after-put id after job events s =
    let own : get id (put id job s.jobs) ≡ some job = ground (arith, get-put id id job s.jobs) in
    let its : get id (put id events s.events) ≡ some events =
      ground (arith, get-put id id events s.events) in
    rw (own, its, events_after) refl

only_next :
    (id : String) (job : IntakeJob) (events : List IntakeActivityEvent) (e : IntakeActivityEvent)
    → IsSound id job events
    → e.sequence ≡ job.last_sequence + 1
    → keep (λ x. ltb job.last_sequence x.sequence) (events ++ e ∷ []) ≡ e ∷ []
only_next id job events e sound next =
    let seen : keep (λ x. ltb job.last_sequence x.sequence) events ≡ [] =
      subst (λ n. keep (λ x. ltb n x.sequence) events ≡ []) sound.count
        (subst (λ n. keep (λ x. ltb n x.sequence) events ≡ []) (omega arith)
          (keep-drop id job.application_id 0 (length events) events sound.numbered
            ∙ drop-length events)) in
    keep-append (λ x. ltb job.last_sequence x.sequence) events (e ∷ []) ∙ rw seen (ground arith)

-- After any calls, an event with valid details is appended to a job that is there as its next one:
-- a reader who has all the events before it gets that event and no other.
pub append-events_after :
    (calls : List Call) (id stage message : String) (details : Details) (now : ℕ) (job : IntakeJob)
    → get id (serve calls no_jobs).jobs ≡ some job
    → is_valid details ≡ true
    → let (r, t) = append id stage message details now (serve calls no_jobs) in
      (r ≡ ok (next_event id job stage message details now))
      × (events_after id job.last_sequence t
          ≡ ok (next_event id job stage message details now ∷ []))
append-events_after calls id stage message details now job found valid =
    let (events, (listed, sound)) = serve-IsSound calls id job found in
    let e = next_event id job stage message details now in
    let step =
      append-stored id stage message details now (serve calls no_jobs) job events found listed
        valid in
    (
      ap (λ t. t.0) step,
      ap (λ t. events_after id job.last_sequence t.1) step
          ∙ events_after-put id job.last_sequence (counted job now) (events ++ e ∷ [])
              (serve calls no_jobs)
          ∙ ap (λ t. ok t) (only_next id job events e sound refl),
    )
