-- ===== src/Intake/Tests.antt =====
-- A few calls of the job store, and its properties applied to them.
use funder_match.Base.{
  List, String, String-discrete, [], get, nat_eq, none, ok, put, refl, some, string_eq, true, ℕ,
  ◌∷◌, ◌≡◌, ◌≢◌, ◌⊎◌,
}
use funder_match.Intake.Jobs.{
  IntakeJobStatus, IntakeJob, IntakeActivityEvent, Details, Call, create_call, append_call, serve,
  perform, no_jobs, create, append, fail_interrupted, events_after, next_event,
}
use funder_match.Intake.Sequence.{IsSound, serve-IsSound, events_after-drop}
use funder_match.Intake.Restart.{
  fail_interrupted_exact, append-events_after, fail_interrupted-twice,
}

abbrev no_details : Details
no_details = record {
  document_name = none;
  document_index = none;
  document_count = none;
  completed = none;
  total = none;
  metric = none;
  worker = none;
  attempt = some 1;
  checkpoint_id = none;
  guardrail_code = none;
  resume_duration_ms = none;
  error_code = none;
  retryable = none;
}

abbrev sample_calls : List Call
sample_calls =
    create_call "j" "a" 1
    ∷ append_call "j" "upload" "Uploaded" no_details 2
    ∷ append_call "j" "eligibility" "Checked" no_details 3
    ∷ create_call "k" "b" 4
    ∷ []

abbrev sample_job : IntakeJob
sample_job = record {
  job_id = "j";
  application_id = "a";
  status = IntakeJobStatus.running;
  created_at = 1;
  updated_at = 3;
  completed_at = none;
  last_sequence = 2;
  error_code = none;
  retryable = none;
}

abbrev sample_event : ℕ → String → String → ℕ → IntakeActivityEvent
sample_event n stage message now = record {
  job_id = "j";
  application_id = "a";
  sequence = n;
  stage = stage;
  message = message;
  occurred_at = now;
  details = no_details;
}

abbrev sample_events : List IntakeActivityEvent
sample_events = sample_event 1 "upload" "Uploaded" 2 ∷ sample_event 2 "eligibility" "Checked" 3 ∷ []

found_job : get "j" (serve sample_calls no_jobs).jobs ≡ some sample_job
unfolding serve perform create append get put String-discrete
found_job = refl

listed_events : get "j" (serve sample_calls no_jobs).events ≡ some sample_events
unfolding serve perform create append get put String-discrete
listed_events = refl

serve-IsSound_example :
    (events : List IntakeActivityEvent) × ((get "j" (serve sample_calls no_jobs).events
        ≡ some events)
      × IsSound "j" sample_job events)
serve-IsSound_example = serve-IsSound sample_calls "j" sample_job found_job

events_after-drop_example :
    events_after "j" 1 (serve sample_calls no_jobs)
    ≡ ok (sample_event 2 "eligibility" "Checked" 3 ∷ [])
events_after-drop_example =
    events_after-drop sample_calls "j" sample_job sample_events 1 found_job listed_events

fail_interrupted_exact_example :
    let t = (fail_interrupted (λ job. 9) (serve sample_calls no_jobs)).1 in
    (new : IntakeJob) × ((get "j" t.jobs ≡ some new)
      × ((new.status ≢ IntakeJobStatus.queued)
          × ((new.status ≢ IntakeJobStatus.running)
              × (((sample_job.status ≡ IntakeJobStatus.queued)
                      ⊎ (sample_job.status ≡ IntakeJobStatus.running)
                    → new ≡ record sample_job {
                      status = IntakeJobStatus.failed;
                      updated_at = 9;
                      completed_at = some 9;
                      error_code = some "service_restarted";
                      retryable = some true;
                    })
                  × ((sample_job.status ≢ IntakeJobStatus.queued
                        → sample_job.status ≢ IntakeJobStatus.running
                        → new ≡ sample_job)
                      × (t.events ≡ (serve sample_calls no_jobs).events))))))
fail_interrupted_exact_example =
    fail_interrupted_exact (λ job. 9) (serve sample_calls no_jobs) "j" sample_job found_job

fail_interrupted-twice_example :
    fail_interrupted (λ job. 10) (fail_interrupted (λ job. 9) (serve sample_calls no_jobs)).1
    ≡ (0, (fail_interrupted (λ job. 9) (serve sample_calls no_jobs)).1)
fail_interrupted-twice_example =
    fail_interrupted-twice (λ job. 9) (λ job. 10) (serve sample_calls no_jobs)

append-events_after_example :
    let (r, t) = append "j" "guardrails" "Verified" no_details 5 (serve sample_calls no_jobs) in
    (r ≡ ok (next_event "j" sample_job "guardrails" "Verified" no_details 5))
    × (events_after "j" 2 t
        ≡ ok (next_event "j" sample_job "guardrails" "Verified" no_details 5 ∷ []))
append-events_after_example =
    append-events_after sample_calls "j" "guardrails" "Verified" no_details 5 sample_job found_job
      refl
