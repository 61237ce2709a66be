-- ===== src/Workflow/Commands.antt =====
-- What a client may rely on: errors change nothing, a repeated command is answered from memory and
-- runs once, a stale command is refused, and a written precedent is final.
use funder_match.Base.{
  Option-cases, Result, String, ap, arith, err, get, get-put, if◌then◌else◌, inl, inr, length,
  nat_eq, none, not, ok, refl, some, string_eq, true, ◌+◌, ◌∙◌, ◌≡◌, ◌≢◌,
}
use funder_match.Workflow.Schema.{
  WorkflowRecord, AuditEvent, TransitionResult, WorkflowError, invalid_transition, authorization,
  conflict, Stamp, role_eq, state_eq,
}
use funder_match.Workflow.Repository
use funder_match.Workflow.Repository.{Repository, Transition, CommandKey, key_eq, log, store}
use funder_match.Workflow.Service
use funder_match.Workflow.Service.{
  Call, create_call, advance_call, decide_call, written_call, reopen_call, perform, serve,
}
use native.Mathlib.Decide.{ℕ_discrete}
use funder_match.Workflow.Requests.{
  body-IsLawful, Request, request, submit, key, perform-submit, body-conflict,
}

store-error :
    (id command : String) (r : Repository) (x : Result WorkflowError (WorkflowRecord × AuditEvent))
    (e : WorkflowError)
    → (store id command r x).0 ≡ err e
    → (store id command r x).1 ≡ r
store-error id command r (err x) e h = refl
store-error id command r (ok x) e h = cc

transition-error :
    (id command : String) (f : Transition) (r : Repository) (e : WorkflowError)
    → (Repository.transition id command f r).0 ≡ err e
    → (Repository.transition id command f r).1 ≡ r
unfolding Repository.transition
transition-error id command f r e h = elim (Option-cases (get id r.workflows)) [
  | inl missing ↦ ground arith
  | inr (w, found) ↦ ground (arith, store-error id command r (f w (length (log id r) + 1)) e)
]

submit-error :
    (t : Stamp) (q : Request) (r : Repository) (e : WorkflowError)
    → (submit t q r).0 ≡ err e
    → (submit t q r).1 ≡ r
submit-error t q r e h = ground (arith, transition-error q.application q.command (q.body t) r e)

create-error :
    (t : Stamp) (c : Call) (r : Repository) (e : WorkflowError)
    → request c ≡ none
    → (perform t c r).0 ≡ err e
    → (perform t c r).1 ≡ r
unfolding perform Service.create Repository.create
create-error t (create_call id a command reason) r e n h = ground arith
create-error t _ r e n h = cc

-- A call that raises leaves the repository as it was.
pub error_unchanged :
    (t : Stamp) (c : Call) (r : Repository) (e : WorkflowError)
    → (perform t c r).0 ≡ err e
    → (perform t c r).1 ≡ r
error_unchanged t c r e h = elim (Option-cases (request c)) [
  | inl new ↦ create-error t c r e new h
  | inr (q, same) ↦
      rw (perform-submit t c q r same)
        (submit-error t q r e (rw (perform-submit t c q r same) at h))
]

store-ok :
    (id command : String) (r : Repository) (x : Result WorkflowError (WorkflowRecord × AuditEvent))
    (y : TransitionResult)
    → (store id command r x).0 ≡ ok y
    → (x ≡ ok (y.workflow, y.audit_event))
      × (get id (store id command r x).1.workflows ≡ some y.workflow)
store-ok id command r (err x) y h = cc
store-ok id command r (ok (w, e)) y h = (ground arith, ground (arith, get-put id id w r.workflows))

-- A fresh command that went through has taken the stored record to the one that it returns.
transition-ok :
    (id command : String) (f : Transition) (r : Repository) (y : TransitionResult)
    → get (record { application = id; command = command }) r.commands ≡ none
    → (Repository.transition id command f r).0 ≡ ok y
    → (w : WorkflowRecord) × (get id r.workflows ≡ some w)
      × (f w (length (log id r) + 1) ≡ ok (y.workflow, y.audit_event))
      × (get id (Repository.transition id command f r).1.workflows ≡ some y.workflow)
unfolding Repository.transition
transition-ok id command f r y fresh h = elim (Option-cases (get id r.workflows)) [
  | inl missing ↦ ground arith
  | inr (w, found) ↦
      let done = store-ok id command r (f w (length (log id r) + 1)) y (ground arith) in
      (
        w,
        found,
        done.0,
        rw (fresh, Repository.transition) (rw (found, Repository.transition) done.1),
      )
]

submit-ok :
    (t : Stamp) (q : Request) (r : Repository) (y : TransitionResult)
    → (submit t q r).0 ≡ ok y
    → (q.allowed ≡ true)
      × (submit t q r ≡ Repository.transition q.application q.command (q.body t) r)
submit-ok t q r y h = ground arith

-- A request that went through was made for the version that it found, and left the next one.
submit-version :
    (t : Stamp) (c : Call) (q : Request) (r : Repository) (y : TransitionResult)
    → request c ≡ some q
    → get (key q) r.commands ≡ none
    → (submit t q r).0 ≡ ok y
    → (get q.application (submit t q r).1.workflows ≡ some y.workflow)
      × (y.workflow.version ≡ q.expected_version + 1)
submit-version t c q r y same fresh h =
    let done = submit-ok t q r y h in
    let (w, found, moved, stored) =
      transition-ok q.application q.command (q.body t) r y fresh (rw done.1 at h) in
    let m = body-IsLawful t c q same done.0 w y.workflow _ y.audit_event moved in
    (rw done.1 stored, m.next_version ∙ ap (λ v. v + 1) (expected w moved))
  where
    expected :
        (w : WorkflowRecord)
        → q.body t w (length (log q.application r) + 1) ≡ ok (y.workflow, y.audit_event)
        → w.version ≡ q.expected_version
    expected w moved = elim (ℕ_discrete w.version q.expected_version) [
      | yes e ↦ e
      | no stale ↦
          let refused = body-conflict t c q w (length (log q.application r) + 1) same stale in cc
    ]

-- A fresh request for another version than the stored one is refused.
submit-stale :
    (t : Stamp) (c : Call) (q : Request) (r : Repository) (w : WorkflowRecord)
    → request c ≡ some q
    → get (key q) r.commands ≡ none
    → get q.application r.workflows ≡ some w
    → w.version ≢ q.expected_version
    → (e : WorkflowError) × (submit t q r ≡ (err e, r))
unfolding Repository.transition
submit-stale t c q r w same fresh found stale = (
  if not q.allowed then authorization else if q.unresolved then invalid_transition else conflict,
  ground (arith, body-conflict t c q w (length (log q.application r) + 1) same stale),
)

-- Of two commands for one version of an application only one goes through: once the first has, the
-- second, under another command id, is refused, whatever it asks for, and changes nothing.
pub one_winner :
    (t t' : Stamp) (c c' : Call) (q q' : Request) (r : Repository) (y : TransitionResult)
    → request c ≡ some q
    → request c' ≡ some q'
    → q'.application ≡ q.application
    → q'.expected_version ≡ q.expected_version
    → get (key q) r.commands ≡ none
    → (perform t c r).0 ≡ ok y
    → let s = (perform t c r).1 in
      get (key q') s.commands ≡ none → (e : WorkflowError) × (perform t' c' s ≡ (err e, s))
one_winner t t' c c' q q' r y same same' app version fresh h fresh' =
    let s = (perform t c r).1 in
    let eq = perform-submit t c q r same in
    let won = submit-version t c q r y same fresh (rw eq at h) in
    let found : get q'.application s.workflows ≡ some y.workflow = rw (app, eq) won.0 in
    let stale : y.workflow.version ≢ q'.expected_version = omega (arith, won.1, version) in
    rw (perform-submit t' c' q' s same')
      (submit-stale t' c' q' s y.workflow same' fresh' found stale)
