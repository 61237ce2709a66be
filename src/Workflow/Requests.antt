-- ===== src/Workflow/Requests.antt =====
-- The four commands in one form: a role test, a test of the restart stage, and a transition.
use funder_match.Base.{
  Bool, Exec, Option, String, arith, contains, err, false, if◌then◌else◌, nat_eq, none, not, ok,
  some, some-injective, string_eq, subst, true, ℕ, ◌≡◌, ◌≢◌,
}
use funder_match.Workflow.Schema.{
  precedent_written, human_reviewer, ActorRole, WorkflowRecord, AuditEvent, TransitionResult,
  WorkflowError, invalid_transition, authorization, conflict, Stamp, role_eq, state_eq,
}
use funder_match.Workflow.Repository
use funder_match.Workflow.Repository.{Repository, Transition, CommandKey, key_eq, log, store}
use funder_match.Workflow.Trail.{Moves}
use funder_match.Workflow.Moves.{advance-Moves, decide-Moves, written-Moves, reopen-Moves}
use funder_match.Workflow.Transitions.{
  advance_transition, decide_transition, written_transition, reopen_transition, is_supervisor,
}
use funder_match.Workflow.Service.{
  Call, create_call, advance_call, decide_call, written_call, reopen_call, perform,
  advance_pipeline, decide, mark_precedent_written, reopen_after_send_back,
}

pub record Request : Type 0 where
  pub application : String
  pub command : String
  pub allowed : Bool
  pub unresolved : Bool
  pub expected_version : ℕ
  pub body : Stamp → Transition

abbrev pub request : Call → Option Request
request (create_call _ _ _ _) = none
request (advance_call id c a) = some (record {
  application = id;
  command = c.command_id;
  allowed = contains ActorRole.pipeline a.roles;
  unresolved = false;
  expected_version = c.expected_version;
  body = λ t. advance_transition t c a;
})
request (decide_call id c a) = some (record {
  application = id;
  command = c.command_id;
  allowed = contains human_reviewer a.roles;
  unresolved = false;
  expected_version = c.expected_version;
  body = λ t. decide_transition t c a;
})
request (written_call id c x a) = some (record {
  application = id;
  command = c.command_id;
  allowed = contains ActorRole.pipeline a.roles;
  unresolved = false;
  expected_version = c.expected_version;
  body = λ t. written_transition t c x a;
})
request (reopen_call id c a) = some (record {
  application = id;
  command = c.command_id;
  allowed = contains human_reviewer a.roles;
  unresolved = is_supervisor c.restart_stage;
  expected_version = c.expected_version;
  body = λ t. reopen_transition t c a;
})

abbrev pub key : Request → CommandKey
key q = record { application = q.application; command = q.command }

abbrev pub submit : Stamp → Request → Exec Repository WorkflowError TransitionResult
submit t q r =
    if not q.allowed
    then (err authorization, r)
    else if q.unresolved
    then (err invalid_transition, r)
    else Repository.transition q.application q.command (q.body t) r

-- Every call but `create` is the request that it carries.
pub perform-submit :
    (t : Stamp) (c : Call) (q : Request) (r : Repository)
    → request c ≡ some q
    → perform t c r ≡ submit t q r
unfolding perform advance_pipeline decide mark_precedent_written reopen_after_send_back
perform-submit t (create_call _ _ _ _) q r h = cc
perform-submit t (advance_call id c a) q r h = ground arith
perform-submit t (decide_call id c a) q r h = ground arith
perform-submit t (written_call id c x a) q r h = ground arith
perform-submit t (reopen_call id c a) q r h = ground arith

-- A stale version is refused by every transition.
pub body-conflict :
    (t : Stamp) (c : Call) (q : Request) (w : WorkflowRecord) (n : ℕ)
    → request c ≡ some q
    → w.version ≢ q.expected_version
    → q.body t w n ≡ err conflict
unfolding advance_transition decide_transition written_transition reopen_transition
body-conflict t (create_call _ _ _ _) q w n h stale = cc
body-conflict t (advance_call id c a) q w n h stale = ground arith
body-conflict t (decide_call id c a) q w n h stale = ground arith
body-conflict t (written_call id c x a) q w n h stale = ground arith
body-conflict t (reopen_call id c a) q w n h stale = ground arith

abbrev pub IsLawful : Transition → Type 0
IsLawful f = (w w' : WorkflowRecord) (n : ℕ) (e : AuditEvent) → f w n ≡ ok (w', e) → Moves w n w' e

abbrev BodyIsLawful : Stamp → Request → Type 0
BodyIsLawful t q = q.allowed ≡ true → IsLawful (q.body t)

-- The transition of an allowed request makes a move of the specification.
pub body-IsLawful : (t : Stamp) (c : Call) (q : Request) → request c ≡ some q → BodyIsLawful t q
body-IsLawful t (create_call _ _ _ _) q h = cc
body-IsLawful t (advance_call id c a) q h =
    subst (BodyIsLawful t) (some-injective _ _ h) (λ p w w' n e. advance-Moves t c a w w' n e p)
body-IsLawful t (decide_call id c a) q h =
    subst (BodyIsLawful t) (some-injective _ _ h) (λ p w w' n e. decide-Moves t c a w w' n e p)
body-IsLawful t (written_call id c x a) q h =
    subst (BodyIsLawful t) (some-injective _ _ h) (λ p w w' n e. written-Moves t c x a w w' n e p)
body-IsLawful t (reopen_call id c a) q h =
    subst (BodyIsLawful t) (some-injective _ _ h) (λ p w w' n e. reopen-Moves t c a w w' n e p)

-- No command moves a workflow whose precedent is written.
pub body-final :
    (t : Stamp) (c : Call) (q : Request) (w : WorkflowRecord) (n : ℕ)
    (x : WorkflowRecord × AuditEvent)
    → request c ≡ some q
    → w.state ≡ precedent_written
    → q.body t w n ≢ ok x
unfolding advance_transition decide_transition written_transition reopen_transition
body-final t (create_call _ _ _ _) q w n x h final e = cc
body-final t (advance_call id c a) q w n x h final e = ground arith
body-final t (decide_call id c a) q w n x h final e = ground arith
body-final t (written_call id c y a) q w n x h final e = ground arith
body-final t (reopen_call id c a) q w n x h final e = ground arith
