-- ===== src/Agents/Replay.antt =====
-- What a second advance to the same state does: its command is the first one's.
use funder_match.Base.{
  List, Option, String, arith, contains, false, get, leb, nat_eq, ok, refl, some, string_eq, subst,
  true, ◌<◌, ◌∙◌, ◌≡◌,
}
use funder_match.Json.{Payload}
use funder_match.Workflow.Schema.{
  WorkflowState, ActorRole, role_eq, ActorClaims, PipelineAdvanceCommand, WorkflowRecord,
  TransitionResult, Stamp,
}
use funder_match.Workflow.Repository.{Repository, CommandKey, key_eq, empty}
use funder_match.Workflow.Service
use funder_match.Workflow.Service.{Call, advance_call, perform, serve}
use funder_match.Workflow.Requests.{Request, key, perform-submit}
use funder_match.Workflow.Memory.{
  serve-Remembers, perform-Remembers, submit-recorded, empty-IsKnown,
}
use funder_match.Workflow.Transitions.{advance_transition}
use funder_match.Workflow.Repository
use funder_match.Agents.Advance.{index, ensure_workflow, advance_command, advance_from, advance}

-- An advance whose command is on record is answered from memory.
advance_pipeline-replay :
    (t : Stamp) (id : String) (c : PipelineAdvanceCommand) (a : ActorClaims) (r : Repository)
    (y : TransitionResult)
    → get (record { application = id; command = c.command_id }) r.commands ≡ some y
    → contains ActorRole.pipeline a.roles ≡ true
    → Service.advance_pipeline t id c a r ≡ (ok y, r)
unfolding Service.advance_pipeline Repository.transition
advance_pipeline-replay t id c a r y found role = rw role (rw (found, Repository.transition) refl)

advance-ensure_workflow :
    (u : Stamp) (ids : String → WorkflowState → String) (b : ActorClaims) (id : String)
    (target : WorkflowState) (x : String) (p : Option Payload) (s : Repository) (w : WorkflowRecord)
    → ensure_workflow u b id x s ≡ (ok w, s)
    → advance u ids b id target x p s ≡ advance_from u ids b id target p w s
unfolding advance
advance-ensure_workflow u ids b id target x p s w ready = rw ready refl

advance-replay :
    (u : Stamp) (ids : String → WorkflowState → String) (b : ActorClaims) (id : String)
    (target : WorkflowState) (x : String) (p : Option Payload) (s : Repository) (w : WorkflowRecord)
    (y : TransitionResult)
    → get id s.workflows ≡ some w
    → get (record { application = id; command = ids id target }) s.commands ≡ some y
    → contains ActorRole.pipeline b.roles ≡ true
    → leb (index target) (index w.state) ≡ false
    → advance u ids b id target x p s ≡ (ok y.workflow, s)
unfolding ensure_workflow
advance-replay u ids b id target x p s w y there found role behind =
    let again = advance_pipeline-replay u id (advance_command ids id target p w) b s y found role in
    let ready : ensure_workflow u b id x s ≡ (ok w, s) = rw (there, ensure_workflow) refl in
    advance-ensure_workflow u ids b id target x p s w ready ∙ rw (behind, again) refl

-- An advance of a worker uses one command id for each application and target. Once an advance to the
-- target went through under it, then whatever calls come later, a send-back and its reopening among
-- them, a worker's advance to that target changes nothing: with the workflow behind the target it
-- returns the record of the first time as if it had advanced.
pub advance_stuck :
    (earlier later : List (Stamp × Call)) (t u : Stamp) (ids : String → WorkflowState → String)
    (a b : ActorClaims) (id x : String) (target : WorkflowState) (c : PipelineAdvanceCommand)
    (p : Option Payload) (y : TransitionResult) (w : WorkflowRecord)
    → c.command_id ≡ ids id target
    → (perform t (advance_call id c a) (serve earlier empty)).0 ≡ ok y
    → get id (serve later (perform t (advance_call id c a) (serve earlier empty)).1).workflows
      ≡ some w
    → contains ActorRole.pipeline b.roles ≡ true
    → index w.state < index target
    → let s = serve later (perform t (advance_call id c a) (serve earlier empty)).1 in
      advance u ids b id target x p s ≡ (ok y.workflow, s)
advance_stuck earlier later t u ids a b id x target c p y w own went there role behind =
    let call = advance_call id c a in
    let r = serve earlier empty in
    let q : Request = record {
      application = id;
      command = c.command_id;
      allowed = contains ActorRole.pipeline a.roles;
      unresolved = false;
      expected_version = c.expected_version;
      body = λ v. advance_transition v c a;
    } in
    let known = (serve-Remembers earlier empty empty-IsKnown).known in
    let first = submit-recorded t q r y (rw (perform-submit t call q r refl) at went) in
    let recorded : get (key q) (perform t call r).1.commands ≡ some y =
      rw (perform-submit t call q r refl) first.2 in
    let after = perform-Remembers t call r known in
    let still = (serve-Remembers later (perform t call r).1 after.known).kept (key q) y recorded in
    advance-replay u ids b id target x p (serve later (perform t call r).1) w y there
      (subst
        (λ k.
          get (record { application = id; command = k }) (serve later (perform t call r).1).commands
          ≡ some y)
        own still)
      role (ground arith)
