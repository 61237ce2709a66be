-- ===== src/Workflow/Soundness.antt =====
-- Every sequence of calls leaves a sound repository.
use funder_match.Base.{
  ==_iff, Bool-cases, Dict, List, Option, Option-cases, Result, String, [], ap, arith, contains,
  err, get, get-put, inl, inr, length, length-append, nat_eq, none, ok, put, refl, some, string_eq,
  sym, true, ◌++◌, ◌+◌, ◌==◌, ◌∙◌, ◌∷◌, ◌≡◌,
}
use funder_match.Workflow.Schema.{
  intake, state_eq, ActorRole, human_reviewer, role_eq, ActorClaims, PipelineAdvanceCommand,
  HumanDecisionCommand, PipelineReopenCommand, PrecedentWriteCommand, PrecedentWriteReceipt,
  WorkflowRecord, AuditEvent, TransitionResult, Stamp,
}
use funder_match.Workflow.Repository.{Repository, log, Transition}
use funder_match.Workflow.Transitions.{
  advance_transition, decide_transition, written_transition, reopen_transition,
}
use funder_match.Base.{Dict, get-put, put, Option-cases}
use funder_match.Workflow.Schema.{WorkflowError}
use funder_match.Workflow.Repository
use funder_match.Workflow.Repository.{store, empty, key_eq, CommandKey}
use funder_match.Workflow.Service
use funder_match.Workflow.Transitions.{is_supervisor}
use funder_match.Workflow.Service.{
  Call, create_call, advance_call, decide_call, written_call, reopen_call, serve, perform,
  require_role,
}
use funder_match.Workflow.Moves.{advance-Moves, decide-Moves, written-Moves, reopen-Moves}
use funder_match.Workflow.Requests.{IsLawful}
use funder_match.Workflow.Trail.{enter, Moves, Entry, IsSound, Follows-append, IsWellFormed}

Entry-append :
    (id : String) (w w' : WorkflowRecord) (es : List AuditEvent) (e : AuditEvent)
    → Entry id w es
    → Moves w (length es + 1) w' e
    → Entry id w' (es ++ e ∷ [])
Entry-append id w w' es e h m = record {
  own = m.same_application ∙ h.own;
  well_formed = m.well_formed h.well_formed;
  trail = rw (← m.to_state) (
      Follows-append none 1 es w.state e m.role h.trail m.from_state (omega (arith, m.sequence))
        (rw m.to_state m.edge) m.allowed);
  counted = omega (arith, length-append es (e ∷ []), h.counted, m.next_version);
}

put-Entry :
    (id j : String) (w v : WorkflowRecord) (es : List AuditEvent) (r : Repository)
    (c : Dict CommandKey TransitionResult)
    → IsSound r
    → Entry id w es
    → get j (put id w r.workflows) ≡ some v
    → Entry j v (
        log j
          (record { workflows = put id w r.workflows; events = put id es r.events; commands = c }))
put-Entry id j w v es r c sound new found = elim (Bool-cases (id == j)) [
  | inl same ↦
      let key : id ≡ j = (==_iff id j).0 same in
      let value : w ≡ v = ground (arith, get-put j id w r.workflows) in
      rw (get-put j id es r.events, same) (rw (← key, ← value) new)
  | inr other ↦
      let value : get j r.workflows ≡ some v = ground (arith, get-put j id w r.workflows) in
      rw (get-put j id es r.events, other) (sound j v value)
]

store-IsSound :
    (id command : String) (r : Repository) (w : WorkflowRecord)
    (x : Result WorkflowError (WorkflowRecord × AuditEvent))
    → IsSound r
    → get id r.workflows ≡ some w
    → ((w' : WorkflowRecord) (e : AuditEvent)
        → x ≡ ok (w', e)
        → Moves w (length (log id r) + 1) w' e)
    → IsSound (store id command r x).1
store-IsSound id command r w (err x) h found m j v g = h j v g
store-IsSound id command r w (ok (w', e)) h found m j v g =
    put-Entry id j w' v (log id r ++ e ∷ []) r
      (put (record { application = id; command = command })
        (record { workflow = w'; audit_event = e }) r.commands)
      h (Entry-append id w w' (log id r) e (h id w found) (m w' e refl)) g

transition-IsSound :
    (id command : String) (f : Transition) (r : Repository)
    → IsLawful f
    → IsSound r
    → IsSound (Repository.transition id command f r).1
unfolding Repository.transition
transition-IsSound id command f r lawful h =
    elim (Option-cases (get (record { application = id; command = command }) r.commands)) [
      | inr (prior, e) ↦ rw (e, Repository.transition) h
      | inl fresh ↦ elim (Option-cases (get id r.workflows)) [
        | inl missing ↦ rw (fresh, Repository.transition) (rw (missing, Repository.transition) h)
        | inr (w, found) ↦
            rw (fresh, Repository.transition)
              (rw (found, Repository.transition)
                (store-IsSound id command r w (f w (length (log id r) + 1)) h found
                  (λ w' e. lawful w w' _ e)))
      ]
    ]

new-Entry :
    (w : WorkflowRecord) (e : AuditEvent)
    → w.version ≡ 0
    → IsWellFormed w
    → e.from_state ≡ none
    → e.sequence ≡ 1
    → e.to_state ≡ intake
    → w.state ≡ intake
    → contains ActorRole.pipeline e.actor_roles ≡ true
    → Entry w.application_id w (e ∷ [])
new-Entry w e v f from number to at allowed = record {
  own = refl;
  well_formed = f;
  trail = (from, number, (ActorRole.pipeline, rw to enter, allowed), ap some (to ∙ sym at));
  counted = omega arith;
}

Repository-create-IsSound :
    (w : WorkflowRecord) (e : AuditEvent) (r : Repository)
    → IsSound r
    → Entry w.application_id w (e ∷ [])
    → IsSound (Repository.create w e r).1
unfolding Repository.create
Repository-create-IsSound w e r h new = elim (Option-cases (get w.application_id r.workflows)) [
  | inr (old, found) ↦ rw (found, Repository.create) h
  | inl fresh ↦
      rw (fresh, Repository.create)
        (λ j v g.
          put-Entry w.application_id j w v (e ∷ []) r
            (put (record { application = w.application_id; command = e.command_id })
              (record { workflow = w; audit_event = e }) r.commands)
            h new g)
]

create-IsSound :
    (t : Stamp) (id : String) (a : ActorClaims) (command : Option String) (reason : String)
    (r : Repository)
    → IsSound r
    → IsSound (Service.create t id a command reason r).1
unfolding Service.create
create-IsSound t id a command reason r h = elim (Bool-cases (contains ActorRole.pipeline a.roles)) [
  | inr not_allowed ↦ rw not_allowed h
  | inl p ↦ rw p (
      Repository-create-IsSound _ _ r h
        (new-Entry _ _ refl (ground arith) refl refl refl refl (ground arith)))
]

advance-IsSound :
    (t : Stamp) (id : String) (c : PipelineAdvanceCommand) (a : ActorClaims) (r : Repository)
    → IsSound r
    → IsSound (Service.advance_pipeline t id c a r).1
unfolding Service.advance_pipeline
advance-IsSound t id c a r h = elim (Bool-cases (contains ActorRole.pipeline a.roles)) [
  | inr not_allowed ↦ rw not_allowed h
  | inl p ↦ rw p (
      transition-IsSound id c.command_id (advance_transition t c a) r
        (λ w w' n e. advance-Moves t c a w w' n e p) h)
]

decide-IsSound :
    (t : Stamp) (id : String) (c : HumanDecisionCommand) (a : ActorClaims) (r : Repository)
    → IsSound r
    → IsSound (Service.decide t id c a r).1
unfolding Service.decide
decide-IsSound t id c a r h = elim (Bool-cases (contains human_reviewer a.roles)) [
  | inr not_allowed ↦ rw not_allowed h
  | inl p ↦ rw p (
      transition-IsSound id c.command_id (decide_transition t c a) r
        (λ w w' n e. decide-Moves t c a w w' n e p) h)
]

written-IsSound :
    (t : Stamp) (id : String) (c : PrecedentWriteCommand) (x : PrecedentWriteReceipt)
    (a : ActorClaims) (r : Repository)
    → IsSound r
    → IsSound (Service.mark_precedent_written t id c x a r).1
unfolding Service.mark_precedent_written
written-IsSound t id c x a r h = elim (Bool-cases (contains ActorRole.pipeline a.roles)) [
  | inr not_allowed ↦ rw not_allowed h
  | inl p ↦ rw p (
      transition-IsSound id c.command_id (written_transition t c x a) r
        (λ w w' n e. written-Moves t c x a w w' n e p) h)
]

reopen-IsSound :
    (t : Stamp) (id : String) (c : PipelineReopenCommand) (a : ActorClaims) (r : Repository)
    → IsSound r
    → IsSound (Service.reopen_after_send_back t id c a r).1
unfolding Service.reopen_after_send_back
reopen-IsSound t id c a r h = elim (Bool-cases (contains human_reviewer a.roles)) [
  | inr not_allowed ↦ rw not_allowed h
  | inl p ↦ elim (Bool-cases (is_supervisor c.restart_stage)) [
    | inl unresolved ↦ rw p (rw unresolved h)
    | inr resolved ↦ rw p (
        rw resolved (
          transition-IsSound id c.command_id (reopen_transition t c a) r
            (λ w w' n e. reopen-Moves t c a w w' n e p) h))
  ]
]

perform-IsSound : (t : Stamp) (c : Call) (r : Repository) → IsSound r → IsSound (perform t c r).1
unfolding perform
perform-IsSound t (create_call id a command reason) r h = create-IsSound t id a command reason r h
perform-IsSound t (advance_call id c a) r h = advance-IsSound t id c a r h
perform-IsSound t (decide_call id c a) r h = decide-IsSound t id c a r h
perform-IsSound t (written_call id c x a) r h = written-IsSound t id c x a r h
perform-IsSound t (reopen_call id c a) r h = reopen-IsSound t id c a r h

empty-IsSound : IsSound empty
unfolding get
empty-IsSound id w h = cc

serve_from-IsSound :
    (calls : List (Stamp × Call)) (r : Repository) → IsSound r → IsSound (serve calls r)
unfolding serve
serve_from-IsSound [] r h = h
serve_from-IsSound ((t, c) ∷ calls) r h =
    serve_from-IsSound calls (perform t c r).1 (perform-IsSound t c r h)

-- After any sequence of calls on an empty repository, whatever roles, versions, states and
-- identifiers the calls carry, each stored workflow is well formed, its events are numbered from 1
-- without a gap, each is an allowed move by an actor with the role for it, they lead from nothing
-- to the stored state, and there is one more of them than the version.
pub serve-Entry :
    (calls : List (Stamp × Call)) (id : String) (w : WorkflowRecord)
    → get id (serve calls empty).workflows ≡ some w
    → Entry id w (log id (serve calls empty))
serve-Entry calls id w found = serve_from-IsSound calls empty empty-IsSound id w found
