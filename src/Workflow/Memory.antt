-- ===== src/Workflow/Memory.antt =====
-- Every command that went through is answered from memory ever after.
use funder_match.Base.{
  Bool-cases, List, Option-cases, Result, String, [], arith, contains, err, false, get, get-put,
  inl, inr, length, nat_eq, none, ok, put, some, string_eq, true, ◌++◌, ◌+◌, ◌∷◌, ◌≡◌, ◌≢◌,
}
use funder_match.Workflow.Schema.{
  ActorRole, WorkflowRecord, AuditEvent, TransitionResult, WorkflowError, Stamp, role_eq,
}
use funder_match.Workflow.Repository
use funder_match.Workflow.Repository.{Repository, Transition, CommandKey, key_eq, log, store, empty}
use funder_match.Workflow.Service
use funder_match.Workflow.Service.{Call, create_call, perform, serve}
use funder_match.Workflow.Requests.{Request, request, submit, key, perform-submit}

-- A command is recorded only for a workflow that is there.
abbrev pub IsKnown : Repository → Type 0
IsKnown r =
    (k : CommandKey) (x : TransitionResult)
    → get k r.commands ≡ some x
    → get k.application r.workflows ≢ none

-- What the repository remembers, it goes on to remember.
pub record Remembers (r r' : Repository) : Type 0 where
  pub known : IsKnown r'
  pub kept :
      (k : CommandKey) (x : TransitionResult)
      → get k r.commands ≡ some x
      → get k r'.commands ≡ some x

Remembers-refl : (r : Repository) → IsKnown r → Remembers r r
Remembers-refl r h = record { known = h; kept = λ k x e. e }

Remembers-trans : {r s t : Repository} → Remembers r s → Remembers s t → Remembers r t
Remembers-trans a b = record { known = b.known; kept = λ k x e. b.kept k x (a.kept k x e) }

-- Writing a workflow and a fresh command forgets nothing.
write-Remembers :
    (id command : String) (w : WorkflowRecord) (es : List AuditEvent) (x : TransitionResult)
    (r : Repository)
    → IsKnown r
    → get (record { application = id; command = command }) r.commands ≡ none
    → Remembers r (record {
      workflows = put id w r.workflows;
      events = put id es r.events;
      commands = put (record { application = id; command = command }) x r.commands;
    })
write-Remembers id command w es x r h fresh = record {
  known = λ k y e. write_known k y e;
  kept = λ k y e.
      ground (arith, get-put k (record { application = id; command = command }) x r.commands);
}
  where
    write_known :
        (k : CommandKey) (y : TransitionResult)
        → get k (put (record { application = id; command = command }) x r.commands) ≡ some y
        → get k.application (put id w r.workflows) ≢ none
    write_known k y e = ground (
      arith,
      get-put k (record { application = id; command = command }) x r.commands,
      get-put k.application id w r.workflows,
      h k y,
    )

transition-Remembers :
    (id command : String) (f : Transition) (r : Repository)
    → IsKnown r
    → Remembers r (Repository.transition id command f r).1
unfolding Repository.transition
transition-Remembers id command f r h =
    elim (Option-cases (get (record { application = id; command = command }) r.commands)) [
      | inr (prior, e) ↦ rw (e, Repository.transition) (Remembers-refl r h)
      | inl fresh ↦ elim (Option-cases (get id r.workflows)) [
        | inl missing ↦
            rw (fresh, Repository.transition)
              (rw (missing, Repository.transition) (Remembers-refl r h))
        | inr (w, found) ↦
            rw (fresh, Repository.transition)
              (rw (found, Repository.transition) (stored (f w (length (log id r) + 1)) fresh))
      ]
    ]
  where
    stored :
        (x : Result WorkflowError (WorkflowRecord × AuditEvent))
        → get (record { application = id; command = command }) r.commands ≡ none
        → Remembers r (store id command r x).1
    stored (err x) fresh = Remembers-refl r h
    stored (ok (w, e)) fresh =
        write-Remembers id command w (log id r ++ e ∷ []) (record { workflow = w; audit_event = e })
          r h fresh

submit-Remembers :
    (t : Stamp) (q : Request) (r : Repository) → IsKnown r → Remembers r (submit t q r).1
submit-Remembers t q r h = elim (Bool-cases q.allowed) [
  | inr p ↦ rw p (Remembers-refl r h)
  | inl p ↦ elim (Bool-cases q.unresolved) [
    | inl u ↦ rw (p, u) (Remembers-refl r h)
    | inr u ↦ rw (p, u) (transition-Remembers q.application q.command (q.body t) r h)
  ]
]

-- A new application has no command on record.
unknown_fresh :
    (k : CommandKey) (r : Repository)
    → IsKnown r
    → get k.application r.workflows ≡ none
    → get k r.commands ≡ none
unknown_fresh k r h new = elim (Option-cases (get k r.commands)) [
  | inl fresh ↦ fresh
  | inr (x, found) ↦ absurd (h k x found new)
]

insert-Remembers :
    (w : WorkflowRecord) (e : AuditEvent) (r : Repository)
    → IsKnown r
    → Remembers r (Repository.create w e r).1
unfolding Repository.create
insert-Remembers w e r h = elim (Option-cases (get w.application_id r.workflows)) [
  | inr (old, found) ↦ rw (found, Repository.create) (Remembers-refl r h)
  | inl new ↦
      rw (new, Repository.create)
        (write-Remembers w.application_id e.command_id w (e ∷ []) _ r h (
          unknown_fresh (record { application = w.application_id; command = e.command_id }) r h
            new))
]

create-Remembers :
    (t : Stamp) (c : Call) (r : Repository)
    → request c ≡ none
    → IsKnown r
    → Remembers r (perform t c r).1
unfolding perform Service.create
create-Remembers t (create_call id a command reason) r n h =
    elim (Bool-cases (contains ActorRole.pipeline a.roles)) [
      | inr p ↦ rw p (Remembers-refl r h)
      | inl p ↦ rw p (insert-Remembers _ _ r h)
    ]
create-Remembers t _ r n h = cc

pub perform-Remembers :
    (t : Stamp) (c : Call) (r : Repository) → IsKnown r → Remembers r (perform t c r).1
perform-Remembers t c r h = elim (Option-cases (request c)) [
  | inl new ↦ create-Remembers t c r new h
  | inr (q, same) ↦ rw (perform-submit t c q r same) (submit-Remembers t q r h)
]

pub serve-Remembers :
    (calls : List (Stamp × Call)) (r : Repository) → IsKnown r → Remembers r (serve calls r)
unfolding serve
serve-Remembers [] r h = Remembers-refl r h
serve-Remembers ((t, c) ∷ calls) r h =
    let first = perform-Remembers t c r h in
    Remembers-trans first (serve-Remembers calls (perform t c r).1 first.known)

store-recorded :
    (id command : String) (r : Repository) (x : Result WorkflowError (WorkflowRecord × AuditEvent))
    (y : TransitionResult)
    → (store id command r x).0 ≡ ok y
    → get (record { application = id; command = command }) (store id command r x).1.commands
      ≡ some y
store-recorded id command r (err x) y h = cc
store-recorded id command r (ok (w, e)) y h = ground (
  arith,
  get-put (record { application = id; command = command })
      (record { application = id; command = command }) (record { workflow = w; audit_event = e })
      r.commands,
)

transition-recorded :
    (id command : String) (f : Transition) (r : Repository) (y : TransitionResult)
    → (Repository.transition id command f r).0 ≡ ok y
    → get
        (record { application = id; command = command })
        (Repository.transition id command f r).1.commands
      ≡ some y
unfolding Repository.transition
transition-recorded id command f r y h = elim (Option-cases (get id r.workflows)) [
  | inl missing ↦ ground arith
  | inr (w, found) ↦ ground (arith, store-recorded id command r (f w (length (log id r) + 1)) y)
]

pub submit-recorded :
    (t : Stamp) (q : Request) (r : Repository) (y : TransitionResult)
    → (submit t q r).0 ≡ ok y
    → (q.allowed ≡ true) × (q.unresolved ≡ false) × (get (key q) (submit t q r).1.commands ≡ some y)
submit-recorded t q r y h =
    ground (arith, transition-recorded q.application q.command (q.body t) r y)

pub submit-replay :
    (t : Stamp) (q : Request) (r : Repository) (y : TransitionResult)
    → q.allowed ≡ true
    → q.unresolved ≡ false
    → get (key q) r.commands ≡ some y
    → submit t q r ≡ (ok y, r)
unfolding Repository.transition
submit-replay t q r y p u found = ground arith

pub empty-IsKnown : IsKnown empty
unfolding get
empty-IsKnown k x h = cc

-- A command that went through runs once: whatever calls come between, repeating it (an advance, a
-- decision, a precedent receipt or a reopening) returns the first result, at any later time, and
-- changes nothing.
pub exactly_once :
    (earlier later : List (Stamp × Call)) (t t' : Stamp) (c : Call) (q : Request)
    (y : TransitionResult)
    → request c ≡ some q
    → (perform t c (serve earlier empty)).0 ≡ ok y
    → let s = serve later (perform t c (serve earlier empty)).1 in perform t' c s ≡ (ok y, s)
exactly_once earlier later t t' c q y same h =
    let r = serve earlier empty in
    let known = (serve-Remembers earlier empty empty-IsKnown).known in
    let first = submit-recorded t q r y (rw (perform-submit t c q r same) at h) in
    let after = perform-Remembers t c r known in
    let s = serve later (perform t c r).1 in
    let recorded : get (key q) (perform t c r).1.commands ≡ some y =
      rw (perform-submit t c q r same) first.2 in
    let still = (serve-Remembers later (perform t c r).1 after.known).kept (key q) y recorded in
    rw (perform-submit t' c q s same) (submit-replay t' q s y first.0 first.1 still)
